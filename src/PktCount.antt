-- ===== src/PktCount.antt =====
-- ebpf-pkt-count: xdp_count.bpf.c counts every packet, and xdp_count_user.c loads it, reads the
-- counter once a second, and cleans up. main is modelled by what its calls return: which resources
-- it takes and gives back, and what it prints.
pub mod Counting
use cu_ebpf.Base.{
  ℕ, zero, suc, ◌+◌, ◌%◌, ◌^◌, Bool, true, false, List, [], ◌∷◌, ◌++◌, Option, none, some, not,
  if◌then◌else◌,
}
use cu_ebpf.Xdp.{Verdict, pass}

-- packet_count is an array of one __u64; `none` is a lookup that fails.
unfoldable pub count_packets : Option ℕ → Verdict × Option ℕ
count_packets none = (pass, none)
count_packets (some count) = (pass, some ((count + 1) % 2 ^ 64))

-- What the calls of main return. `reads` are the lookups in the polling loop, one a round, `none` a
-- failed one; the list is over when a signal sets `stop`.
pub record Calls : Type 0 where
  pub interface_found : Bool
  pub opens : Bool
  pub loads : Bool
  pub program_found : Bool
  pub program_fd_ok : Bool
  pub attaches : Bool
  pub map_found : Bool
  pub map_fd_ok : Bool
  pub reads : List (Option ℕ)

pub data Action : Type 0 where
  opened attached detached closed : Action
  printed : ℕ → Action

-- The polling loop: a failed lookup breaks it.
unfoldable pub read_loop : List (Option ℕ) → List Action
read_loop [] = []
read_loop (none ∷ reads) = []
read_loop (some packet_total ∷ reads) = printed packet_total ∷ read_loop reads

-- cleanup, by what `attached` and `object` are.
abbrev pub cleanup : Bool → List Action
cleanup attached_now = if attached_now then detached ∷ closed ∷ [] else closed ∷ []

-- What main does, and its exit status.
unfoldable pub main : Calls → List Action × ℕ
unfolding read_loop
main c =
    if not c.interface_found
    then ([], 1)
    else if not c.opens
    then ([], 1)
    else if not c.loads
    then (opened ∷ cleanup false, 0)
    else if not c.program_found
    then (opened ∷ cleanup false, 0)
    else if not c.program_fd_ok
    then (opened ∷ cleanup false, 0)
    else if not c.attaches
    then (opened ∷ cleanup false, 0)
    else if not c.map_found
    then (opened ∷ attached ∷ cleanup true, 0)
    else if not c.map_fd_ok
    then (opened ∷ attached ∷ cleanup true, 0)
    else (opened ∷ attached ∷ (read_loop c.reads ++ cleanup true), 0)
