-- ===== src/PlaneCount.antt =====
-- The counter of user plane and control plane packets: the XDP program of
-- ebpf-udp-sctp-pkt-count/xdp_plane_count.bpf.c, and the polling loop and the start and clean-up of
-- ebpf-udp-sctp-pkt-count/xdp_plane_count_user.c.
pub mod Counting
pub mod Polling
pub mod Cleanup
use cu_ebpf.Base.{
  ℕ, ◌+◌, ◌-◌, ◌%◌, ◌^◌, Bool, true, false, not, ◌||◌, Option, none, some, List, [], ◌∷◌, ◌++◌, ltb,
  ◌==◌, if◌then◌else◌,
}
use cu_ebpf.Packet.{Packet, be16}
use cu_ebpf.Parse.{outer_ihl, udp_offset, gtpu_port}
use cu_ebpf.Xdp.{Verdict, pass}

-- enum counter_key
pub data CounterKey : Type 0 where
  user_plane control_plane : CounterKey

abbrev pub f1ap_port : ℕ
f1ap_port = 38472

-- What a lookup in plane_counters finds.
abbrev pub PlaneCounters : Type 0
PlaneCounters = CounterKey → Option ℕ

abbrev pub same_key : CounterKey → CounterKey → Bool
same_key user_plane user_plane = true
same_key control_plane control_plane = true
same_key _ _ = false

-- __sync_fetch_and_add on a __u64, if the lookup found it.
unfoldable pub increment_counter : CounterKey → PlaneCounters → PlaneCounters
increment_counter key m j = elim (m key) [
  | none ↦ m j
  | some n ↦ if same_key key j then some ((n + 1) % 2 ^ 64) else m j
]

-- The branch for IPPROTO_UDP.
unfoldable pub count_udp : Packet → PlaneCounters → PlaneCounters
unfolding increment_counter
count_udp p m =
    if ltb p.len (udp_offset p + 8)
    then m
    else if be16 p.at (udp_offset p) == gtpu_port || be16 p.at (udp_offset p + 2) == gtpu_port
    then increment_counter user_plane m
    else m

-- The branch for IPPROTO_SCTP; its common header has 12 bytes.
unfoldable pub count_sctp : Packet → PlaneCounters → PlaneCounters
unfolding increment_counter
count_sctp p m =
    if ltb p.len (udp_offset p + 12)
    then m
    else if be16 p.at (udp_offset p) == f1ap_port || be16 p.at (udp_offset p + 2) == f1ap_port
    then increment_counter control_plane m
    else m

unfoldable pub count_user_and_control_plane : Packet → PlaneCounters → Verdict × PlaneCounters
unfolding count_udp count_sctp
count_user_and_control_plane p m =
    if ltb p.len 14
    then (pass, m)
    else if not (be16 p.at 12 == 0x0800)
    then (pass, m)
    else if ltb p.len 34
    then (pass, m)
    else if ltb (outer_ihl p) 20
    then (pass, m)
    else if ltb p.len (udp_offset p)
    then (pass, m)
    else if p.at 23 == 17
    then (pass, count_udp p m)
    else if p.at 23 == 132
    then (pass, count_sctp p m)
    else (pass, m)

-- The totals that the polling loop keeps.
pub record Totals : Type 0 where
  pub user_total : ℕ
  pub control_total : ℕ
  pub previous_user_total : ℕ
  pub previous_control_total : ℕ

-- What one round prints: the two notifications, if they are printed, with their increments.
pub record Report : Type 0 where
  pub user_found : Option ℕ
  pub control_found : Option ℕ
  pub user : ℕ
  pub control : ℕ

abbrev pub found : ℕ → ℕ → Option ℕ
found total previous = if ltb previous total then some (total - previous) else none

-- The printing half of a round, and what the round leaves.
abbrev pub report : Totals → Report
report t = record {
  user_found = found t.user_total t.previous_user_total;
  control_found = found t.control_total t.previous_control_total;
  user = t.user_total;
  control = t.control_total;
}

abbrev pub settle : Totals → Totals
settle t = record t { previous_user_total = t.user_total; previous_control_total = t.control_total }

-- What the loop leaves: what it printed, the totals, and the exit status.
pub record Polled : Type 0 where
  pub reports : List Report
  pub totals : Totals
  pub exit_status : ℕ

-- The loop, for the rounds until `stop` is set; a round is given by the results of its two calls of
-- read_counter, `none` for a failure. The second is not made if the first fails.
unfoldable pub poll : List (Option ℕ × Option ℕ) → Totals → Polled
poll [] t = record { reports = []; totals = t; exit_status = 0 }
poll ((none, c) ∷ rounds) t = record { reports = []; totals = t; exit_status = 1 }
poll ((some u, none) ∷ rounds) t = record {
  reports = [];
  totals = record t { user_total = u };
  exit_status = 1;
}
poll ((some u, some c) ∷ rounds) t =
    let t' : Totals = record t { user_total = u; control_total = c } in
    let rest : Polled = poll rounds (settle t') in
    record rest { reports = report t' ∷ rest.reports }

-- What the calls of main give.
pub record Calls : Type 0 where
  pub interface_found : Bool
  pub opened : Bool
  pub loaded : Bool
  pub program_found : Bool
  pub program_fd_valid : Bool
  pub attach_works : Bool
  pub map_found : Bool
  pub map_fd_valid : Bool
  pub rounds : List (Option ℕ × Option ℕ)
  pub detach_works : Bool

-- What takes a resource, as it succeeds, and what gives one back, as it is called.
pub data Action : Type 0 where
  open_object attach_xdp detach_xdp close_object : Action

abbrev pub zero_totals : Totals
zero_totals = record {
  user_total = 0;
  control_total = 0;
  previous_user_total = 0;
  previous_control_total = 0;
}

-- The label cleanup, with `attached`, whether there is an object, and exit_status as it stands.
unfoldable pub cleanup : Calls → Bool → Bool → ℕ → List Action × ℕ
cleanup c attached object status = (
  (if attached then detach_xdp ∷ [] else []) ++ (if object then close_object ∷ [] else []),
  if attached then (if c.detach_works then status else 1) else status,
)

abbrev pub before : List Action → List Action × ℕ → List Action × ℕ
before done (rest, status) = (done ++ rest, status)

unfoldable pub main : Calls → List Action × ℕ
unfolding cleanup
main c =
    if not c.interface_found
    then ([], 1)
    else if not c.opened
    then cleanup c false false 1
    else before (open_object ∷ []) (
        if not c.loaded
        then cleanup c false true 1
        else if not c.program_found
        then cleanup c false true 1
        else if not c.program_fd_valid
        then cleanup c false true 1
        else if not c.attach_works
        then cleanup c false true 1
        else before (attach_xdp ∷ []) (
            if not c.map_found
            then cleanup c true true 1
            else if not c.map_fd_valid
            then cleanup c true true 1
            else cleanup c true true (poll c.rounds zero_totals).exit_status))
