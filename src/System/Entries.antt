-- ===== src/System/Entries.antt =====
-- What becomes of an entry of session_map while the two programs run.
use cu_ebpf.Base.{
  ℕ, ◌+◌, ◌%◌, ◌^◌, ◌<◌, ◌≡◌, ◌∙◌, ap, true, false, Bool, not, ◌&&◌, ◌==◌, none, some, Option,
  if◌then◌else◌, arith,
}
use cu_ebpf.Session.{SessionCtx, SessionMap, UpdateElem, IsUpdateElem}
use cu_ebpf.Learner.{Learner}
use cu_ebpf.Learner.Entries.{print_event_keeps}
use cu_ebpf.Watcher.{seed_session}
use cu_ebpf.Downlink.{bump_sn}
use cu_ebpf.Program.Sequence.{offloads, parse_gtpu-entry}
use cu_ebpf.System.{
  Platform, System, Step, receive, poll, f1ap, ngap, du_mac, upf_mac, seed, Reach, here, after,
}
use cu_ebpf.System.Writers.{seed_cases, seed_nothing}

-- The seed names the TEID `k`.
abbrev names : ℕ → Option (Option (ℕ × ℕ)) → Bool
names k none = false
names k (some none) = false
names k (some (some (n3_teid, f1u_teid))) = n3_teid == k

-- The step seeds the session of `k`.
abbrev seeds : {pl : Platform} {s t : System} → ℕ → Step pl s t → Bool
seeds k (receive s p) = false
seeds k (poll s e es taken) = false
seeds k (f1ap s line) = false
seeds k (ngap s line) = false
seeds k (du_mac s found) = false
seeds k (upf_mac s arp) = false
seeds k (seed s variable addr fits reads) = names k variable

-- The step is a packet that the downlink block redirects under `k`.
abbrev step_offloads : {pl : Platform} {s t : System} → ℕ → Step pl s t → Bool
step_offloads {pl} k (receive s p) = offloads pl.helpers s.kernel k p
step_offloads k (poll s e es taken) = false
step_offloads k (f1ap s line) = false
step_offloads k (ngap s line) = false
step_offloads k (du_mac s found) = false
step_offloads k (upf_mac s arp) = false
step_offloads k (seed s variable addr fits reads) = false

-- No step on the way seeds the session of `k`.
unfoldable pub never_seeds : {pl : Platform} {s t : System} → ℕ → Reach pl s t → Bool
never_seeds k here = true
never_seeds k (after r st) = never_seeds k r && not (seeds k st)

-- How many packets on the way the downlink block redirects under `k`.
unfoldable pub count_redirected : {pl : Platform} {s t : System} → ℕ → Reach pl s t → ℕ
count_redirected k here = 0
count_redirected k (after r st) = count_redirected k r + (if step_offloads k st then 1 else 0)

seed_other :
    (update : UpdateElem) (is : IsUpdateElem update) (addr k : ℕ)
    (variable : Option (Option (ℕ × ℕ))) (l : Learner) (m : SessionMap)
    → names k variable ≡ false
    → seed_session update addr variable l m k ≡ m k
seed_other update is addr k none l m other = rw (seed_nothing update addr l m).0
seed_other update is addr k (some none) l m other = rw (seed_nothing update addr l m).1
seed_other update is addr k (some (some (n3_teid, f1u_teid))) l m other =
    ground (arith, seed_cases update is addr n3_teid f1u_teid l m, other)

Step-entry :
    {pl : Platform} {s t : System} (k : ℕ) (entry : SessionCtx) (st : Step pl s t)
    → IsUpdateElem pl.update
    → s.kernel.session_map k ≡ some entry
    → seeds k st ≡ false
    → t.kernel.session_map k ≡ some (if step_offloads k st then bump_sn entry else entry)
Step-entry {pl} k entry (receive s p) is found other =
    parse_gtpu-entry pl.helpers s.kernel p k entry found
Step-entry {pl} k entry (poll s e es taken) is found other =
    print_event_keeps pl.update is s.learner e s.kernel.session_map k entry found
Step-entry k entry (f1ap s line) is found other = found
Step-entry k entry (ngap s line) is found other = found
Step-entry k entry (du_mac s found_mac) is found other = found
Step-entry k entry (upf_mac s arp) is found other = found
Step-entry {pl} k entry (seed s variable addr fits reads) is found other =
    seed_other pl.update is addr k variable s.learner s.kernel.session_map other ∙ found

abbrev numbered : SessionCtx → ℕ → SessionCtx
numbered entry n = record entry { next_dl_pdcp_sn = n % 2 ^ 32 }

counts_on :
    (entry : SessionCtx) (n : ℕ) (b : Bool)
    → (if b then bump_sn (numbered entry n) else numbered entry n)
      ≡ numbered entry (n + (if b then 1 else 0))
counts_on entry n true = ap (λ (sn : ℕ). record entry { next_dl_pdcp_sn = sn }) (omega arith)
counts_on entry n false = ap (numbered entry) (omega arith)

-- Over any sequence of packets, events, watcher lines and ARP rounds that does not seed its TEID
-- again, an entry of session_map changes in its PDCP counter only, which goes up by one, modulo 2^32,
-- with each packet that is redirected under its TEID: its tunnel, addresses and interface stay,
-- whatever the learner is told meanwhile. Assumed: bpf_map_update_elem keeps its word, and the
-- counter starts as a 32-bit word.
pub Reach-counts :
    {pl : Platform} {s t : System} (k : ℕ) (entry : SessionCtx) (r : Reach pl s t)
    → IsUpdateElem pl.update
    → s.kernel.session_map k ≡ some entry
    → entry.next_dl_pdcp_sn < 2 ^ 32
    → never_seeds k r ≡ true
    → t.kernel.session_map k
      ≡ some (record entry {
        next_dl_pdcp_sn = (entry.next_dl_pdcp_sn + count_redirected k r) % 2 ^ 32;
      })
unfolding never_seeds count_redirected
Reach-counts k entry here is found word unseeded = ground (arith, found)
Reach-counts k entry (after r st) is found word unseeded =
    let n = entry.next_dl_pdcp_sn + count_redirected k r in
    let before = Reach-counts k entry r is found word (ground (arith, unseeded)) in
    let now = Step-entry k (numbered entry n) st is before (ground (arith, unseeded)) in
    now ∙ ap some (counts_on entry n (step_offloads k st) ∙ ap (numbered entry) (omega arith))
