-- ===== src/System/Baseline.antt =====
-- The benchmarking baseline: with DISABLE_OFFLOAD set, the fast path never acts.
use cu_ebpf.Base.{ℕ, ◌≡◌, ◌∙◌, refl, inl, inr, true, List, Option, none, some, arith}
use cu_ebpf.Packet.{Packet}
use cu_ebpf.Session.{Mac, SessionMap, UpdateElem, empty_map}
use cu_ebpf.Event.{GtpEvent}
use cu_ebpf.Xdp.{pass}
use cu_ebpf.Learner.{
  Learner, print_event, maybe_populate_ul_session_map, maybe_complete_ul_session_map,
}
use cu_ebpf.Watcher.{
  seed_session, Inet, UpfRound, f1ap_line, ngap_line, f1ap_endpoint, ngap_endpoint, du_mac_refresh,
  upf_mac_refresh,
}
use cu_ebpf.Watcher.Lines.{f1ap_line_cases, ngap_line_cases}
use cu_ebpf.Program.{parse_gtpu}
use cu_ebpf.Program.Safety.{pass-Untouched}
use cu_ebpf.Program.Offload.{pass_of_empty}
use cu_ebpf.System.{
  Platform, System, Step, receive, poll, f1ap, ngap, du_mac, upf_mac, seed, Reach, here, after,
}

-- DISABLE_OFFLOAD is set and nothing is in the session maps.
pub record IsBaseline (s : System) : Type 0 where
  pub disabled : s.learner.disable_offload ≡ true
  pub no_dl : s.kernel.session_map ≡ empty_map
  pub no_ul : s.kernel.ul_session_map ≡ empty_map

print_event-disabled :
    (update : UpdateElem) (l : Learner) (e : GtpEvent) (m : SessionMap)
    → l.disable_offload ≡ true
    → print_event update l e m ≡ m
unfolding print_event
print_event-disabled update l e m d = ground arith

f1ap_endpoint-disabled :
    (inet : Inet) (update : UpdateElem) (ip : List ℕ) (t a : ℕ) (l : Learner) (m : SessionMap)
    → l.disable_offload ≡ true
    → ((f1ap_endpoint inet update ip t a (l, m)).0.disable_offload ≡ true)
      × ((f1ap_endpoint inet update ip t a (l, m)).1 ≡ m)
unfolding f1ap_endpoint maybe_populate_ul_session_map maybe_complete_ul_session_map
f1ap_endpoint-disabled inet update ip t a l m d = ground arith

ngap_endpoint-disabled :
    (inet : Inet) (update : UpdateElem) (ip : List ℕ) (t a : ℕ) (l : Learner) (m : SessionMap)
    → l.disable_offload ≡ true
    → ((ngap_endpoint inet update ip t a (l, m)).0.disable_offload ≡ true)
      × ((ngap_endpoint inet update ip t a (l, m)).1 ≡ m)
unfolding ngap_endpoint maybe_complete_ul_session_map
ngap_endpoint-disabled inet update ip t a l m d = ground arith

upf_mac_refresh-disabled :
    (update : UpdateElem) (arp : ℕ → Option Mac) (r : UpfRound)
    → r.learner.disable_offload ≡ true
    → ((upf_mac_refresh update arp r).learner.disable_offload ≡ true)
      × ((upf_mac_refresh update arp r).ul_map ≡ r.ul_map)
unfolding upf_mac_refresh maybe_complete_ul_session_map
upf_mac_refresh-disabled update arp r d = ground arith

du_mac_refresh-disabled :
    (found : Option Mac) (l : Learner)
    → (du_mac_refresh found l).disable_offload ≡ l.disable_offload
unfolding du_mac_refresh
du_mac_refresh-disabled none l = refl
du_mac_refresh-disabled (some c) l = refl

seed_session-disabled :
    (update : UpdateElem) (addr : ℕ) (variable : Option (Option (ℕ × ℕ))) (l : Learner)
    (m : SessionMap)
    → l.disable_offload ≡ true
    → seed_session update addr variable l m ≡ m
unfolding seed_session
seed_session-disabled update addr none l m d = refl
seed_session-disabled update addr (some none) l m d = refl
seed_session-disabled update addr (some (some (n3_teid, f1u_teid))) l m d = ground arith

-- A line may teach the learner something, but leaves the map alone.
abbrev Quiet : SessionMap → Learner × SessionMap → Type 0
Quiet m lm = (lm.0.disable_offload ≡ true) × (lm.1 ≡ m)

f1ap_line-Quiet :
    (inet : Inet) (update : UpdateElem) (line : List ℕ) (l : Learner) (m : SessionMap)
    → l.disable_offload ≡ true
    → Quiet m (f1ap_line inet update line (l, m))
f1ap_line-Quiet inet update line l m d = elim (f1ap_line_cases inet update (l, m) line) [
  | inl same ↦ rw same (d, refl)
  | inr (x, e) ↦ rw e (f1ap_endpoint-disabled inet update x.ip x.teid x.addr l m d)
]

ngap_line-Quiet :
    (inet : Inet) (update : UpdateElem) (line : List ℕ) (l : Learner) (m : SessionMap)
    → l.disable_offload ≡ true
    → Quiet m (ngap_line inet update line (l, m))
ngap_line-Quiet inet update line l m d = elim (ngap_line_cases inet update (l, m) line) [
  | inl same ↦ rw same (d, refl)
  | inr (x, e) ↦ rw e (ngap_endpoint-disabled inet update x.ip x.teid x.addr l m d)
]

Step-IsBaseline : {pl : Platform} {s t : System} → Step pl s t → IsBaseline s → IsBaseline t
Step-IsBaseline {pl} (receive s p) b =
    let passes = pass_of_empty pl.helpers s.kernel p b.no_dl b.no_ul in
    let same = pass-Untouched pl.helpers s.kernel p passes in
    record { disabled = b.disabled; no_dl = same.1 ∙ b.no_dl; no_ul = same.2 ∙ b.no_ul }
Step-IsBaseline {pl} (poll s e es taken) b = record {
  disabled = b.disabled;
  no_dl = print_event-disabled pl.update s.learner e s.kernel.session_map b.disabled ∙ b.no_dl;
  no_ul = b.no_ul;
}
Step-IsBaseline {pl} (f1ap s line) b =
    let q = f1ap_line-Quiet pl.inet pl.update line s.learner s.kernel.ul_session_map b.disabled in
    record { disabled = q.0; no_dl = b.no_dl; no_ul = q.1 ∙ b.no_ul }
Step-IsBaseline {pl} (ngap s line) b =
    let q = ngap_line-Quiet pl.inet pl.update line s.learner s.kernel.ul_session_map b.disabled in
    record { disabled = q.0; no_dl = b.no_dl; no_ul = q.1 ∙ b.no_ul }
Step-IsBaseline {pl} (du_mac s found) b = record {
  disabled = du_mac_refresh-disabled found s.learner ∙ b.disabled;
  no_dl = b.no_dl;
  no_ul = b.no_ul;
}
Step-IsBaseline {pl} (upf_mac s arp) b =
    let q = upf_mac_refresh-disabled pl.update arp _ b.disabled in
    record { disabled = q.0; no_dl = b.no_dl; no_ul = q.1 ∙ b.no_ul }
Step-IsBaseline {pl} (seed s variable addr fits reads) b = record {
  disabled = b.disabled;
  no_dl =
      seed_session-disabled pl.update addr variable s.learner s.kernel.session_map b.disabled
      ∙ b.no_dl;
  no_ul = b.no_ul;
}

Reach-IsBaseline : {pl : Platform} {s t : System} → IsBaseline s → Reach pl s t → IsBaseline t
Reach-IsBaseline b here = b
Reach-IsBaseline b (after r st) = Step-IsBaseline st (Reach-IsBaseline b r)

-- Started with DISABLE_OFFLOAD and empty session maps, the two programs let every packet pass
-- unmodified, whatever packets, events, lines, ARP tables and seeds came before.
pub baseline_passes :
    {pl : Platform} {s t : System} (p : Packet)
    → IsBaseline s
    → Reach pl s t
    → ((parse_gtpu pl.helpers t.kernel p).verdict ≡ pass)
      × ((parse_gtpu pl.helpers t.kernel p).packet ≡ p)
baseline_passes {pl} {s} {t} p b r =
    let b' : IsBaseline t = Reach-IsBaseline b r in
    let passes = pass_of_empty pl.helpers t.kernel p b'.no_dl b'.no_ul in
    (passes, (pass-Untouched pl.helpers t.kernel p passes).0)
