-- ===== src/Program/Sequence.antt =====
-- The PDCP sequence numbers: what parse_gtpu does to session_map, over a run of packets.
use cu_ebpf.Base.{
  ℕ, ◌+◌, ◌%◌, ◌^◌, ◌<◌, ◌≡◌, ◌∙◌, ap, inl, inr, some, Bool, true, false, not, ◌⊎◌, ◌&&◌, ◌==◌,
  Bool-cases, List, [], ◌∷◌, if◌then◌else◌, arith,
}
use cu_ebpf.Packet.{Packet}
use cu_ebpf.Session.{SessionCtx, SessionMap, insert}
use cu_ebpf.Event.{GtpEvent}
use cu_ebpf.Xdp.{
  KernelState, Outcome, Helpers, Verdict, pass, drop, redirect, count_packet, counter_gtpu,
}
use cu_ebpf.Downlink.{dl_rewrite, bump_sn}
use cu_ebpf.Uplink.{ul_rewrite}
use cu_ebpf.Program.{parse_gtpu}
use cu_ebpf.Program.Safety.{pass-Untouched, count_packet-maps}
use cu_ebpf.Program.Redirect.{parsed, dl_event, ul_event, DownlinkRun, parse_gtpu-Runs}

abbrev pub is_redirect : Verdict → Bool
is_redirect pass = false
is_redirect drop = false
is_redirect (redirect i) = true

-- The packet is redirected by the downlink block under the TEID `k`.
abbrev pub offloads : Helpers → KernelState → ℕ → Packet → Bool
offloads h s k p =
    is_redirect (parse_gtpu h s p).verdict && not (parsed s p).0.is_f1u && (parsed s p).0.teid == k

dl_rewrite-map :
    (h : Helpers) (s : KernelState) (p : Packet) (e : GtpEvent) (c : ℕ) (sess : SessionCtx)
    → (dl_rewrite h s p e c sess).state.session_map ≡ (
        if is_redirect (dl_rewrite h s p e c sess).verdict
        then insert e.teid (bump_sn sess) s.session_map
        else s.session_map)
unfolding dl_rewrite
dl_rewrite-map h s p e c sess = ground arith

ul_rewrite-map :
    (h : Helpers) (s : KernelState) (p : Packet) (e : GtpEvent) (c : ℕ) (sess : SessionCtx)
    → (ul_rewrite h s p e c sess).state.session_map ≡ s.session_map
unfolding ul_rewrite
ul_rewrite-map h s p e c sess = ground arith

abbrev map_of : Outcome → SessionMap
map_of o = o.state.session_map

dl_rewrite-ul_map :
    (h : Helpers) (s : KernelState) (p : Packet) (e : GtpEvent) (c : ℕ) (sess : SessionCtx)
    → (dl_rewrite h s p e c sess).state.ul_session_map ≡ s.ul_session_map
unfolding dl_rewrite
dl_rewrite-ul_map h s p e c sess = ground arith

ul_rewrite-ul_map :
    (h : Helpers) (s : KernelState) (p : Packet) (e : GtpEvent) (c : ℕ) (sess : SessionCtx)
    → (ul_rewrite h s p e c sess).state.ul_session_map ≡ s.ul_session_map
unfolding ul_rewrite
ul_rewrite-ul_map h s p e c sess = ground arith

-- The program never writes ul_session_map.
pub parse_gtpu-ul_map :
    (h : Helpers) (s : KernelState) (p : Packet)
    → (parse_gtpu h s p).state.ul_session_map ≡ s.ul_session_map
parse_gtpu-ul_map h s p = elim (parse_gtpu-Runs h s p) [
  | inl passes ↦ (pass-Untouched h s p passes).2
  | inr (inl (sess, d)) ↦
      rw d.ran (dl_rewrite-ul_map h _ p _ _ sess ∙ (count_packet-maps counter_gtpu s).1)
  | inr (inr (sess, d)) ↦
      rw d.ran (ul_rewrite-ul_map h _ p _ _ sess ∙ (count_packet-maps counter_gtpu s).1)
]

-- It leaves session_map alone, or counts one entry on.
pub parse_gtpu-map_cases :
    (h : Helpers) (s : KernelState) (p : Packet)
    → ((parse_gtpu h s p).state.session_map ≡ s.session_map)
      ⊎ ((k : ℕ) × (sess : SessionCtx) × (s.session_map k ≡ some sess)
          × ((parse_gtpu h s p).state.session_map ≡ insert k (bump_sn sess) s.session_map))
parse_gtpu-map_cases h s p = elim (parse_gtpu-Runs h s p) [
  | inl passes ↦ inl (pass-Untouched h s p passes).1
  | inr (inr (sess, d)) ↦
      inl (ap map_of d.ran ∙ ul_rewrite-map h _ p _ _ sess ∙ (count_packet-maps counter_gtpu s).0)
  | inr (inl (sess, d)) ↦ rewrite_cases sess d (
      dl_rewrite-map h (count_packet counter_gtpu s) p (dl_event (parsed s p).0) (parsed s p).1
        sess)
]
  where
    went : SessionCtx → Outcome
    went sess =
        dl_rewrite h (count_packet counter_gtpu s) p (dl_event (parsed s p).0) (parsed s p).1 sess

    rewrite_cases :
        (sess : SessionCtx)
        → DownlinkRun h s p sess
        → (went sess).state.session_map ≡ (
            if is_redirect (went sess).verdict
            then insert (parsed s p).0.teid (bump_sn sess) (count_packet counter_gtpu s).session_map
            else (count_packet counter_gtpu s).session_map)
        → ((parse_gtpu h s p).state.session_map ≡ s.session_map)
          ⊎ ((k : ℕ) × (sess : SessionCtx) × (s.session_map k ≡ some sess)
              × ((parse_gtpu h s p).state.session_map ≡ insert k (bump_sn sess) s.session_map))
    rewrite_cases sess d e = elim (Bool-cases (is_redirect (went sess).verdict)) [
      | inl hit ↦ inr (
        (parsed s p).0.teid,
        sess,
        d.found,
        ap map_of d.ran ∙ e ∙ (rw (hit, (count_packet-maps counter_gtpu s).0)),
      )
      | inr miss ↦ inl (ap map_of d.ran ∙ e ∙ (rw miss (count_packet-maps counter_gtpu s).0))
    ]

-- One packet counts the entry of its own TEID on, if it is redirected; every other entry stays.
pub parse_gtpu-entry :
    (h : Helpers) (s : KernelState) (p : Packet) (k : ℕ) (entry : SessionCtx)
    → s.session_map k ≡ some entry
    → (parse_gtpu h s p).state.session_map k
      ≡ some (if offloads h s k p then bump_sn entry else entry)
parse_gtpu-entry h s p k entry found = elim (parse_gtpu-Runs h s p) [
  | inl passes ↦ ground (arith, passes, pass-Untouched h s p passes)
  | inr (inl (sess, d)) ↦ ground (
    arith,
    d,
    count_packet-maps counter_gtpu s,
    dl_rewrite-map h (count_packet counter_gtpu s) p (dl_event (parsed s p).0) (parsed s p).1 sess,
  )
  | inr (inr (sess, d)) ↦ ground (
    arith,
    d,
    count_packet-maps counter_gtpu s,
    ul_rewrite-map h (count_packet counter_gtpu s) p (ul_event (parsed s p).0 sess) (parsed s p).1
        sess,
  )
]

-- Packets in the order in which they are processed.
unfoldable pub run : Helpers → KernelState → List Packet → KernelState
run h s [] = s
run h s (p ∷ ps) = run h (parse_gtpu h s p).state ps

-- How many of them the downlink block redirects under the TEID `k`.
unfoldable pub count_offloads : Helpers → KernelState → ℕ → List Packet → ℕ
count_offloads h s k [] = 0
count_offloads h s k (p ∷ ps) =
    (if offloads h s k p then 1 else 0) + count_offloads h (parse_gtpu h s p).state k ps

-- Over any run of packets an entry of session_map changes in its PDCP counter only, which goes up by
-- one, modulo 2^32, with each packet that is redirected under its TEID.
pub run_counts :
    (h : Helpers) (s : KernelState) (ps : List Packet) (k : ℕ) (entry : SessionCtx)
    → s.session_map k ≡ some entry
    → entry.next_dl_pdcp_sn < 2 ^ 32
    → (run h s ps).session_map k
      ≡ some (record entry {
        next_dl_pdcp_sn = (entry.next_dl_pdcp_sn + count_offloads h s k ps) % 2 ^ 32;
      })
unfolding run count_offloads
run_counts h s [] k entry found word = ground (arith, found)
run_counts h s (p ∷ ps) k entry found word = elim (Bool-cases (offloads h s k p)) [
  | inl hit ↦ rw hit (
      run_counts h (parse_gtpu h s p).state ps k (bump_sn entry)
        (parse_gtpu-entry h s p k entry found ∙ (rw hit)) (omega arith)
      ∙ ap some (ap (λ (n : ℕ). record entry { next_dl_pdcp_sn = n }) (omega arith)))
  | inr miss ↦ rw miss (
      run_counts h (parse_gtpu h s p).state ps k entry
        (parse_gtpu-entry h s p k entry found ∙ (rw miss)) word
      ∙ ap some (ap (λ (n : ℕ). record entry { next_dl_pdcp_sn = n }) (omega arith)))
]
