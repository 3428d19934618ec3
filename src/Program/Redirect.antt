-- ===== src/Program/Redirect.antt =====
-- Which packets parse_gtpu redirects, and which it drops.
use cu_ebpf.Base.{
  ℕ, ◌≡◌, ◌∙◌, ap, ◌⊎◌, inl, inr, true, false, Bool-cases, Option-cases, none, some, ◌&&◌, arith,
}
use cu_ebpf.Packet.{Packet}
use cu_ebpf.Session.{SessionCtx, SessionMap}
use cu_ebpf.Event.{GtpEvent}
use cu_ebpf.Parse.{is_ipv4_udp, is_g_pdu, parse_g_pdu}
use cu_ebpf.Xdp.{KernelState, Outcome, Helpers, pass, count_packet, counted, counter_gtpu}
use cu_ebpf.Downlink.{downlink, dl_rewrite, headers_fit}
use cu_ebpf.Uplink.{uplink, ul_rewrite}
use cu_ebpf.Program.{parse_gtpu, submit_gtpu}
use cu_ebpf.Program.Safety.{count_packet-maps}

-- What the parser leaves for a G-PDU: the event and the cursor.
abbrev pub parsed : KernelState → Packet → GtpEvent × ℕ
parsed s p = parse_g_pdu (counted counter_gtpu s) p

abbrev pub dl_event : GtpEvent → GtpEvent
dl_event e = record e { offload_attempted = true }

abbrev pub ul_event : GtpEvent → SessionCtx → GtpEvent
ul_event e sess = record e {
  ul_map_lookup_attempted = true;
  offload_attempted = true;
  ul_map_lookup_hit = true;
  ul_map_ready = sess.ready;
}

-- The program has come to the downlink rewrite: a G-PDU without F1-U framing, whose TEID has an
-- entry in session_map.
pub record DownlinkRun (h : Helpers) (s : KernelState) (p : Packet) (sess : SessionCtx)
    : Type 0 where
  pub udp : is_ipv4_udp p ≡ true
  pub g_pdu : is_g_pdu p ≡ true
  pub n3 : (parsed s p).0.is_f1u ≡ false
  pub found : s.session_map (parsed s p).0.teid ≡ some sess
  pub fit : headers_fit p ≡ true
  pub ran :
      parse_gtpu h s p
      ≡ dl_rewrite h (count_packet counter_gtpu s) p (dl_event (parsed s p).0) (parsed s p).1 sess

-- The program has come to the uplink rewrite: a G-PDU with F1-U framing, whose TEID has a ready
-- entry in ul_session_map.
pub record UplinkRun (h : Helpers) (s : KernelState) (p : Packet) (sess : SessionCtx) : Type 0 where
  pub udp : is_ipv4_udp p ≡ true
  pub g_pdu : is_g_pdu p ≡ true
  pub f1u : (parsed s p).0.is_f1u ≡ true
  pub found : s.ul_session_map (parsed s p).0.teid ≡ some sess
  pub ready : sess.ready ≡ true
  pub fit : headers_fit p ≡ true
  pub ran :
      parse_gtpu h s p
      ≡ ul_rewrite h
          (count_packet counter_gtpu s)
          p
          (ul_event (parsed s p).0 sess)
          (parsed s p).1
          sess

-- Whatever does not come to a rewrite passes.
abbrev pub Runs : Helpers → KernelState → Packet → Type 0
Runs h s p =
    ((parse_gtpu h s p).verdict ≡ pass)
    ⊎ (((sess : SessionCtx) × DownlinkRun h s p sess)
        ⊎ ((sess : SessionCtx) × UplinkRun h s p sess))

downlink-miss :
    (h : Helpers) (s : KernelState) (p : Packet) (e : GtpEvent) (c : ℕ)
    → s.session_map e.teid ≡ none
    → (downlink h s p e c).verdict ≡ pass
unfolding downlink
downlink-miss h s p e c n = rw (n, downlink)

pub downlink-hit :
    (h : Helpers) (s : KernelState) (p : Packet) (e : GtpEvent) (c : ℕ) (sess : SessionCtx)
    → s.session_map e.teid ≡ some sess
    → headers_fit p ≡ true
    → downlink h s p e c ≡ dl_rewrite h s p (dl_event e) c sess
unfolding downlink
downlink-hit h s p e c sess f fit = rw (f, fit, downlink)

downlink-misfit :
    (h : Helpers) (s : KernelState) (p : Packet) (e : GtpEvent) (c : ℕ) (sess : SessionCtx)
    → s.session_map e.teid ≡ some sess
    → headers_fit p ≡ false
    → (downlink h s p e c).verdict ≡ pass
unfolding downlink
downlink-misfit h s p e c sess f fit = rw (f, fit, downlink)

uplink-miss :
    (h : Helpers) (s : KernelState) (p : Packet) (e : GtpEvent) (c : ℕ)
    → s.ul_session_map e.teid ≡ none
    → (uplink h s p e c).verdict ≡ pass
unfolding uplink
uplink-miss h s p e c n = rw (n, uplink)

uplink-hit :
    (h : Helpers) (s : KernelState) (p : Packet) (e : GtpEvent) (c : ℕ) (sess : SessionCtx)
    → s.ul_session_map e.teid ≡ some sess
    → (sess.ready && headers_fit p) ≡ true
    → uplink h s p e c ≡ ul_rewrite h s p (ul_event e sess) c sess
unfolding uplink
uplink-hit h s p e c sess f fit = rw (f, fit, uplink)

uplink-refused :
    (h : Helpers) (s : KernelState) (p : Packet) (e : GtpEvent) (c : ℕ) (sess : SessionCtx)
    → s.ul_session_map e.teid ≡ some sess
    → (sess.ready && headers_fit p) ≡ false
    → (uplink h s p e c).verdict ≡ pass
unfolding uplink
uplink-refused h s p e c sess f fit = rw (f, fit, uplink)

-- What is known of a run that comes to one of the blocks.
module _ (h : Helpers) (s : KernelState) (p : Packet) (udp : is_ipv4_udp p ≡ true)
    (room : h.reserve s.events ≡ true) (g : is_g_pdu p ≡ true) where
  to_block :
      parse_gtpu h s p ≡ submit_gtpu h (count_packet counter_gtpu s) p (parsed s p).0 (parsed s p).1
  unfolding parse_gtpu
  to_block = rw (udp, room, g)

  pub to_downlink :
      (parsed s p).0.is_f1u ≡ false
      → parse_gtpu h s p ≡ downlink h (count_packet counter_gtpu s) p (parsed s p).0 (parsed s p).1
  unfolding submit_gtpu
  to_downlink n3 = to_block ∙ (rw n3)

  to_uplink :
      (parsed s p).0.is_f1u ≡ true
      → parse_gtpu h s p ≡ uplink h (count_packet counter_gtpu s) p (parsed s p).0 (parsed s p).1
  unfolding submit_gtpu
  to_uplink f1u = to_block ∙ (rw f1u)

  n3-Runs : (parsed s p).0.is_f1u ≡ false → Runs h s p
  n3-Runs n3 = elim (Option-cases (s.session_map (parsed s p).0.teid)) [
    | inl n ↦ inl (on (downlink-miss h _ p _ _ (same ∙ n)))
    | inr (sess, f) ↦ elim (Bool-cases (headers_fit p)) [
      | inr no_fit ↦ inl (on (downlink-misfit h _ p _ _ sess (same ∙ f) no_fit))
      | inl fit ↦ inr (
          inl (
            sess,
            record {
              udp = udp;
              g_pdu = g;
              n3 = n3;
              found = f;
              fit = fit;
              ran = to_downlink n3 ∙ downlink-hit h _ p _ _ sess (same ∙ f) fit;
            },
          ))
    ]
  ]
    where
      same :
          (count_packet counter_gtpu s).session_map (parsed s p).0.teid
          ≡ s.session_map (parsed s p).0.teid
      same = ap (λ (m : SessionMap). m (parsed s p).0.teid) (count_packet-maps counter_gtpu s).0

      on :
          (downlink h (count_packet counter_gtpu s) p (parsed s p).0 (parsed s p).1).verdict ≡ pass
          → (parse_gtpu h s p).verdict ≡ pass
      on e = ap (λ (o : Outcome). o.verdict) (to_downlink n3) ∙ e

  f1u-Runs : (parsed s p).0.is_f1u ≡ true → Runs h s p
  f1u-Runs f1u = elim (Option-cases (s.ul_session_map (parsed s p).0.teid)) [
    | inl n ↦ inl (on (uplink-miss h _ p _ _ (same ∙ n)))
    | inr (sess, f) ↦ elim (Bool-cases (sess.ready && headers_fit p)) [
      | inr no_fit ↦ inl (on (uplink-refused h _ p _ _ sess (same ∙ f) no_fit))
      | inl fit ↦ inr (
          inr (
            sess,
            record {
              udp = udp;
              g_pdu = g;
              f1u = f1u;
              found = f;
              ready = ground (arith, fit);
              fit = ground (arith, fit);
              ran = to_uplink f1u ∙ uplink-hit h _ p _ _ sess (same ∙ f) fit;
            },
          ))
    ]
  ]
    where
      same :
          (count_packet counter_gtpu s).ul_session_map (parsed s p).0.teid
          ≡ s.ul_session_map (parsed s p).0.teid
      same = ap (λ (m : SessionMap). m (parsed s p).0.teid) (count_packet-maps counter_gtpu s).1

      on :
          (uplink h (count_packet counter_gtpu s) p (parsed s p).0 (parsed s p).1).verdict ≡ pass
          → (parse_gtpu h s p).verdict ≡ pass
      on e = ap (λ (o : Outcome). o.verdict) (to_uplink f1u) ∙ e

parse_gtpu-early :
    (h : Helpers) (s : KernelState) (p : Packet)
    → (is_ipv4_udp p && (h.reserve s.events && is_g_pdu p)) ≡ false
    → (parse_gtpu h s p).verdict ≡ pass
unfolding parse_gtpu
parse_gtpu-early h s p e = ground arith

-- Every packet passes, or comes to the downlink rewrite of its session, or to the uplink rewrite of
-- its ready session.
pub parse_gtpu-Runs : (h : Helpers) (s : KernelState) (p : Packet) → Runs h s p
parse_gtpu-Runs h s p = elim (Bool-cases (is_ipv4_udp p && (h.reserve s.events && is_g_pdu p))) [
  | inr e ↦ inl (parse_gtpu-early h s p e)
  | inl e ↦ elim (Bool-cases (parsed s p).0.is_f1u) [
    | inl f1u ↦ f1u-Runs h s p (ground arith) (ground arith) (ground arith) f1u
    | inr n3 ↦ n3-Runs h s p (ground arith) (ground arith) (ground arith) n3
  ]
]
