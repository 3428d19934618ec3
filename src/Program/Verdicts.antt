-- ===== src/Program/Verdicts.antt =====
-- Which packets parse_gtpu redirects, and whereto: the verdict as a function of the parse and of the
-- two session maps.
use cu_ebpf.Base.{
  ℕ, ◌+◌, ◌≡◌, inl, inr, Bool, true, Bool-cases, Option-cases, not, ◌&&◌, Option, none, some, leb,
  ◌==◌, if◌then◌else◌, arith,
}
use cu_ebpf.Packet.{Packet}
use cu_ebpf.Session.{SessionCtx}
use cu_ebpf.Event.{GtpEvent}
use cu_ebpf.Parse.{is_ipv4_udp, is_g_pdu, outer_ihl}
use cu_ebpf.Xdp.{
  KernelState, Helpers, IsAdjustTail, CanResize, Verdict, pass, redirect, count_packet,
  counter_gtpu,
}
use cu_ebpf.Downlink.{headers_fit, dl_skips, dl_rewrite, downlink}
use cu_ebpf.Downlink.Offload.{dl_rewrite-redirects}
use cu_ebpf.Uplink.{ul_skips, ul_rewrite, uplink}
use cu_ebpf.Uplink.Offload.{ul_rewrite-redirects}
use cu_ebpf.Program.{parse_gtpu, submit_gtpu}
use cu_ebpf.Program.Safety.{count_packet-maps}
use cu_ebpf.Program.Redirect.{parsed, dl_event, ul_event}
use cu_ebpf.Program.Offload.{dl_rewrite-pass, ul_rewrite-pass}

-- No IP options, at most 64 bytes between the GTP-U header and the inner packet but no less than
-- four, and an inner packet of at most 512 bytes.
abbrev pub dl_fits : Packet → ℕ → Bool
dl_fits p c =
    leb 50 p.len && outer_ihl p == 20 && leb 54 c && leb c 114 && leb c p.len && leb p.len (c + 512)

-- No IP options, exactly four bytes between the GTP-U header and the inner packet, and an inner
-- packet of at most 512 bytes.
abbrev pub ul_fits : Packet → ℕ → Bool
ul_fits p c = leb 54 p.len && outer_ihl p == 20 && c == 54 && leb p.len 566

-- The verdict for a packet of a session, if there is one.
abbrev pub session_verdict : Option SessionCtx → (SessionCtx → Bool) → Verdict
session_verdict none serves = pass
session_verdict (some sess) serves = if serves sess then redirect sess.egress_ifindex else pass

-- The verdict for what the parser leaves of a G-PDU.
abbrev pub g_pdu_verdict : KernelState → Packet → GtpEvent → ℕ → Verdict
g_pdu_verdict s p e c =
    if e.is_f1u
    then session_verdict (s.ul_session_map e.teid) (λ sess. sess.ready && ul_fits p c)
    else session_verdict (s.session_map e.teid) (λ sess. dl_fits p c)

dl_skips-fits : (p : Packet) (c : ℕ) → (headers_fit p && not (dl_skips p c)) ≡ dl_fits p c
unfolding dl_skips
dl_skips-fits p c = ground arith

ul_skips-fits : (p : Packet) (c : ℕ) → (headers_fit p && not (ul_skips p c)) ≡ ul_fits p c
unfolding ul_skips
ul_skips-fits p c = ground arith

module _ (h : Helpers) (ok : IsAdjustTail h.adjust_tail) (room : CanResize h.adjust_tail 4) where
  dl_rewrite-verdict :
      (s : KernelState) (p : Packet) (e : GtpEvent) (c : ℕ) (sess : SessionCtx)
      → headers_fit p ≡ true
      → (dl_rewrite h s p e c sess).verdict
        ≡ (if dl_skips p c then pass else redirect sess.egress_ifindex)
  dl_rewrite-verdict s p e c sess fit = elim (Bool-cases (dl_skips p c)) [
    | inl y ↦ rw y (dl_rewrite-pass h s p e c sess y)
    | inr n ↦ rw n (dl_rewrite-redirects h ok room s p e c sess fit n)
  ]

  ul_rewrite-verdict :
      (s : KernelState) (p : Packet) (e : GtpEvent) (c : ℕ) (sess : SessionCtx)
      → headers_fit p ≡ true
      → (ul_rewrite h s p e c sess).verdict
        ≡ (if ul_skips p c then pass else redirect sess.egress_ifindex)
  ul_rewrite-verdict s p e c sess fit = elim (Bool-cases (ul_skips p c)) [
    | inl y ↦ rw y (ul_rewrite-pass h s p e c sess y)
    | inr n ↦ rw n (ul_rewrite-redirects h ok room s p e c sess fit n)
  ]

  downlink-verdict :
      (s : KernelState) (p : Packet) (e : GtpEvent) (c : ℕ)
      → (downlink h s p e c).verdict ≡ session_verdict (s.session_map e.teid) (λ sess. dl_fits p c)
  unfolding downlink
  downlink-verdict s p e c = elim (Option-cases (s.session_map e.teid)) [
    | inl n ↦ rw (n, downlink)
    | inr (sess, f) ↦
        ground (arith, f, dl_rewrite-verdict s p (dl_event e) c sess, dl_skips-fits p c)
  ]

  uplink-verdict :
      (s : KernelState) (p : Packet) (e : GtpEvent) (c : ℕ)
      → (uplink h s p e c).verdict
        ≡ session_verdict (s.ul_session_map e.teid) (λ sess. sess.ready && ul_fits p c)
  unfolding uplink
  uplink-verdict s p e c = elim (Option-cases (s.ul_session_map e.teid)) [
    | inl n ↦ rw (n, uplink)
    | inr (sess, f) ↦
        ground (arith, f, ul_rewrite-verdict s p (ul_event e sess) c sess, ul_skips-fits p c)
  ]

  submit_gtpu-verdict :
      (s : KernelState) (p : Packet) (e : GtpEvent) (c : ℕ)
      → (submit_gtpu h s p e c).verdict ≡ g_pdu_verdict s p e c
  unfolding submit_gtpu
  submit_gtpu-verdict s p e c = ground (arith, downlink-verdict s p e c, uplink-verdict s p e c)

  -- Where bpf_xdp_adjust_tail keeps its word and four spare bytes are there, the verdict on every
  -- packet is what the maps say of its TEID: a G-PDU for which the ring buffer has room, whose
  -- direction's map has an entry, a ready one for the uplink, and whose sizes fit, is redirected to
  -- the entry's interface, and every other packet passes.
  pub parse_gtpu-verdict :
      (s : KernelState) (p : Packet)
      → (parse_gtpu h s p).verdict ≡ (
          if is_ipv4_udp p && (h.reserve s.events && is_g_pdu p)
          then g_pdu_verdict s p (parsed s p).0 (parsed s p).1
          else pass)
  unfolding parse_gtpu
  parse_gtpu-verdict s p = ground (
    arith,
    count_packet-maps counter_gtpu s,
    submit_gtpu-verdict (count_packet counter_gtpu s) p (parsed s p).0 (parsed s p).1,
  )
