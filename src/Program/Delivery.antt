-- ===== src/Program/Delivery.antt =====
-- What parse_gtpu hands on when it redirects: a packet of the other framing around the same inner
-- packet, which the program's own parser reads back.
use cu_ebpf.Base.{ℕ, inl, inr, some, ◌≡◌, ◌≢◌, ◌∙◌, ap, sym, true, false, arith}
use cu_ebpf.Packet.{Packet, IsBytes, be16}
use cu_ebpf.Session.{SessionCtx, SessionFits, ServesF1u, ServesN3}
use cu_ebpf.Event.{GtpEvent}
use cu_ebpf.Parse.{is_ipv4_udp, is_g_pdu, parse_g_pdu}
use cu_ebpf.Parse.Shapes.{
  PlainUdp, F1uParsed, F1uShape-F1uParsed, F1uShape-is_ipv4_udp, F1uShape-is_g_pdu, N3Parsed,
  N3Shape-is_g_pdu, N3Shape-N3Parsed,
}
use cu_ebpf.Xdp.{
  KernelState, Outcome, Helpers, IsAdjustTail, Verdict, redirect, count_packet, counter_gtpu,
}
use cu_ebpf.Downlink.{headers_fit, qfi_to_write, dl_rewrite}
use cu_ebpf.Uplink.{ul_rewrite}
use cu_ebpf.Downlink.Payload.{
  CarriesInner, DlRedirect, dl_rewrite-DlRedirect, dl_rewrite-CarriesInner,
}
use cu_ebpf.Downlink.Framing.{F1uPacket, dl_rewrite-F1uPacket}
use cu_ebpf.Uplink.Offload.{UlRedirect, ul_rewrite-UlRedirect}
use cu_ebpf.Uplink.Payload.{ul_rewrite-CarriesInner}
use cu_ebpf.Uplink.Framing.{N3Packet, ul_rewrite-N3Packet}
use cu_ebpf.Program.{parse_gtpu}
use cu_ebpf.Program.Redirect.{parsed, dl_event, ul_event, DownlinkRun, UplinkRun, parse_gtpu-Runs}

abbrev verdict_of : Outcome → Verdict
verdict_of o = o.verdict

pub plain_udp : (p : Packet) → is_ipv4_udp p ≡ true → headers_fit p ≡ true → PlainUdp p
unfolding is_ipv4_udp
plain_udp p udp fit = ground arith

-- What a receiver of downlink packets relies on.
pub record DeliversF1u (sess : SessionCtx) (p : Packet) (r : GtpEvent × ℕ) (q : Packet)
    : Type 0 where
  pub packet : F1uPacket sess (qfi_to_write r.0) q
  pub inner : CarriesInner p r.1 q 54
  pub udp : is_ipv4_udp q ≡ true
  pub g_pdu : is_g_pdu q ≡ true

-- What a receiver of uplink packets relies on.
pub record DeliversN3 (sess : SessionCtx) (p : Packet) (r : GtpEvent × ℕ) (q : Packet)
    : Type 0 where
  pub packet : N3Packet sess (qfi_to_write r.0) q
  pub inner : CarriesInner p r.1 q 58
  pub udp : is_ipv4_udp q ≡ true
  pub g_pdu : is_g_pdu q ≡ true

module _ (h : Helpers) (s : KernelState) (p : Packet) (sess : SessionCtx) (i : ℕ)
    (ok : IsAdjustTail h.adjust_tail) (bytes : IsBytes p.at) (fits : SessionFits sess) where
  downlink_delivers :
      sess.dst_port ≡ 2153
      → DownlinkRun h s p sess
      → (parse_gtpu h s p).verdict ≡ redirect i
      → (count : ℕ)
      → let q = (parse_gtpu h s p).packet in
        DeliversF1u sess p (parsed s p) q × F1uParsed q (parse_g_pdu count q)
  downlink_delivers port d v count = rw d.ran (
    record {
      packet = packet;
      inner = inner;
      udp = F1uShape-is_ipv4_udp packet.shape;
      g_pdu = F1uShape-is_g_pdu packet.shape;
    },
    F1uShape-F1uParsed count packet.shape,
  )
    where
      went :
          DlRedirect h (count_packet counter_gtpu s) p (dl_event (parsed s p).0) (parsed s p).1 sess
      went = dl_rewrite-DlRedirect h _ p _ _ sess i d.fit (ap verdict_of (sym d.ran) ∙ v)

      packet :
          F1uPacket sess
            (qfi_to_write (parsed s p).0)
            (dl_rewrite h
              (count_packet counter_gtpu s)
              p
              (dl_event (parsed s p).0)
              (parsed s p).1
              sess).packet
      packet = dl_rewrite-F1uPacket h _ p _ _ sess ok bytes (plain_udp p d.udp d.fit) fits port went

      inner :
          CarriesInner p
            (parsed s p).1
            (dl_rewrite h
              (count_packet counter_gtpu s)
              p
              (dl_event (parsed s p).0)
              (parsed s p).1
              sess).packet
            54
      inner = dl_rewrite-CarriesInner h _ p _ _ sess ok went

  uplink_delivers :
      be16 p.at 34 ≢ 2153
      → sess.dst_port ≡ 2152
      → UplinkRun h s p sess
      → (parse_gtpu h s p).verdict ≡ redirect i
      → (count : ℕ)
      → let q = (parse_gtpu h s p).packet in
        DeliversN3 sess p (parsed s p) q × N3Parsed q (parse_g_pdu count q)
  uplink_delivers source port d v count = rw d.ran (
    record {
      packet = packet;
      inner = inner;
      udp = (N3Shape-is_g_pdu packet.shape).0;
      g_pdu = (N3Shape-is_g_pdu packet.shape).1;
    },
    N3Shape-N3Parsed count packet.shape,
  )
    where
      went :
          UlRedirect h
            (count_packet counter_gtpu s)
            p
            (ul_event (parsed s p).0 sess)
            (parsed s p).1
            sess
      went = ul_rewrite-UlRedirect h _ p _ _ sess i d.fit (ap verdict_of (sym d.ran) ∙ v)

      packet :
          N3Packet sess
            (qfi_to_write (parsed s p).0)
            (ul_rewrite h
              (count_packet counter_gtpu s)
              p
              (ul_event (parsed s p).0 sess)
              (parsed s p).1
              sess).packet
      packet =
          ul_rewrite-N3Packet h _ p _ _ sess ok bytes (plain_udp p d.udp d.fit) source fits port
            went

      inner :
          CarriesInner p
            (parsed s p).1
            (ul_rewrite h
              (count_packet counter_gtpu s)
              p
              (ul_event (parsed s p).0 sess)
              (parsed s p).1
              sess).packet
            58
      inner = ul_rewrite-CarriesInner h _ p _ _ sess ok went

module _ (h : Helpers) (s : KernelState) (p : Packet) (i : ℕ) (ok : IsAdjustTail h.adjust_tail)
    (bytes : IsBytes p.at) where
  -- A packet without F1-U framing that is redirected has a session in session_map under its TEID.
  -- What is handed on is a correct F1-U packet for that session, with the bytes from the parser's
  -- cursor on unchanged behind the PDCP and SDAP bytes and nothing behind them. The program's own
  -- parser reads it as an F1-U G-PDU with the session's TEID, the next PDCP sequence number and
  -- the QFI of the packet that came in, and leaves its cursor in front of those bytes. Assumed:
  -- the packet's cells are bytes, bpf_xdp_adjust_tail keeps its word, and the entries of
  -- session_map are machine words for port 2153.
  pub redirect-DeliversF1u :
      ServesF1u s.session_map
      → (parse_gtpu h s p).verdict ≡ redirect i
      → (parsed s p).0.is_f1u ≡ false
      → (count : ℕ)
      → (sess : SessionCtx) × (s.session_map (parsed s p).0.teid ≡ some sess)
        × DeliversF1u sess p (parsed s p) (parse_gtpu h s p).packet
        × F1uParsed (parse_gtpu h s p).packet (parse_g_pdu count (parse_gtpu h s p).packet)
  redirect-DeliversF1u serves v n3 count = elim (parse_gtpu-Runs h s p) [
    | inl passes ↦ absurd (cc (passes, v))
    | inr (inl (sess, d)) ↦
        let fits = serves (parsed s p).0.teid sess d.found in
        let r = downlink_delivers h s p sess i ok bytes fits.0 fits.1 d v count in
        (sess, d.found, r.0, r.1)
    | inr (inr (sess, d)) ↦ absurd (cc (n3, d.f1u))
  ]

  -- A packet with F1-U framing that is redirected has a ready session in ul_session_map under its
  -- TEID. What is handed on is a correct N3 packet for that session, with the bytes from the
  -- parser's cursor on unchanged behind a PDU Session Container and nothing behind them. The
  -- program's own parser reads it as an N3 G-PDU with the session's TEID, PDU type UL, the QFI of
  -- the packet that came in and one extension header, and leaves its cursor in front of those
  -- bytes. Assumed: the packet's cells are bytes, bpf_xdp_adjust_tail keeps its word, the source
  -- port, which is not rewritten, is not 2153, and the ready entries of ul_session_map are machine
  -- words for port 2152.
  pub redirect-DeliversN3 :
      ServesN3 s.ul_session_map
      → be16 p.at 34 ≢ 2153
      → (parse_gtpu h s p).verdict ≡ redirect i
      → (parsed s p).0.is_f1u ≡ true
      → (count : ℕ)
      → (sess : SessionCtx) × (s.ul_session_map (parsed s p).0.teid ≡ some sess)
        × (sess.ready ≡ true)
        × DeliversN3 sess p (parsed s p) (parse_gtpu h s p).packet
        × N3Parsed (parse_gtpu h s p).packet (parse_g_pdu count (parse_gtpu h s p).packet)
  redirect-DeliversN3 serves source v f1u count = elim (parse_gtpu-Runs h s p) [
    | inl passes ↦ absurd (cc (passes, v))
    | inr (inl (sess, d)) ↦ absurd (cc (f1u, d.n3))
    | inr (inr (sess, d)) ↦
        let fits = serves (parsed s p).0.teid sess d.found d.ready in
        let r = uplink_delivers h s p sess i ok bytes fits.0 source fits.1 d v count in
        (sess, d.found, d.ready, r.0, r.1)
  ]
