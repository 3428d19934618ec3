-- ===== src/Switch/Steps.antt =====
-- One packet through parse_gtpu (artifact/stage_4/xdp_gtp_inner_parser.bpf.c), seen as a datagram
-- through the switch.
use cu_ebpf.Base.{ℕ, ◌-◌, ◌%◌, ◌≡◌, ◌∙◌, refl, ap, none, some, true, false, ◌&&◌, arith}
use cu_ebpf.Packet.{Packet}
use cu_ebpf.Session.{SessionCtx}
use cu_ebpf.Parse.{is_ipv4_udp, is_g_pdu, parse_g_pdu}
use cu_ebpf.Parse.Count.{parse_g_pdu-count}
use cu_ebpf.Parse.Qfi.{parse_g_pdu-SmallQfi}
use cu_ebpf.Parse.Shapes.{F1uParsed, N3Parsed}
use cu_ebpf.Xdp.{
  KernelState, Outcome, Helpers, IsAdjustTail, CanResize, pass, redirect, counted, counter_gtpu,
}
use cu_ebpf.Downlink.{qfi_to_write}
use cu_ebpf.Downlink.Payload.{CarriesInner}
use cu_ebpf.Program.{parse_gtpu}
use cu_ebpf.Program.Redirect.{parsed}
use cu_ebpf.Program.Delivery.{DeliversF1u, DeliversN3}
use cu_ebpf.Program.Verdicts.{parse_gtpu-verdict}
use cu_ebpf.Switch.{upf_side, du_side}
use cu_ebpf.Switch.Views.{
  bytes, bytes-same, side_of, datagram_of, fits, offered, switch_of, left_by,
}

-- The sizes and the datagram do not depend on the counter.
datagram_of-parsed :
    (s : KernelState) (p : Packet) → datagram_of p (parsed s p) ≡ datagram_of p (parse_g_pdu 0 p)
datagram_of-parsed s p = ap (datagram_of p) (parse_g_pdu-count (counted counter_gtpu s) 0 p)

fits-parsed : (s : KernelState) (p : Packet) → fits p (parsed s p) ≡ fits p (parse_g_pdu 0 p)
fits-parsed s p = ap (fits p) (parse_g_pdu-count (counted counter_gtpu s) 0 p)

payload-same :
    (p q : Packet) (c c' : ℕ)
    → CarriesInner p c q c'
    → bytes q.at c' (q.len - c') ≡ bytes p.at c (p.len - c)
payload-same p q c c' carries =
    let e : q.len - c' ≡ p.len - c = omega (arith, carries.ends) in
    rw e (bytes-same p.at q.at c c' (p.len - c) carries.same)

qfi_to_write-small :
    (count : ℕ) (p : Packet)
    → qfi_to_write (parse_g_pdu count p).0 % 64 ≡ qfi_to_write (parse_g_pdu count p).0
qfi_to_write-small count p = ground (arith, parse_g_pdu-SmallQfi count p)

-- What is delivered carries the datagram that came in.
pub DeliversF1u-datagram_of :
    (sess : SessionCtx) (s : KernelState) (p q : Packet)
    → (parsed s p).0.is_f1u ≡ false
    → DeliversF1u sess p (parsed s p) q
    → F1uParsed q (parse_g_pdu 0 q)
    → datagram_of q (parse_g_pdu 0 q)
      ≡ record (datagram_of p (parsed s p)) { side = du_side; teid = sess.peer_teid }
DeliversF1u-datagram_of sess s p q from_upf d read =
    let payload = payload-same p q (parsed s p).1 54 d.inner in
    ground (
      arith,
      payload,
      read,
      d.packet.teid,
      d.packet.sdap,
      qfi_to_write-small (counted counter_gtpu s) p,
    )

pub DeliversN3-datagram_of :
    (sess : SessionCtx) (s : KernelState) (p q : Packet)
    → (parsed s p).0.is_f1u ≡ true
    → DeliversN3 sess p (parsed s p) q
    → N3Parsed q (parse_g_pdu 0 q)
    → datagram_of q (parse_g_pdu 0 q)
      ≡ record (datagram_of p (parsed s p)) { side = upf_side; teid = sess.peer_teid }
DeliversN3-datagram_of sess s p q is_f1u d read =
    let payload = payload-same p q (parsed s p).1 58 d.inner in
    ground (
      arith,
      payload,
      read,
      d.packet.teid,
      d.packet.container_qfi,
      qfi_to_write-small (counted counter_gtpu s) p,
    )

pub left_by-pass : (o : Outcome) → o.verdict ≡ pass → left_by o ≡ none
left_by-pass o v = rw v refl

pub left_by-redirect :
    (o : Outcome) (i : ℕ)
    → o.verdict ≡ redirect i
    → left_by o ≡ some (i, datagram_of o.packet (parse_g_pdu 0 o.packet))
left_by-redirect o i v = rw v refl

pub offered-none :
    (s : KernelState) (p : Packet)
    → (is_ipv4_udp p && is_g_pdu p && fits p (parsed s p)) ≡ false
    → offered p ≡ none
offered-none s p refused = let same = fits-parsed s p in ground (arith, same, refused)

pub offered-some :
    (s : KernelState) (p : Packet)
    → (is_ipv4_udp p && is_g_pdu p && fits p (parsed s p)) ≡ true
    → offered p ≡ some (datagram_of p (parsed s p))
offered-some s p taken =
    rw (datagram_of-parsed s p) (let same = fits-parsed s p in ground (arith, same, taken))

module _ (h : Helpers) (ok : IsAdjustTail h.adjust_tail) (room : CanResize h.adjust_tail 4)
    (s : KernelState) (p : Packet) (free : h.reserve s.events ≡ true) where
  pub refused_lem :
      (is_ipv4_udp p && is_g_pdu p && fits p (parsed s p)) ≡ false
      → (parse_gtpu h s p).verdict ≡ pass
  refused_lem refused = parse_gtpu-verdict h ok room s p ∙ ground (arith, free, refused)

  pub routed_lem :
      (is_ipv4_udp p && is_g_pdu p && fits p (parsed s p)) ≡ true
      → (parse_gtpu h s p).verdict
        ≡ elim (switch_of s (side_of (parsed s p).0.is_f1u) (parsed s p).0.teid) [
          | none ↦ pass
          | some r ↦ redirect r.egress
        ]
  routed_lem taken = parse_gtpu-verdict h ok room s p ∙ ground (arith, free, taken)
