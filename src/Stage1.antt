-- ===== src/Stage1.antt =====
-- artifact/stage_1/xdp_gtp_inner_parser.bpf.c: the downlink relay, which rewrites addresses, port and
-- TEID in place and leaves the framing as it is. The parser is the PDU extender's, line by line. The
-- program only reads session_map, so the map is an argument; of KernelState it has the events and
-- the counters, and the two maps in there, which are stage 4's, stay as they are. The fields of
-- GtpEvent that its struct gtp_event lacks stay 0.
pub mod Relayed
pub mod Reads
pub mod Relays
pub mod Learning
pub mod Startup
use cu_ebpf.Base.{ℕ, ◌+◌, Bool, true, not, Option, none, some, List, if◌then◌else◌}
use cu_ebpf.Packet.{Mem, Packet, write16, write32}
use cu_ebpf.Session.{Mac}
use cu_ebpf.Event.{GtpEvent}
use cu_ebpf.Parse.{outer_ihl, is_ipv4_udp, is_g_pdu}
use cu_ebpf.Xdp.{KernelState, Outcome, pass, redirect, finish, count_packet, counted, counter_gtpu}
use cu_ebpf.Rewrite.{write_mac, write_checks}
use cu_ebpf.Downlink.{headers_fit}
use cu_ebpf.PduExtender.{parse_headers, report_non_gtpu}

-- struct session_ctx; the TEID, the address and the port are the numbers that their bytes spell in
-- network order.
pub record SessionCtx : Type 0 where
  pub peer_teid : ℕ
  pub dst_ip : ℕ
  pub dst_port : ℕ
  pub egress_ifindex : ℕ
  pub dst_mac : Mac
  pub src_mac : Mac
  pub qfi : ℕ

abbrev pub SessionMap : Type 0
SessionMap = ℕ → Option SessionCtx

-- The addresses, the port and the TEID.
unfoldable pub relay_route : ℕ → SessionCtx → Mem → Mem
relay_route ihl sess m = write32 (14 + ihl + 8 + 4) sess.peer_teid (
    write16 (14 + ihl + 2) sess.dst_port
      (write32 30 sess.dst_ip (write_mac 6 sess.src_mac (write_mac 0 sess.dst_mac m))))

-- And the IP checksum over them, with the UDP checksum set to 0.
unfoldable pub relay_bytes : ℕ → SessionCtx → Mem → Mem
unfolding relay_route write_checks
relay_bytes ihl sess m = write_checks ihl (relay_route ihl sess m)

abbrev pub relayed_event : GtpEvent → SessionCtx → GtpEvent
relayed_event e sess = record e {
  offload_applied = true;
  offload_new_teid = sess.peer_teid;
  offload_new_dst_ip = sess.dst_ip;
  offload_new_dst_port = sess.dst_port;
}

-- From `submit` on.
unfoldable pub relay : SessionMap → KernelState → Packet → GtpEvent → Outcome
unfolding relay_bytes
relay sessions s p e =
    let e' = record e { offload_attempted = true } in
    elim (sessions e.teid) [
      | none ↦ finish pass p e' s
      | some sess ↦
          if headers_fit p
          then finish (redirect sess.egress_ifindex)
              (record p { at = relay_bytes (outer_ihl p) sess p.at }) (relayed_event e' sess) s
          else finish pass p e' s
    ]

-- `reserve` is bpf_ringbuf_reserve.
unfoldable pub parse_gtpu : (List GtpEvent → Bool) → SessionMap → KernelState → Packet → Outcome
unfolding relay
parse_gtpu reserve sessions s p =
    if not (is_ipv4_udp p)
    then record { verdict = pass; packet = p; state = s }
    else if not (reserve s.events)
    then record { verdict = pass; packet = p; state = s }
    else if not (is_g_pdu p)
    then report_non_gtpu s p
    else relay sessions (count_packet counter_gtpu s) p (parse_headers (counted counter_gtpu s) p).0
