-- ===== src/Stage2.antt =====
-- artifact/stage_2/construct_and_forward/xdp_gtp_inner_parser.bpf.c: the downlink reframing as it was
-- before the uplink was added. The parser is the PDU extender's, the header writes behind
-- bpf_xdp_adjust_tail are stage 4's, line by line; the offload block is entered by every G-PDU, F1-U
-- or not, and moves payloads of up to 1400 bytes. Its session_ctx has the fields of stage 4's but
-- ready, and there is no ul_session_map: the state's stays as it is.
pub mod Agrees
pub mod Delivery
pub mod Learning
pub mod Learned
pub mod Startup
use cu_ebpf.Base.{ℕ, ◌+◌, Bool, true, not, ◌||◌, none, some, if◌then◌else◌, pos, pos_part, ltb_ℤ}
use cu_ebpf.Packet.{Packet}
use cu_ebpf.Packet.Copy.{copy_forward}
use cu_ebpf.Session.{SessionCtx}
use cu_ebpf.Event.{GtpEvent}
use cu_ebpf.Parse.{outer_ihl, gtp_end, f1u_new_hdr_bytes, is_ipv4_udp, is_g_pdu}
use cu_ebpf.Xdp.{
  KernelState, Outcome, Helpers, pass, drop, finish, count_packet, counted, counter_gtpu,
}
use cu_ebpf.Downlink.{removed_bytes, move_len, dl_delta, headers_fit, debug_event, dl_write}
use cu_ebpf.PduExtender.{parse_headers, report_non_gtpu}

abbrev pub max_inner_move_bytes : ℕ
max_inner_move_bytes = 1400

-- The tests that lead to offload_skip.
unfoldable pub offload_skips : Packet → ℕ → Bool
offload_skips p cursor =
    ltb_ℤ (removed_bytes p cursor) (pos 0)
    || ltb_ℤ (pos 64) (removed_bytes p cursor)
    || ltb_ℤ (move_len p cursor) (pos 0)
    || ltb_ℤ (pos max_inner_move_bytes) (move_len p cursor)
    || ltb_ℤ (pos 0) (dl_delta p cursor)

-- The packet with its payload compacted, before its tail is cut.
unfoldable pub compact : Packet → ℕ → Packet
compact p cursor = record p {
  at =
      copy_forward max_inner_move_bytes 0 (pos_part (move_len p cursor)) cursor
        (gtp_end p + f1u_new_hdr_bytes) p.len p.at;
}

-- The block for a packet whose TEID has a session.
unfoldable pub offload_rewrite :
    Helpers → KernelState → Packet → GtpEvent → ℕ → SessionCtx → Outcome
unfolding dl_write offload_skips compact
offload_rewrite h s p e cursor sess =
    let e' = debug_event e (removed_bytes p cursor) (move_len p cursor) (dl_delta p cursor) in
    if offload_skips p cursor
    then finish pass p e' s
    else elim (h.adjust_tail (compact p cursor) (dl_delta p cursor)) [
      | none ↦ finish drop (compact p cursor) (record e' { debug_reached_rewrite = true }) s
      | some q ↦ dl_write s (outer_ihl p) e' e.teid (pos_part (move_len p cursor)) sess q
    ]

-- From `submit` on.
unfoldable pub offload : Helpers → KernelState → Packet → GtpEvent → ℕ → Outcome
unfolding offload_rewrite
offload h s p e cursor =
    let e' = record e { offload_attempted = true } in
    elim (s.session_map e.teid) [
      | none ↦ finish pass p e' s
      | some sess ↦
          if headers_fit p then offload_rewrite h s p e' cursor sess else finish pass p e' s
    ]

unfoldable pub parse_gtpu : Helpers → KernelState → Packet → Outcome
unfolding offload
parse_gtpu h s p =
    if not (is_ipv4_udp p)
    then record { verdict = pass; packet = p; state = s }
    else if not (h.reserve s.events)
    then record { verdict = pass; packet = p; state = s }
    else if not (is_g_pdu p)
    then report_non_gtpu s p
    else let (e, cursor) = parse_headers (counted counter_gtpu s) p in
      offload h (count_packet counter_gtpu s) p e cursor
