-- ===== src/PduExtender.antt =====
-- pdu-extender/xdp_gtp_inner_parser.bpf.c: the parser that only reports and counts. Stage 1 and
-- stage 2 (artifact/stage_1, artifact/stage_2) have it in front of their offload blocks, line by
-- line. From the optional bytes to the end of the extension loop, and in the inner header, it is the
-- text of stage 4, so these stages are those of Parse. Its struct gtp_event has the fields of
-- stage 4's up to is_gtpu, and the two counts; the other fields of GtpEvent stay 0 here.
pub mod Extends
pub mod Userspace
pub mod Printed
use cu_ebpf.Base.{ℕ, ◌/◌, ◌%◌, ◌+◌, ◌-◌, Bool, List, true, not, ◌&&◌, ◌==◌, if◌then◌else◌}
use cu_ebpf.Packet.{Packet, be16, be32}
use cu_ebpf.Event.{GtpEvent}
use cu_ebpf.Parse.{
  Flow, submit, next, gtp_offset, gtp_end, is_ipv4_udp, is_g_pdu, outer_event, parse_optional,
  walk_extensions, walk_extension, parse_inner, max_extension_headers,
}
use cu_ebpf.Xdp.{
  KernelState, Outcome, pass, finish, count_packet, counted, counter_gtpu, counter_udp_non_gtpu,
}

-- The fields of the mandatory header; there is no is_f1u.
unfoldable pub base_event : ℕ → Packet → GtpEvent
unfolding outer_event
base_event count p = record (outer_event p) {
  is_gtpu = true;
  gtpu_count = count;
  version = p.at (gtp_offset p) / 32;
  protocol_type = p.at (gtp_offset p) / 16 % 2;
  flag_e = p.at (gtp_offset p) / 4 % 2 == 1;
  flag_s = p.at (gtp_offset p) / 2 % 2 == 1;
  flag_pn = p.at (gtp_offset p) % 2 == 1;
  message_type = p.at (gtp_offset p + 1);
  gtp_length = be16 p.at (gtp_offset p + 2);
  teid = be32 p.at (gtp_offset p + 4);
}

-- Behind the extension loop: the payload is taken for an IPv4 header at once.
unfoldable pub inner_stage : Packet → Flow → GtpEvent × ℕ
unfolding parse_inner
inner_stage p (submit e cursor) = (e, cursor)
inner_stage p (next e cursor n) =
    if e.flag_e && not (n == 0) then (e, cursor) else (parse_inner p e cursor, cursor)

unfoldable pub extension_stage : Packet → Flow → GtpEvent × ℕ
unfolding walk_extensions walk_extension inner_stage
extension_stage p (submit e cursor) = (e, cursor)
extension_stage p (next e cursor n) =
    inner_stage p (walk_extensions max_extension_headers p e cursor n)

-- From the G-PDU header to `submit`: the event and the cursor.
unfoldable pub parse_headers : ℕ → Packet → GtpEvent × ℕ
unfolding base_event parse_optional extension_stage
parse_headers count p = extension_stage p (parse_optional p (base_event count p) (gtp_end p))

-- submit_non_gtpu
unfoldable pub report_non_gtpu : KernelState → Packet → Outcome
report_non_gtpu s p =
    finish pass p (record (outer_event p) { udp_non_gtpu_count = counted counter_udp_non_gtpu s })
      (count_packet counter_udp_non_gtpu s)

-- `reserve` is bpf_ringbuf_reserve.
unfoldable pub parse_gtpu : (List GtpEvent → Bool) → KernelState → Packet → Outcome
unfolding report_non_gtpu
parse_gtpu reserve s p =
    if not (is_ipv4_udp p)
    then record { verdict = pass; packet = p; state = s }
    else if not (reserve s.events)
    then record { verdict = pass; packet = p; state = s }
    else if not (is_g_pdu p)
    then report_non_gtpu s p
    else let (e, cursor) = parse_headers (counted counter_gtpu s) p in
      finish pass p e (count_packet counter_gtpu s)
