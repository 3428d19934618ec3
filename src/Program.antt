-- ===== src/Program.antt =====
-- parse_gtpu as a whole (artifact/stage_4/xdp_gtp_inner_parser.bpf.c).
pub mod Safety
pub mod Counting
pub mod Redirect
pub mod Offload
pub mod Delivery
pub mod Reporting
pub mod Sequence
pub mod Malformed
pub mod Verdicts
pub mod OptionalBytes
use cu_ebpf.Base.{ℕ, not, if◌then◌else◌}
use cu_ebpf.Packet.{Packet}
use cu_ebpf.Event.{GtpEvent}
use cu_ebpf.Parse.{is_ipv4_udp, is_g_pdu, outer_event, parse_g_pdu}
use cu_ebpf.Xdp.{
  KernelState, Outcome, Helpers, pass, finish, counter_gtpu, counter_udp_non_gtpu, count_packet,
  counted,
}
use cu_ebpf.Downlink.{downlink}
use cu_ebpf.Uplink.{uplink}

-- submit_non_gtpu
unfoldable pub submit_non_gtpu : KernelState → Packet → Outcome
submit_non_gtpu s p =
    finish pass p (record (outer_event p) { udp_non_gtpu_count = counted counter_udp_non_gtpu s })
      (count_packet counter_udp_non_gtpu s)

-- From `submit` on: exactly one of the two offload blocks runs for a G-PDU.
unfoldable pub submit_gtpu : Helpers → KernelState → Packet → GtpEvent → ℕ → Outcome
submit_gtpu h s p e cursor = if e.is_f1u then uplink h s p e cursor else downlink h s p e cursor

unfoldable pub parse_gtpu : Helpers → KernelState → Packet → Outcome
unfolding submit_non_gtpu submit_gtpu
parse_gtpu h s p =
    if not (is_ipv4_udp p)
    then record { verdict = pass; packet = p; state = s }
    else if not (h.reserve s.events)
    then record { verdict = pass; packet = p; state = s }
    else if not (is_g_pdu p)
    then submit_non_gtpu s p
    else let (e, cursor) = parse_g_pdu (counted counter_gtpu s) p in
      submit_gtpu h (count_packet counter_gtpu s) p e cursor
