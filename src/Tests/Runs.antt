-- ===== src/Tests/Runs.antt =====
-- parse_gtpu on concrete packets.
use cu_ebpf.Base.{◌≡◌, refl, true, false}
use cu_ebpf.Packet.Checksum.{write_checksum}
use cu_ebpf.Packet.Copy.{copy_forward}
use cu_ebpf.Parse.{is_ipv4_udp, is_g_pdu, outer_event, header_event, parse_g_pdu}
use cu_ebpf.Rewrite.{write_headers, write_pdcp_sdap}
use cu_ebpf.Xdp.{pass, redirect, count_packet, counted}
use cu_ebpf.Downlink.{downlink}
use cu_ebpf.Uplink.{uplink}
use cu_ebpf.Program.{parse_gtpu}
use cu_ebpf.Program.Redirect.{parsed}
use cu_ebpf.Tests.{helpers, kernel, baseline, n3_packet, f1u_packet}

pub n3_redirected : (parse_gtpu helpers kernel n3_packet).verdict ≡ redirect 4
unfolding parse_gtpu downlink is_ipv4_udp is_g_pdu parse_g_pdu header_event outer_event count_packet
    counted
n3_redirected = refl

pub f1u_redirected : (parse_gtpu helpers kernel f1u_packet).verdict ≡ redirect 4
unfolding parse_gtpu uplink is_ipv4_udp is_g_pdu parse_g_pdu header_event outer_event count_packet
    counted
f1u_redirected = refl

pub n3_parsed : (parsed kernel n3_packet).0.is_f1u ≡ false
unfolding parse_g_pdu header_event outer_event counted
n3_parsed = refl

pub f1u_parsed : (parsed kernel f1u_packet).0.is_f1u ≡ true
unfolding parse_g_pdu header_event outer_event counted
f1u_parsed = refl

n3_cursor : (parsed kernel n3_packet).1 ≡ 58
unfolding parse_g_pdu header_event outer_event counted
n3_cursor = refl

-- The PDCP header of the redirected packet: D/C is set, and the sequence number is 42.
n3_sequence : (parse_gtpu helpers kernel n3_packet).packet.at 52 ≡ 42
unfolding parse_gtpu downlink is_ipv4_udp is_g_pdu parse_g_pdu header_event outer_event count_packet
    counted copy_forward write_headers write_checksum write_pdcp_sdap
n3_sequence = refl

pub n3_udp : is_ipv4_udp n3_packet ≡ true
unfolding is_ipv4_udp
n3_udp = refl

pub n3_g_pdu : is_g_pdu n3_packet ≡ true
unfolding is_g_pdu
n3_g_pdu = refl

pub empty_passes : (parse_gtpu helpers baseline.kernel n3_packet).verdict ≡ pass
unfolding parse_gtpu downlink is_ipv4_udp is_g_pdu parse_g_pdu header_event outer_event count_packet
    counted
empty_passes = refl
