-- ===== src/Tests/Kernel.antt =====
-- The theorems on parse_gtpu at concrete packets.
use cu_ebpf.Base.{◌%◌, ◌≡◌, refl, true, false, ◌&&◌, if◌then◌else◌, arith}
use cu_ebpf.Packet.Checksum.{write_checksum, header_sum, header_sum-write_checksum}
use cu_ebpf.Parse.{is_ipv4_udp, is_g_pdu, gtp_end, header_event, parse_g_pdu}
use cu_ebpf.Parse.Bounds.{Within, parse_g_pdu-Within}
use cu_ebpf.Xdp.{pass, redirect}
use cu_ebpf.Downlink.Payload.{CarriesInner}
use cu_ebpf.Program.{parse_gtpu}
use cu_ebpf.Program.Safety.{Untouched, pass-Untouched}
use cu_ebpf.Program.Counting.{Reports, parse_gtpu-Reports}
use cu_ebpf.Program.Redirect.{parsed}
use cu_ebpf.Program.Verdicts.{g_pdu_verdict, parse_gtpu-verdict}
use cu_ebpf.Program.OptionalBytes.{optional_redirected}
use cu_ebpf.Program.Malformed.{malformed_redirected}
use cu_ebpf.Tests.{
  tail-IsAdjustTail, tail-CanResize, helpers, kernel, dl_entry, ul_entry, optional_packet, baseline,
  n3_packet, f1u_packet, bad_packet, n3_packet-IsBytes,
}
use cu_ebpf.Tests.Runs.{n3_udp, n3_g_pdu, empty_passes}

pass-Untouched_example :
    Untouched baseline.kernel n3_packet (parse_gtpu helpers baseline.kernel n3_packet)
pass-Untouched_example = pass-Untouched helpers baseline.kernel n3_packet empty_passes

parse_gtpu-verdict_example : (parse_gtpu helpers kernel f1u_packet).verdict ≡ (
    if is_ipv4_udp f1u_packet && (true && is_g_pdu f1u_packet)
    then g_pdu_verdict kernel f1u_packet (parsed kernel f1u_packet).0 (parsed kernel f1u_packet).1
    else pass)
parse_gtpu-verdict_example =
    parse_gtpu-verdict helpers tail-IsAdjustTail tail-CanResize kernel f1u_packet

parse_gtpu-Reports_example : Reports kernel n3_packet (parse_gtpu helpers kernel n3_packet)
parse_gtpu-Reports_example = parse_gtpu-Reports helpers kernel n3_packet n3_udp refl

parse_g_pdu-Within_example :
    Within n3_packet
      (gtp_end n3_packet)
      (header_event 1 n3_packet)
      (parse_g_pdu 1 n3_packet).0
      (parse_g_pdu 1 n3_packet).1
parse_g_pdu-Within_example = parse_g_pdu-Within 1 n3_packet n3_g_pdu

header_sum-write_checksum_example : header_sum 14 (write_checksum 14 n3_packet.at) % 65535 ≡ 0
header_sum-write_checksum_example =
    header_sum-write_checksum n3_packet.at (λ i low high. n3_packet-IsBytes i)

malformed_redirected_example :
    ((parse_gtpu helpers kernel bad_packet).verdict ≡ redirect 4)
    × ((parsed kernel bad_packet).0.inner_ip_present ≡ false)
    × CarriesInner bad_packet 54 (parse_gtpu helpers kernel bad_packet).packet 54
malformed_redirected_example =
    malformed_redirected helpers kernel bad_packet dl_entry tail-IsAdjustTail tail-CanResize refl
      (ground arith) refl

optional_redirected_example :
    ((parse_gtpu helpers kernel optional_packet).verdict ≡ redirect 4)
    × ((parsed kernel optional_packet).0.f1u_pdcp_sn_present ≡ false)
    × CarriesInner optional_packet 54 (parse_gtpu helpers kernel optional_packet).packet 58
optional_redirected_example =
    optional_redirected helpers kernel optional_packet ul_entry tail-IsAdjustTail tail-CanResize
      refl (ground arith) refl refl
