-- ===== src/Tests/Earlier.antt =====
-- The theorems on the earlier programs, at concrete packets, lines and calls.
use cu_ebpf.Base.{
  ℕ, ◌≡◌, false, ◌&&◌, ◌==◌, refl, true, false, List, [], ◌∷◌, ◌++◌, none, some, if◌then◌else◌,
  arith,
}
use cu_ebpf.Event.{GtpEvent, zero_event}
use cu_ebpf.Session.{empty_map}
use cu_ebpf.Parse.{is_ipv4_udp, is_g_pdu, outer_event, header_event, parse_g_pdu}
use cu_ebpf.Xdp.{redirect, count_packet, counted, counter_gtpu}
use cu_ebpf.Program
use cu_ebpf.Program.Redirect.{parsed}
use cu_ebpf.Watcher.{
  fields_of, parse_colon_hex_teid, parse_from, hex_char, split_tab, strip_newline, du_ip,
}
use cu_ebpf.PduExtender.{base_event, parse_headers}
use cu_ebpf.PduExtender
use cu_ebpf.PduExtender.Extends.{IsN3}
use cu_ebpf.FirstParser
use cu_ebpf.FirstParser.Forgets.{Agrees, parse_gtpu-Agrees}
use cu_ebpf.Stage1.{SessionCtx, SessionMap, relay}
use cu_ebpf.Stage1
use cu_ebpf.Stage1.Relayed.{SessionFits}
use cu_ebpf.Stage1.Relays.{Relays, parse_gtpu-Relays}
use cu_ebpf.Stage1.Learning.{
  Learner, f1ap_line, dl_session, UpdateAny, IsUpdateAny, Announces, print_event,
  print_event-follows,
}
use cu_ebpf.Stage2
use cu_ebpf.Stage2.Agrees.{parse_gtpu-parse_gtpu}
use cu_ebpf.Stage2.Delivery.{headers_of, redirect-Delivers}
use cu_ebpf.Session
use cu_ebpf.Parse.Shapes.{F1uParsed}
use cu_ebpf.Program.Delivery.{DeliversF1u}
use cu_ebpf.PktCount.{Calls, main}
use cu_ebpf.PktCount.Counting.{all_given_back, main-all_given_back}
use cu_ebpf.Tests.{
  tail-IsAdjustTail, kernel-ServesF1u, helpers, kernel, n3_packet, n3_packet-IsBytes, mac, inet,
}

n3_packet-IsN3 : IsN3 n3_packet
n3_packet-IsN3 = record { source = omega arith; dest = omega arith }

parse_gtpu-Agrees_example :
    Agrees kernel
      (PduExtender.parse_gtpu (λ es. true) kernel n3_packet)
      (FirstParser.parse_gtpu true kernel.packet_counts n3_packet)
parse_gtpu-Agrees_example = parse_gtpu-Agrees (λ es. true) kernel n3_packet n3_packet-IsN3

n3_cursor_in_reach : (parsed kernel n3_packet).1 ≡ 58
unfolding parse_g_pdu header_event outer_event counted
n3_cursor_in_reach = refl

parse_gtpu-parse_gtpu_example :
    Stage2.parse_gtpu helpers kernel n3_packet ≡ Program.parse_gtpu helpers kernel n3_packet
parse_gtpu-parse_gtpu_example =
    parse_gtpu-parse_gtpu helpers kernel n3_packet n3_packet-IsN3
      (omega (arith, n3_cursor_in_reach))

abbrev relay_entry : SessionCtx
relay_entry = record {
  peer_teid = 0x1234;
  dst_ip = 0x0a000003;
  dst_port = 2153;
  egress_ifindex = 4;
  dst_mac = mac 3;
  src_mac = mac 4;
  qfi = 0;
}

-- TEID 7 alone has an entry.
abbrev sessions : SessionMap
sessions k = if 7 == k then some relay_entry else none

sessions-SessionFits : (k : ℕ) (sess : SessionCtx) → sessions k ≡ some sess → SessionFits sess
sessions-SessionFits k sess found = ground (arith, found)

relayed : (Stage1.parse_gtpu (λ es. true) sessions kernel n3_packet).verdict ≡ redirect 4
unfolding Stage1.parse_gtpu relay is_ipv4_udp is_g_pdu parse_headers base_event outer_event
    count_packet counted
relayed = refl

parse_gtpu-Relays_example :
    (sess : SessionCtx) × (sessions (parse_headers (counted counter_gtpu kernel) n3_packet).0.teid
      ≡ some sess)
    × (sess.egress_ifindex ≡ 4)
    × Relays sess n3_packet (Stage1.parse_gtpu (λ es. true) sessions kernel n3_packet).packet
parse_gtpu-Relays_example =
    parse_gtpu-Relays (λ es. true) sessions kernel n3_packet 4 n3_packet-IsBytes
      sessions-SessionFits relayed

-- A map that is never full.
abbrev update_any : UpdateAny
update_any m k v = some (λ j. if k == j then some v else m j)

update_any-IsUpdateAny : IsUpdateAny update_any
update_any-IsUpdateAny = record {
  stored = λ m m' k j v wrote. ground (arith, wrote);
  present = λ m k old v there. (λ j. if k == j then some v else m j, refl);
}

-- TEID 1f at the DU's address.
abbrev line : List ℕ
line = b'1' ∷ b'f' ∷ 9 ∷ (du_ip ++ (10 ∷ []))

line-Announces : Announces inet line 31 0x0a000009
line-Announces = record {
  text = b'1' ∷ b'f' ∷ [];
  fields = unfold fields_of split_tab strip_newline in refl;
  reads = unfold parse_colon_hex_teid parse_from hex_char in refl;
  nonzero = omega arith;
  address = refl;
}

abbrev learner : Learner
learner = record {
  f1u_dl_known = true;
  f1u_dl_teid = 0x1234;
  f1u_dl_ip = 0x0a000003;
  egress_ifindex = 4;
  own_mac = mac 4;
  du_mac = mac 3;
  du_mac_valid = true;
}

abbrev event : GtpEvent
event = record zero_event { is_gtpu = true; inner_ip_present = true; teid = 7 }

print_event-follows_example :
    print_event update_any (f1ap_line inet line learner) event sessions 7 ≡ (
      if 7 == 7
      then some (record (dl_session learner) { peer_teid = 31; dst_ip = 0x0a000009 })
      else sessions 7)
print_event-follows_example =
    print_event-follows inet update_any line 31 0x0a000009 learner event sessions relay_entry 7
      update_any-IsUpdateAny line-Announces refl refl refl refl

-- The program loads, but does not attach.
abbrev calls : Calls
calls = record {
  interface_found = true;
  opens = true;
  loads = true;
  program_found = true;
  program_fd_ok = true;
  attaches = false;
  map_found = true;
  map_fd_ok = true;
  reads = some 3 ∷ none ∷ [];
}

main-all_given_back_example :
    (all_given_back false false (main calls).0 ≡ true)
    × (((main calls).1 == 0) ≡ (calls.interface_found && calls.opens))
main-all_given_back_example = main-all_given_back calls

stage_2_redirected : (Stage2.parse_gtpu helpers kernel n3_packet).verdict ≡ redirect 4
unfolding Stage2.parse_gtpu Stage2.offload is_ipv4_udp is_g_pdu parse_headers base_event outer_event
    count_packet counted
stage_2_redirected = refl

redirect-Delivers_example :
    (sess : Session.SessionCtx) × (kernel.session_map (headers_of kernel n3_packet).0.teid
      ≡ some sess)
    × DeliversF1u sess n3_packet
        (headers_of kernel n3_packet)
        (Stage2.parse_gtpu helpers kernel n3_packet).packet
    × F1uParsed
        (Stage2.parse_gtpu helpers kernel n3_packet).packet
        (parse_g_pdu 1 (Stage2.parse_gtpu helpers kernel n3_packet).packet)
redirect-Delivers_example =
    redirect-Delivers helpers kernel n3_packet 4 stage_2_redirected tail-IsAdjustTail
      n3_packet-IsBytes kernel-ServesF1u 1
