-- ===== src/Tests/Progress.antt =====
-- The theorems on flows that come to the fast path, at concrete states and packets.
use cu_ebpf.Base.{ℕ, ◌≡◌, refl, true, List, [], ◌∷◌, ◌++◌, arith}
use cu_ebpf.Session.{empty_map}
use cu_ebpf.Event.{GtpEvent}
use cu_ebpf.Parse.{is_ipv4_udp, is_g_pdu, outer_event, header_event, parse_g_pdu}
use cu_ebpf.Xdp.{redirect, count_packet, counted}
use cu_ebpf.Learner.{ul_session}
use cu_ebpf.Downlink.{downlink}
use cu_ebpf.Program.{parse_gtpu}
use cu_ebpf.Program.Counting.{newest, parse_gtpu-Reports}
use cu_ebpf.Program.Delivery.{DeliversF1u, DeliversN3}
use cu_ebpf.Program.Redirect.{parsed}
use cu_ebpf.Watcher.{
  fields_of, strip_newline, split_tab, skip_0x, parse_colon_hex_teid, parse_from, hex_char,
  ngap_endpoint, ngap_line,
}
use cu_ebpf.System.{System, Reach, here}
use cu_ebpf.System.Entries.{never_seeds, count_redirected}
use cu_ebpf.System.Validity.{IsValid}
use cu_ebpf.System.Progress.{polled, learned_session, IsN3Pdu, polled_redirects}
use cu_ebpf.System.Following.{heard, keeps_teid, NamesUpf, IsF1uPdu, heard_redirects}
use cu_ebpf.Tests.{
  helpers, inet, platform, platform-IsPlatform, update-HasRoom, tail-CanResize, learner, mac,
  baseline, n3_packet, n3_packet-IsBytes, f1u_packet, f1u_packet-IsBytes, upf_text,
  empty-Everywhere,
}
use cu_ebpf.Tests.Runs.{n3_udp, n3_g_pdu}

-- Nothing is in the session maps; the fast path is on.
abbrev fresh : System
fresh = record baseline { learner = learner }

-- The first packet has been received, and the DU's endpoint and MAC address have been learned.
abbrev told : System
told = record fresh {
  kernel = (parse_gtpu helpers fresh.kernel n3_packet).state;
  learner = record learner {
    f1u_dl_known = true;
    f1u_dl_teid = 0x1234;
    f1u_dl_ip = 0x0a000003;
    du_mac = mac 3;
    du_mac_valid = true;
  };
}

abbrev first_event : GtpEvent
first_event = newest (parse_gtpu helpers fresh.kernel n3_packet).state.events

abbrev printed : System
printed = polled platform told first_event []

fresh_n3 : IsN3Pdu helpers fresh.kernel n3_packet
unfolding parse_g_pdu header_event outer_event counted
fresh_n3 = record { udp = n3_udp; room = refl; g_pdu = n3_g_pdu; n3 = refl }

printed_n3 : IsN3Pdu helpers printed.kernel n3_packet
unfolding parse_g_pdu header_event outer_event counted
printed_n3 = record { udp = n3_udp; room = refl; g_pdu = n3_g_pdu; n3 = refl }

parsed_inner : (parsed fresh.kernel n3_packet).0.inner_ip_present ≡ true
unfolding parse_g_pdu header_event outer_event counted
parsed_inner = refl

parsed_key : (parsed fresh.kernel n3_packet).0.teid ≡ 7
unfolding parse_g_pdu header_event outer_event counted
parsed_key = refl

printed_key : (parsed printed.kernel n3_packet).0.teid ≡ (parsed fresh.kernel n3_packet).0.teid
unfolding parse_g_pdu header_event outer_event counted
printed_key = refl

printed_cursor : (parsed printed.kernel n3_packet).1 ≡ 58
unfolding parse_g_pdu header_event outer_event counted
printed_cursor = refl

told_maps : (told.kernel.session_map ≡ empty_map) × (told.kernel.ul_session_map ≡ empty_map)
unfolding parse_gtpu downlink is_ipv4_udp is_g_pdu parse_g_pdu header_event outer_event count_packet
    counted
told_maps = (refl, refl)

told-IsValid : IsValid told
told-IsValid = record {
  learner = omega arith;
  dl = rw told_maps.0 (empty-Everywhere _);
  ul = rw told_maps.1 (empty-Everywhere _);
}

abbrev at_once : Reach platform printed printed
at_once = here

polled_redirects_example :
    ((parse_gtpu helpers printed.kernel n3_packet).verdict ≡ redirect 4)
    × DeliversF1u
        (learned_session told.learner
          (count_redirected (parsed fresh.kernel n3_packet).0.teid at_once))
        n3_packet
        (parsed printed.kernel n3_packet)
        (parse_gtpu helpers printed.kernel n3_packet).packet
unfolding never_seeds
polled_redirects_example =
    polled_redirects platform fresh told n3_packet [] platform-IsPlatform update-HasRoom fresh_n3
      parsed_inner (record { on = refl; endpoint = refl; du = refl }) (rw told_maps.0) at_once
      n3_packet tail-CanResize told-IsValid
      (parse_gtpu-Reports helpers fresh.kernel n3_packet n3_udp refl).one refl printed_n3
      printed_key (rw printed_cursor) n3_packet-IsBytes

-- The CU has TEID 7 on F1-U, and some MAC address of the UPF.
abbrev half_told : System
half_told = record fresh {
  learner = record learner {
    f1u_ul_known = true;
    f1u_ul_teid = 7;
    upf_mac = mac 9;
    upf_mac_valid = true;
  };
}

-- 0x99 at the UPF.
abbrev upf_line : List ℕ
upf_line = b'0' ∷ b'x' ∷ b'9' ∷ b'9' ∷ 9 ∷ (upf_text ++ (10 ∷ []))

upf_line-NamesUpf : NamesUpf inet 0x0a000002 upf_line
upf_line-NamesUpf = record {
  text = b'0' ∷ b'x' ∷ b'9' ∷ b'9' ∷ [];
  ip = upf_text;
  addr = 0x0a000009;
  fields = unfold fields_of split_tab strip_newline in refl;
  nonzero = unfold skip_0x parse_colon_hex_teid parse_from hex_char in omega arith;
  address = refl;
  other = refl;
}

abbrev all_told : System
all_told = heard platform half_told upf_line

abbrev from_there : Reach platform all_told all_told
from_there = here

all_told_valid : all_told.learner.upf_mac_valid ≡ true
unfolding ngap_line fields_of parse_colon_hex_teid skip_0x ngap_endpoint
all_told_valid = refl

all_told_f1u : IsF1uPdu helpers all_told.kernel f1u_packet
unfolding parse_g_pdu header_event outer_event counted is_ipv4_udp is_g_pdu
all_told_f1u = record { udp = refl; room = refl; g_pdu = refl; f1u = refl }

all_told_parsed :
    ((parsed all_told.kernel f1u_packet).0.teid ≡ 7) × ((parsed all_told.kernel f1u_packet).1 ≡ 54)
unfolding parse_g_pdu header_event outer_event counted
all_told_parsed = (refl, refl)

half_told-IsValid : IsValid half_told
half_told-IsValid = record {
  learner = omega arith;
  dl = empty-Everywhere _;
  ul = empty-Everywhere _;
}

heard_redirects_example :
    ((parse_gtpu helpers all_told.kernel f1u_packet).verdict
      ≡ redirect all_told.learner.egress_ifindex)
    × DeliversN3
        (ul_session all_told.learner)
        f1u_packet
        (parsed all_told.kernel f1u_packet)
        (parse_gtpu helpers all_told.kernel f1u_packet).packet
unfolding keeps_teid
heard_redirects_example =
    heard_redirects 7 upf_line from_there f1u_packet platform-IsPlatform update-HasRoom
      tail-CanResize half_told-IsValid (λ logged. cc)
      (record { on = refl; open_map = refl; f1u = refl; teid = refl }) upf_line-NamesUpf refl
      all_told_valid all_told_f1u all_told_parsed.0 (rw all_told_parsed.1) f1u_packet-IsBytes
      (omega arith)
