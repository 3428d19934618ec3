-- ===== src/Tests/Reading.antt =====
-- The theorems on what is read and printed, at concrete output.
use cu_ebpf.Base.{◌≡◌, refl, true, if◌then◌else◌, List, [], ◌∷◌, none, some, arith}
use cu_ebpf.Event.{zero_event}
use cu_ebpf.Watcher.{du_ip}
use cu_ebpf.Watcher.Stream.{f1ap_watcher_thread, ngap_watcher_thread}
use cu_ebpf.Watcher.Transcript.{Announcement, transcript}
use cu_ebpf.Watcher.Heard.{last, is_du, is_own, is_other, with_dl, with_f1u, with_n3, threads_hear}
use cu_ebpf.Report.{print_lines}
use cu_ebpf.Report.Fate.{hit_of, hit_fields, session_of, printed_hit}
use cu_ebpf.Program.{parse_gtpu}
use cu_ebpf.PduExtender
use cu_ebpf.PduExtender.Extends.{IsN3}
use cu_ebpf.PduExtender.Userspace.{print_event}
use cu_ebpf.PduExtender.Printed.{kept, output_extends}
use cu_ebpf.Program.Counting.{newest}
use cu_ebpf.Program.Redirect.{parsed}
use cu_ebpf.Program.Sequence.{is_redirect}
use cu_ebpf.Stage3.{Learner, State}
use cu_ebpf.Stage3.Agrees.{
  Input, printed, f1ap_read, ngap_read, du_looked_up, upf_looked_up, seeded, with_switch, handle,
  handle_4, run, run-run,
}
use cu_ebpf.Session.{empty_map}
use cu_ebpf.Tests.{
  inet, update, learner, mac, own_text, upf_text, upf_thread, helpers, kernel, n3_packet,
}
use cu_ebpf.Tests.Runs.{n3_udp}

-- The DU at TEID 31, the CU at TEID 32, the UPF at TEID 33.
abbrev du_at_31 : Announcement inet
du_at_31 = record {
  teid = 31;
  ip = du_ip;
  addr = 0x0a000009;
  fits = omega arith;
  nonzero = omega arith;
  printable = omega arith;
  there = refl;
  short = omega arith;
  reads = refl;
}

abbrev own_at_32 : Announcement inet
own_at_32 = record du_at_31 {
  teid = 32;
  ip = own_text;
  fits = omega arith;
  nonzero = omega arith;
  printable = omega arith;
  there = refl;
  short = omega arith;
}

abbrev upf_at_33 : Announcement inet
upf_at_33 = record du_at_31 {
  teid = 33;
  ip = upf_text;
  fits = omega arith;
  nonzero = omega arith;
  printable = omega arith;
  there = refl;
  short = omega arith;
}

abbrev endpoints : List (Announcement inet)
endpoints = du_at_31 ∷ own_at_32 ∷ upf_at_33 ∷ []

threads_hear_example :
    ((f1ap_watcher_thread inet update (some (transcript endpoints)) (learner, empty_map)).0
      ≡ with_f1u (last (is_own own_text) endpoints) (with_dl (last is_du endpoints) learner))
    × ((ngap_watcher_thread inet update (some (transcript endpoints)) (learner, empty_map)).0
        ≡ with_n3 (last (is_other own_text) endpoints) learner)
threads_hear_example = threads_hear inet update endpoints learner empty_map

printed_hit_example :
    hit_of (print_lines (newest (parse_gtpu helpers kernel n3_packet).state.events)) ≡ (
      if is_redirect (parse_gtpu helpers kernel n3_packet).verdict
      then hit_fields (session_of kernel (parsed kernel n3_packet).0)
      else none)
printed_hit_example = printed_hit helpers kernel n3_packet n3_udp refl

abbrev early : Learner
early = record {
  f1u_dl_known = learner.f1u_dl_known;
  f1u_dl_teid = learner.f1u_dl_teid;
  f1u_dl_ip = learner.f1u_dl_ip;
  f1u_ul_known = learner.f1u_ul_known;
  f1u_ul_teid = learner.f1u_ul_teid;
  n3_ul_known = learner.n3_ul_known;
  n3_ul_teid = learner.n3_ul_teid;
  n3_ul_ip = learner.n3_ul_ip;
  ul_map_open = learner.ul_map_open;
  egress_ifindex = learner.egress_ifindex;
  own_mac = learner.own_mac;
  own_ip = learner.own_ip;
  du_mac = learner.du_mac;
  du_mac_valid = learner.du_mac_valid;
  upf_mac = learner.upf_mac;
  upf_mac_valid = learner.upf_mac_valid;
}

abbrev state : State
state = record { learner = early; thread = upf_thread; session_map = empty_map; ul_map = empty_map }

-- The DU is announced and looked up, a session is seeded, and an N3 packet is seen.
abbrev inputs : List Input
inputs =
    f1ap_read (transcript (du_at_31 ∷ []))
    ∷ ngap_read (transcript (upf_at_33 ∷ []))
    ∷ du_looked_up (some (mac 3))
    ∷ upf_looked_up (λ a. some (mac 5))
    ∷ seeded 0x0a000009 (some (some (8, 31)))
    ∷ printed (record zero_event { is_gtpu = true; inner_ip_present = true; teid = 7 })
    ∷ []

run-run_example :
    run (handle_4 inet update) inputs (with_switch state)
    ≡ with_switch (run (handle inet update) inputs state)
run-run_example = run-run inet update inputs state

n3_packet-IsN3 : IsN3 n3_packet
n3_packet-IsN3 = record { source = omega arith; dest = omega arith }

output_extends_example :
    print_event (newest (PduExtender.parse_gtpu helpers.reserve kernel n3_packet).state.events)
    ≡ kept (print_lines (newest (parse_gtpu helpers kernel n3_packet).state.events))
output_extends_example = output_extends helpers kernel n3_packet n3_udp refl n3_packet-IsN3
