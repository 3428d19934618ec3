-- ===== src/Tests/Counters.antt =====
-- The theorems on the counter program and on start and clean-up, at concrete inputs.
use cu_ebpf.Base.{
  if◌then◌else◌, ◌&&◌, ℕ, ◌+◌, ◌%◌, ◌^◌, ◌≡◌, refl, true, false, ◌==◌, Option, none, some, List, [],
  ◌∷◌, arith,
}
use cu_ebpf.PlaneCount.{user_plane, PlaneCounters, zero_totals, poll}
use cu_ebpf.PlaneCount.Counting.{count_all, number_of, count_all-number_of}
use cu_ebpf.PlaneCount.Polling.{user_sum, control_sum, poll-sums}
use cu_ebpf.Startup.{Calls, main, polled, failed, poll_ring}
use cu_ebpf.Startup.Cleanup.{gives_back, starts, joins, main-gives_back}
use cu_ebpf.Tests.{n3_packet, f1u_packet}

abbrev counters : PlaneCounters
counters key = some 5

count_all-number_of_example :
    count_all (n3_packet ∷ f1u_packet ∷ []) counters user_plane
    ≡ some ((5 + number_of user_plane (n3_packet ∷ f1u_packet ∷ [])) % 2 ^ 64)
count_all-number_of_example =
    count_all-number_of user_plane (n3_packet ∷ f1u_packet ∷ []) counters 5 refl (omega arith)

-- Two rounds with packets between them, and a failure.
abbrev rounds : List (Option ℕ × Option ℕ)
rounds = (some 3, some 0) ∷ (some 7, some 2) ∷ (none, some 9) ∷ []

poll-sums_example :
    (0 + user_sum (poll rounds zero_totals).reports
      ≡ (poll rounds zero_totals).totals.previous_user_total)
    × (0 + control_sum (poll rounds zero_totals).reports
        ≡ (poll rounds zero_totals).totals.previous_control_total)
poll-sums_example = poll-sums rounds zero_totals (omega arith)

-- Native mode does not work; generic mode does, and the polling fails in its second round.
abbrev generic_only : Calls
generic_only = record {
  interface_found = true;
  egress_found = true;
  own_mac_works = true;
  opened = true;
  loaded = true;
  program_found = true;
  session_map_found = true;
  ul_session_map_found = true;
  force_skb_mode = false;
  native_attach_works = false;
  generic_attach_works = true;
  events_found = true;
  ring_works = true;
  thread_starts = λ t. true;
  rounds = polled ∷ failed ∷ [];
}

main-gives_back_example :
    (gives_back false none false (main generic_only).actions ≡ true)
    × (((main generic_only).exit_status == 0) ≡ starts generic_only)
    × (joins (main generic_only).actions ≡ (if starts generic_only then 4 else 0))
    × ((main generic_only).stopped ≡ (starts generic_only && poll_ring generic_only.rounds))
main-gives_back_example = main-gives_back generic_only
