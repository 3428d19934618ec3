-- ===== src/PlaneCount/Polling.antt =====
-- What the polling loop of ebpf-udp-sctp-pkt-count/xdp_plane_count_user.c prints, in all.
use cu_ebpf.Base.{ℕ, ◌+◌, ◌≤◌, ◌≡◌, Option, none, some, List, [], ◌∷◌, arith}
use cu_ebpf.PlaneCount.{Totals, Report, settle, poll}

abbrev pub amount : Option ℕ → ℕ
amount none = 0
amount (some n) = n

-- The increments that the notifications print, added up.
unfoldable pub user_sum : List Report → ℕ
user_sum [] = 0
user_sum (r ∷ rs) = amount r.user_found + user_sum rs

unfoldable pub control_sum : List Report → ℕ
control_sum [] = 0
control_sum (r ∷ rs) = amount r.control_found + control_sum rs

-- The counters that are read never go down, from `u` and `c` on.
abbrev pub Rising : ℕ → ℕ → List (Option ℕ × Option ℕ) → Type 0
Rising u c [] = Unit
Rising u c ((none, x) ∷ rounds) = Unit
Rising u c ((some u', none) ∷ rounds) = Unit
Rising u c ((some u', some c') ∷ rounds) = (u ≤ u') × (c ≤ c') × Rising u' c' rounds

-- While the counters do not go down, no packet is notified twice and none is forgotten: the printed
-- increments of each class add up to the difference between its last settled total and the one that
-- the loop began with.
pub poll-sums :
    (rounds : List (Option ℕ × Option ℕ)) (t : Totals)
    → Rising t.previous_user_total t.previous_control_total rounds
    → (t.previous_user_total + user_sum (poll rounds t).reports
        ≡ (poll rounds t).totals.previous_user_total)
      × (t.previous_control_total + control_sum (poll rounds t).reports
          ≡ (poll rounds t).totals.previous_control_total)
unfolding poll user_sum control_sum
poll-sums [] t rising = omega arith
poll-sums ((none, x) ∷ rounds) t rising = omega arith
poll-sums ((some u, none) ∷ rounds) t rising = omega arith
poll-sums ((some u, some c) ∷ rounds) t rising =
    let t' : Totals = settle (record t { user_total = u; control_total = c }) in
    ground (arith, poll-sums rounds t' rising.2)
