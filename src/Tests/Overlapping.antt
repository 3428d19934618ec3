-- ===== src/Tests/Overlapping.antt =====
-- The theorem on sequence numbers, at a concrete schedule.
use cu_ebpf.Base.{ℕ, ◌≡◌, ◌≢◌, refl, [], ◌∷◌, arith}
use cu_ebpf.Overlap.{Shared, waiting, numbered, take_turn, take_turns}
use cu_ebpf.Overlap.Numbers.{take_turns-numbers_differ}

-- No packet has made a step, and the counter is about to wrap.
abbrev start : Shared
start = record { next_dl_pdcp_sn = 4294967295; phase = λ i. waiting }

-- Packets 0 and 2 interleave; both read the counter behind both adds.
both_numbered : (take_turns (0 ∷ 2 ∷ 0 ∷ 2 ∷ []) start).phase 2 ≡ numbered 1
unfolding take_turns take_turn
both_numbered = refl

same_number : (take_turns (0 ∷ 2 ∷ 0 ∷ 2 ∷ []) start).phase 0 ≡ numbered 1
unfolding take_turns take_turn
same_number = refl

before_one : (take_turns (0 ∷ 2 ∷ 0 ∷ 2 ∷ []) start).phase 1 ≡ waiting
unfolding take_turns take_turn
before_one = refl

one_numbered :
    (take_turns (1 ∷ 1 ∷ []) (take_turns (0 ∷ 2 ∷ 0 ∷ 2 ∷ []) start)).phase 1 ≡ numbered 2
unfolding take_turns take_turn
one_numbered = refl

take_turns-numbers_differ_example : ◌≢◌ {A = ℕ} 1 2
take_turns-numbers_differ_example =
    take_turns-numbers_differ (0 ∷ 2 ∷ 0 ∷ 2 ∷ []) (1 ∷ 1 ∷ []) 0 1 1 2 start (omega arith) refl
      same_number before_one one_numbered (omega arith)
