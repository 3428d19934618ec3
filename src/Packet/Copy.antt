-- ===== src/Packet/Copy.antt =====
-- The two unrolled payload loops of parse_gtpu: forward for the downlink, which moves the payload
-- down, and backward for the uplink, which moves it up.
use cu_ebpf.Base.{
  ℕ, zero, suc, ◌+◌, ◌-◌, ◌≤◌, ◌<◌, ◌≡◌, refl, ◌⊎◌, inl, inr, ltb, leb, if◌then◌else◌, arith,
  dec_lt,
}
use cu_ebpf.Packet.{Mem, write}

-- The forward loop from index `i` on, with the rounds that are left. `limit` is data_end.
unfoldable pub copy_forward : ℕ → ℕ → ℕ → ℕ → ℕ → ℕ → Mem → Mem
copy_forward zero i move_len old new limit m = m
copy_forward (suc rounds) i move_len old new limit m =
    let rest =
      copy_forward rounds (i + 1) move_len old new limit (write (new + i) (m (old + i)) m) in
    if leb move_len i
    then m
    else if ltb limit (old + i + 1)
    then m
    else if ltb limit (new + i + 1)
    then m
    else rest

-- Cells outside the target keep their bytes.
pub copy_forward_outside :
    (rounds i move_len old new limit j : ℕ) (m : Mem)
    → (j < new + i) ⊎ (new + move_len ≤ j)
    → copy_forward rounds i move_len old new limit m j ≡ m j
unfolding copy_forward
copy_forward_outside zero i move_len old new limit j m h = refl
copy_forward_outside (suc r) i move_len old new limit j m h = ground (
  arith,
  copy_forward_outside r (i + 1) move_len old new limit j (write (new + i) (m (old + i)) m),
)

-- A payload that moves down, or stays: with rounds enough and the source in front of data_end, the
-- forward loop brings every byte from round `i` on to its place, although the two regions overlap.
pub copy_forward_moves :
    (rounds i move_len old new limit k : ℕ) (m : Mem)
    → new ≤ old
    → old + move_len ≤ limit
    → move_len ≤ i + rounds
    → i ≤ k
    → k < move_len
    → copy_forward rounds i move_len old new limit m (new + k) ≡ m (old + k)
unfolding copy_forward
copy_forward_moves zero i move_len old new limit k m ho hl hr hi hk = absurd (omega arith)
copy_forward_moves (suc r) i move_len old new limit k m ho hl hr hi hk =
    let m' : Mem = write (new + i) (m (old + i)) m in
    elim (dec_lt i k) [
      | yes later ↦ ground (
        arith,
        copy_forward_moves r (i + 1) move_len old new limit k m' ho hl (omega arith) (omega arith)
            hk,
      )
      | no first ↦
          let e : k ≡ i = omega arith in
          ground (
            arith,
            copy_forward_outside r (i + 1) move_len old new limit (new + k) m' (inl (omega arith)),
          )
    ]

-- The backward loop from round `i` on: it copies index move_len - 1 - i.
unfoldable pub copy_backward : ℕ → ℕ → ℕ → ℕ → ℕ → ℕ → Mem → Mem
copy_backward zero i move_len old new limit m = m
copy_backward (suc rounds) i move_len old new limit m =
    let idx : ℕ = move_len - 1 - i in
    let rest =
      copy_backward rounds (i + 1) move_len old new limit (write (new + idx) (m (old + idx)) m) in
    if ltb move_len (i + 1)
    then m
    else if ltb limit (old + idx + 1)
    then m
    else if ltb limit (new + idx + 1)
    then m
    else rest

pub copy_backward_outside :
    (rounds i move_len old new limit j : ℕ) (m : Mem)
    → (j < new) ⊎ (new + move_len ≤ j + i)
    → copy_backward rounds i move_len old new limit m j ≡ m j
unfolding copy_backward
copy_backward_outside zero i move_len old new limit j m h = refl
copy_backward_outside (suc r) i move_len old new limit j m h = ground (
  arith,
  copy_backward_outside r (i + 1) move_len old new limit j
      (write (new + (move_len - 1 - i)) (m (old + (move_len - 1 - i))) m),
)

-- A payload that moves up, or stays: with rounds enough and the target in front of data_end, the
-- backward loop brings every byte that is left at round `i` to its place, although the two regions
-- overlap.
pub copy_backward_moves :
    (rounds i move_len old new limit k : ℕ) (m : Mem)
    → old ≤ new
    → new + move_len ≤ limit
    → move_len ≤ i + rounds
    → k + i < move_len
    → copy_backward rounds i move_len old new limit m (new + k) ≡ m (old + k)
unfolding copy_backward
copy_backward_moves zero i move_len old new limit k m ho hl hr hk = absurd (omega arith)
copy_backward_moves (suc r) i move_len old new limit k m ho hl hr hk =
    let idx : ℕ = move_len - 1 - i in
    let m' : Mem = write (new + idx) (m (old + idx)) m in
    elim (dec_lt k idx) [
      | yes later ↦ ground (
        arith,
        copy_backward_moves r (i + 1) move_len old new limit k m' ho hl (omega arith) (omega arith),
      )
      | no first ↦
          let e : k ≡ idx = omega arith in
          ground (
            arith,
            copy_backward_outside r (i + 1) move_len old new limit (new + k) m' (inr (omega arith)),
          )
    ]
