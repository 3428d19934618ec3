-- ===== src/Overlap/Numbers.antt =====
-- What sequence numbers interleaved packets get.
use cu_ebpf.Base.{
  ℕ, ◌+◌, ◌%◌, ◌^◌, ◌≤◌, ◌<◌, ◌≡◌, ◌≢◌, ◌⊎◌, ◌∙◌, sym, inl, inr, refl, Bool, true, false,
  Bool-cases, List, [], ◌∷◌, length, arith,
}
use cu_ebpf.Overlap.{Phase, waiting, added, numbered, Shared, take_turn, take_turns}

abbrev pub is_numbered : Phase → Bool
is_numbered waiting = false
is_numbered added = false
is_numbered (numbered sn) = true

-- What a turn does to the counter, and to a packet that has no number yet.
record Turn (j : ℕ) (s t : Shared) : Type 0 where
  adds : ℕ
  few : adds ≤ 1
  counted : t.next_dl_pdcp_sn ≡ (s.next_dl_pdcp_sn + adds) % 2 ^ 32
  own : s.phase j ≡ waiting → (t.phase j ≡ waiting) ⊎ (adds ≡ 1)

take_turn-Turn : (i j : ℕ) (s : Shared) → s.next_dl_pdcp_sn < 2 ^ 32 → Turn j s (take_turn i s)
unfolding take_turn
take_turn-Turn i j s word = go (s.phase i) refl
  where
    go : (x : Phase) → s.phase i ≡ x → Turn j s (take_turn i s)
    go waiting at = record {
      adds = 1;
      few = omega arith;
      counted = ground (arith, at);
      own = λ w. inr refl;
    }
    go added at = record {
      adds = 0;
      few = omega arith;
      counted = ground (arith, at);
      own = λ w. inl (ground (arith, at, w));
    }
    go (numbered sn) at = record {
      adds = 0;
      few = omega arith;
      counted = ground (arith, at);
      own = λ w. inl (ground (arith, at, w));
    }

-- A number that a packet gets in a turn is the counter as it stands.
take_turn-numbers :
    (i j : ℕ) (s : Shared)
    → is_numbered (s.phase j) ≡ false
    → is_numbered ((take_turn i s).phase j) ≡ true
    → ((take_turn i s).phase j ≡ numbered (s.next_dl_pdcp_sn % 2 ^ 18))
      × ((take_turn i s).next_dl_pdcp_sn ≡ s.next_dl_pdcp_sn)
      × (s.phase j ≢ waiting)
unfolding take_turn
take_turn-numbers i j s before after = ground (arith, before, after)

take_turns-numbered :
    (turns : List ℕ) (j sn : ℕ) (s : Shared)
    → s.phase j ≡ numbered sn
    → (take_turns turns s).phase j ≡ numbered sn
unfolding take_turns take_turn
take_turns-numbered [] j sn s at = at
take_turns-numbered (i ∷ turns) j sn s at =
    take_turns-numbered turns j sn (take_turn i s) (ground (arith, at))

-- A run of `steps` turns adds at most as often as it has turns.
record Count (steps : ℕ) (s t : Shared) : Type 0 where
  adds : ℕ
  few : adds ≤ steps
  counted : t.next_dl_pdcp_sn ≡ (s.next_dl_pdcp_sn + adds) % 2 ^ 32

take_turns-Count :
    (turns : List ℕ) (s : Shared)
    → s.next_dl_pdcp_sn < 2 ^ 32
    → Count (length turns) s (take_turns turns s)
unfolding take_turns
take_turns-Count [] s word = record { adds = 0; few = omega arith; counted = omega arith }
take_turns-Count (i ∷ turns) s word =
    let t = take_turn-Turn i i s word in
    let c = take_turns-Count turns (take_turn i s) (omega (arith, t.counted)) in
    record {
      adds = t.adds + c.adds;
      few = omega (arith, t.few, c.few);
      counted = omega (arith, t.counted, c.counted);
    }

-- A number that packet `j` gets during a run is the counter behind one of its adds, behind the
-- packet's own one if that is made in the run.
record Number (j sn steps : ℕ) (s t : Shared) : Type 0 where
  adds : ℕ
  few : adds ≤ steps
  counted : t.next_dl_pdcp_sn ≡ (s.next_dl_pdcp_sn + adds) % 2 ^ 32
  read : ℕ
  early : read ≤ adds
  number : sn ≡ (s.next_dl_pdcp_sn + read) % 2 ^ 18
  own : s.phase j ≡ waiting → 0 < read

take_turns-Number :
    (turns : List ℕ) (j sn : ℕ) (s : Shared)
    → s.next_dl_pdcp_sn < 2 ^ 32
    → is_numbered (s.phase j) ≡ false
    → (take_turns turns s).phase j ≡ numbered sn
    → Number j sn (length turns) s (take_turns turns s)
unfolding take_turns
take_turns-Number [] j sn s word before after = absurd (ground (arith, before, after))
take_turns-Number (i ∷ turns) j sn s word before after =
    let t = take_turn-Turn i j s word in
    elim (Bool-cases (is_numbered ((take_turn i s).phase j))) [
      | inr still ↦
          let n =
            take_turns-Number turns j sn (take_turn i s) (omega (arith, t.counted)) still after in
          record {
            adds = t.adds + n.adds;
            few = omega (arith, t.few, n.few);
            counted = omega (arith, t.counted, n.counted);
            read = t.adds + n.read;
            early = omega (arith, n.early);
            number = omega (arith, t.counted, n.number);
            own = λ w. elim (t.own w) [
              | inl on ↦ omega (arith, n.own on)
              | inr one ↦ omega (arith, one)
            ];
          }
      | inl now ↦
          let got = take_turn-numbers i j s before now in
          let c = take_turns-Count turns (take_turn i s) (omega (arith, t.counted)) in
          let same : numbered sn ≡ numbered (s.next_dl_pdcp_sn % 2 ^ 18) =
            sym after ∙ take_turns-numbered turns j _ (take_turn i s) got.0 in
          record {
            adds = c.adds;
            few = omega (arith, c.few);
            counted = omega (arith, c.counted, got.1);
            read = 0;
            early = omega arith;
            number = ground (arith, same);
            own = λ w. absurd (got.2 w);
          }
    ]

-- Two packets of a session that do not overlap get different sequence numbers, whatever else goes on:
-- packet `i` has its number before packet `j` makes its first step, and there are fewer than 2^18
-- turns in all.
pub take_turns-numbers_differ :
    (earlier later : List ℕ) (i j sn sn' : ℕ) (s : Shared)
    → s.next_dl_pdcp_sn < 2 ^ 32
    → is_numbered (s.phase i) ≡ false
    → (take_turns earlier s).phase i ≡ numbered sn
    → (take_turns earlier s).phase j ≡ waiting
    → (take_turns later (take_turns earlier s)).phase j ≡ numbered sn'
    → length earlier + length later < 2 ^ 18
    → sn ≢ sn'
take_turns-numbers_differ earlier later i j sn sn' s word before first waits second few same =
    let n = take_turns-Number earlier i sn s word before first in
    let n' =
      take_turns-Number later j sn' (take_turns earlier s) (omega (arith, n.counted))
        (ground (arith, waits)) second in
    omega (
      arith,
      n.few,
      n.counted,
      n.early,
      n.number,
      n'.few,
      n'.early,
      n'.number,
      n'.own waits,
      same,
      few,
    )
