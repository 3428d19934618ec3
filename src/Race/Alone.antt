-- ===== src/Race/Alone.antt =====
-- A call of maybe_complete_ul_session_map that no other thread comes between.
use cu_ebpf.Base.{
  ℕ, zero, suc, ◌≡◌, ◌∙◌, ap, sym, refl, inl, inr, Option-cases, Bool-cases, ◌⊎◌, arith,
}
use cu_ebpf.Session.{SessionMap, UpdateElem, zero_session, bpf_noexist}
use cu_ebpf.Learner.{Learner, updated, maybe_populate_ul_session_map, maybe_complete_ul_session_map}
use cu_ebpf.Race.{Position, idle, calling, populating, placing, advance}

-- `n` steps of a thread in a row.
abbrev pub advances : UpdateElem → Learner → ℕ → Position × SessionMap → Position × SessionMap
advances update l zero r = r
advances update l (suc n) (x, m) = advances update l n (advance update l x m)

module _ (update : UpdateElem) (l : Learner) where
  completes :
      (m : SessionMap)
      → advances update l 4 (calling, m) ≡ (idle, maybe_complete_ul_session_map update l m)
  unfolding advance maybe_complete_ul_session_map
  completes m = ground arith

  completes_and_waits :
      (m : SessionMap)
      → advances update l 5 (calling, m) ≡ (idle, maybe_complete_ul_session_map update l m)
  unfolding advance maybe_complete_ul_session_map
  completes_and_waits m = ground arith

  -- The first step of maybe_populate_ul_session_map leaves it, or goes on to the update.
  pub populating_cases :
      (m : SessionMap) (ul_teid : ℕ)
      → ((advance update l (populating ul_teid) m ≡ (calling, m))
          × (maybe_populate_ul_session_map update l ul_teid m ≡ m))
        ⊎ ((advance update l (populating ul_teid) m ≡ (placing ul_teid, m))
            × (maybe_populate_ul_session_map update l ul_teid m
                ≡ updated (update bpf_noexist m ul_teid zero_session) m))
  unfolding advance maybe_populate_ul_session_map
  populating_cases m ul_teid = elim (Bool-cases l.disable_offload) [
    | inl off ↦ inl (ground (arith, off), ground (arith, off))
    | inr on ↦ elim (Bool-cases l.ul_map_open) [
      | inr closed ↦ inl (ground (arith, on, closed), ground (arith, on, closed))
      | inl opened ↦ elim (Option-cases (m ul_teid)) [
        | inl n ↦ inr (ground (arith, on, opened, n), ground (arith, on, opened, n))
        | inr (old, e) ↦ inl (ground (arith, on, opened, e), ground (arith, on, opened, e))
      ]
    ]
  ]

  placing-advance :
      (m : SessionMap) (ul_teid : ℕ)
      → advance update l (placing ul_teid) m
        ≡ (calling, updated (update bpf_noexist m ul_teid zero_session) m)
  unfolding advance
  placing-advance m ul_teid = refl

  populates :
      (m : SessionMap) (ul_teid : ℕ)
      → advances update l 6 (populating ul_teid, m) ≡ (
        idle,
        maybe_complete_ul_session_map update l (maybe_populate_ul_session_map update l ul_teid m),
      )
  populates m ul_teid = elim (populating_cases m ul_teid) [
    | inl (e, same) ↦
        ap (advances update l 5) e
        ∙ completes_and_waits m
        ∙ ap (λ (m' : SessionMap). (idle, maybe_complete_ul_session_map update l m')) (sym same)
    | inr (e, wrote) ↦
        ap (advances update l 5) e
        ∙ ap (advances update l 4) (placing-advance m ul_teid)
        ∙ completes (updated (update bpf_noexist m ul_teid zero_session) m)
        ∙ ap (λ (m' : SessionMap). (idle, maybe_complete_ul_session_map update l m')) (sym wrote)
  ]

  -- The steps of a call that no other thread comes between do what the two functions do at once: from
  -- the front of maybe_populate_ul_session_map, six steps leave the map that it and then
  -- maybe_complete_ul_session_map give; from the front of maybe_complete_ul_session_map, four steps
  -- leave the map that this one gives. The thread is idle behind them.
  pub alone_at_once :
      (m : SessionMap) (ul_teid : ℕ)
      → (advances update l 6 (populating ul_teid, m) ≡ (
        idle,
        maybe_complete_ul_session_map update l (maybe_populate_ul_session_map update l ul_teid m),
      ))
        × (advances update l 4 (calling, m) ≡ (idle, maybe_complete_ul_session_map update l m))
  alone_at_once m ul_teid = (populates m ul_teid, completes m)
