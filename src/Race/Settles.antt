-- ===== src/Race/Settles.antt =====
-- What the calls of maybe_complete_ul_session_map leave of the uplink entry when nothing is learned
-- while they run.
use cu_ebpf.Base.{ℕ, ◌+◌, ◌-◌, ◌≤◌, ◌≡◌, ◌∙◌, sym, refl, inl, inr, some, List, [], ◌∷◌, ◌⊎◌, arith}
use mathlib.Core.Path.{subst}
use cu_ebpf.Session.{SessionMap, UpdateElem, IsUpdateElem, HasRoom, bpf_any, bpf_noexist, bpf_exist}
use cu_ebpf.Learner.{Learner, ul_session}
use cu_ebpf.Race.{
  Position, idle, calling, resolving, populating, placing, told, built, writing, Caller,
  f1ap_caller, ngap_caller, upf_caller, advance, Threads, step, Happening, runs, happen, happen_all,
}
use cu_ebpf.Race.Advance.{CanComplete, UpToDate, WillWrite, IsCurrent, Advanced, advance-Advanced}

-- Another thread's readings stay up to date, and a call that will write still will, if the entry has
-- not become current and the thread of the step does not write it instead.
other_UpToDate :
    (l : Learner) (m m' : SessionMap) (x x' y : Position)
    → Advanced l m x m' x'
    → UpToDate l m y
    → UpToDate l m' y
other_UpToDate l m m' x x' idle d f = tt
other_UpToDate l m m' x x' calling d f = tt
other_UpToDate l m m' x x' resolving d f = tt
other_UpToDate l m m' x x' (populating ul_teid) d f = f
other_UpToDate l m m' x x' (placing ul_teid) d f = f
other_UpToDate l m m' x x' (told key peer_teid dst_ip) d f = f
other_UpToDate l m m' x x' (built key sess) d f = f
other_UpToDate l m m' x x' (writing bpf_any key sess) d f = f
other_UpToDate l m m' x x' (writing bpf_noexist key sess) d f = f
other_UpToDate l m m' x x' (writing bpf_exist key sess) d f = (f.0, f.1, d.kept f.2)

other_WillWrite :
    (l : Learner) (m m' : SessionMap) (x x' y : Position)
    → Advanced l m x m' x'
    → WillWrite l m y
    → WillWrite l m' y ⊎ (IsCurrent l m' ⊎ WillWrite l m' x')
other_WillWrite l m m' x x' idle d w = absurd w
other_WillWrite l m m' x x' calling d w = inl tt
other_WillWrite l m m' x x' resolving d w = absurd w
other_WillWrite l m m' x x' (populating ul_teid) d w = inl tt
other_WillWrite l m m' x x' (placing ul_teid) d w = inl tt
other_WillWrite l m m' x x' (told key peer_teid dst_ip) d w = inl tt
other_WillWrite l m m' x x' (built key sess) d w = inl tt
other_WillWrite l m m' x x' (writing bpf_any key sess) d w = absurd w
other_WillWrite l m m' x x' (writing bpf_noexist key sess) d w = d.other w
other_WillWrite l m m' x x' (writing bpf_exist key sess) d w = inl tt

-- The same for all three threads, the one of the step first.
goal_after :
    (l : Learner) (m m' : SessionMap) (x x' y z : Position)
    → Advanced l m x m' x'
    → IsCurrent l m ⊎ (WillWrite l m x ⊎ (WillWrite l m y ⊎ WillWrite l m z))
    → IsCurrent l m' ⊎ (WillWrite l m' x' ⊎ (WillWrite l m' y ⊎ WillWrite l m' z))
goal_after l m m' x x' y z d (inl now) = inl (d.current now)
goal_after l m m' x x' y z d (inr (inl own)) = elim (d.will own) [
  | inl now ↦ inl now
  | inr w ↦ inr (inl w)
]
goal_after l m m' x x' y z d (inr (inr (inl w))) = elim (other_WillWrite l m m' x x' y d w) [
  | inl w' ↦ inr (inr (inl w'))
  | inr (inl now) ↦ inl now
  | inr (inr own) ↦ inr (inl own)
]
goal_after l m m' x x' y z d (inr (inr (inr w))) = elim (other_WillWrite l m m' x x' z d w) [
  | inl w' ↦ inr (inr (inr w'))
  | inr (inl now) ↦ inl now
  | inr (inr own) ↦ inr (inl own)
]

exchange : {A B C D : Type 0} → A ⊎ (B ⊎ (C ⊎ D)) → A ⊎ (C ⊎ (B ⊎ D))
exchange (inl a) = inl a
exchange (inr (inl b)) = inr (inr (inl b))
exchange (inr (inr (inl c))) = inr (inl c)
exchange (inr (inr (inr d))) = inr (inr (inr d))

last_first : {A B C D : Type 0} → A ⊎ (B ⊎ (C ⊎ D)) → A ⊎ (D ⊎ (B ⊎ C))
last_first (inl a) = inl a
last_first (inr (inl b)) = inr (inr (inl b))
last_first (inr (inr (inl c))) = inr (inr (inr c))
last_first (inr (inr (inr d))) = inr (inl d)

first_last : {A B C D : Type 0} → A ⊎ (D ⊎ (B ⊎ C)) → A ⊎ (B ⊎ (C ⊎ D))
first_last (inl a) = inl a
first_last (inr (inl d)) = inr (inr (inr d))
first_last (inr (inr (inl b))) = inr (inl b)
first_last (inr (inr (inr c))) = inr (inr (inl c))

-- No thread holds a reading that is out of date, and a call is under way that will write the entry,
-- unless the entry is current.
pub record Settling (s : Threads) : Type 0 where
  pub f1ap : UpToDate s.learner s.ul_map s.f1ap
  pub ngap : UpToDate s.learner s.ul_map s.ngap
  pub upf : UpToDate s.learner s.ul_map s.upf
  pub goal :
      IsCurrent s.learner s.ul_map
      ⊎ (WillWrite s.learner s.ul_map s.f1ap
          ⊎ (WillWrite s.learner s.ul_map s.ngap ⊎ WillWrite s.learner s.ul_map s.upf))

abbrev pub turns : List Caller → List Happening
turns [] = []
turns (w ∷ ws) = runs w ∷ turns ws

abbrev pub position : Caller → Threads → Position
position f1ap_caller s = s.f1ap
position ngap_caller s = s.ngap
position upf_caller s = s.upf

-- 1 for the same thread.
abbrev same : Caller → Caller → ℕ
same f1ap_caller f1ap_caller = 1
same ngap_caller ngap_caller = 1
same upf_caller upf_caller = 1
same v w = 0

abbrev pub count_turns : Caller → List Caller → ℕ
count_turns v [] = 0
count_turns v (w ∷ ws) = same v w + count_turns v ws

-- The steps that a call has left at most.
abbrev left : Position → ℕ
left idle = 0
left resolving = 0
left (populating ul_teid) = 6
left (placing ul_teid) = 5
left calling = 4
left (told key peer_teid dst_ip) = 3
left (built key sess) = 2
left (writing flag key sess) = 1

left-le : (x : Position) → left x ≤ 6
left-le x = ground arith

left-none : (l : Learner) (m : SessionMap) (x : Position) → left x ≡ 0 → WillWrite l m x → ⊥
left-none l m idle h w = w
left-none l m resolving h w = w
left-none l m (populating ul_teid) h w = absurd (omega (arith, h))
left-none l m (placing ul_teid) h w = absurd (omega (arith, h))
left-none l m calling h w = absurd (omega (arith, h))
left-none l m (told key peer_teid dst_ip) h w = absurd (omega (arith, h))
left-none l m (built key sess) h w = absurd (omega (arith, h))
left-none l m (writing flag key sess) h w = absurd (omega (arith, h))

module _ (update : UpdateElem) where
  left-advance :
      (l : Learner) (x : Position) (m : SessionMap) → left (advance update l x m).0 ≤ left x - 1
  unfolding advance
  left-advance l x m = ground arith

  left-step :
      (v w : Caller) (s : Threads)
      → left (position v (step update w s)) ≤ left (position v s) - same v w
  unfolding step
  left-step f1ap_caller f1ap_caller s = left-advance s.learner s.f1ap s.ul_map
  left-step ngap_caller ngap_caller s = left-advance s.learner s.ngap s.ul_map
  left-step upf_caller upf_caller s = left-advance s.learner s.upf s.ul_map
  left-step v w s = omega arith

  step-learner : (w : Caller) (s : Threads) → (step update w s).learner ≡ s.learner
  unfolding step
  step-learner f1ap_caller s = refl
  step-learner ngap_caller s = refl
  step-learner upf_caller s = refl

  learner-turns :
      (ws : List Caller) (s : Threads) → (happen_all update (turns ws) s).learner ≡ s.learner
  unfolding happen
  learner-turns [] s = refl
  learner-turns (w ∷ ws) s = learner-turns ws (step update w s) ∙ step-learner w s

  left-turns :
      (v : Caller) (ws : List Caller) (s : Threads)
      → left (position v (happen_all update (turns ws) s)) ≤ left (position v s) - count_turns v ws
  unfolding happen
  left-turns v [] s = omega arith
  left-turns v (w ∷ ws) s = omega (arith, left-turns v ws (step update w s), left-step v w s)

  module _ (ok : IsUpdateElem update) (room : HasRoom update) where
    step-Settling :
        (w : Caller) (s : Threads) → CanComplete s.learner → Settling s → Settling (step update w s)
    unfolding step
    step-Settling f1ap_caller s can st =
        let l = s.learner in
        let r = advance update l s.f1ap s.ul_map in
        let d = advance-Advanced update ok room l can s.ul_map s.f1ap st.f1ap in
        record {
          f1ap = d.fresh;
          ngap = other_UpToDate l s.ul_map r.1 s.f1ap r.0 s.ngap d st.ngap;
          upf = other_UpToDate l s.ul_map r.1 s.f1ap r.0 s.upf d st.upf;
          goal = goal_after l s.ul_map r.1 s.f1ap r.0 s.ngap s.upf d st.goal;
        }
    step-Settling ngap_caller s can st =
        let l = s.learner in
        let r = advance update l s.ngap s.ul_map in
        let d = advance-Advanced update ok room l can s.ul_map s.ngap st.ngap in
        record {
          f1ap = other_UpToDate l s.ul_map r.1 s.ngap r.0 s.f1ap d st.f1ap;
          ngap = d.fresh;
          upf = other_UpToDate l s.ul_map r.1 s.ngap r.0 s.upf d st.upf;
          goal = exchange (goal_after l s.ul_map r.1 s.ngap r.0 s.f1ap s.upf d (exchange st.goal));
        }
    step-Settling upf_caller s can st =
        let l = s.learner in
        let r = advance update l s.upf s.ul_map in
        let d = advance-Advanced update ok room l can s.ul_map s.upf st.upf in
        record {
          f1ap = other_UpToDate l s.ul_map r.1 s.upf r.0 s.f1ap d st.f1ap;
          ngap = other_UpToDate l s.ul_map r.1 s.upf r.0 s.ngap d st.ngap;
          upf = d.fresh;
          goal =
              first_last (goal_after l s.ul_map r.1 s.upf r.0 s.f1ap s.ngap d (last_first st.goal));
        }

    turns-Settling :
        (ws : List Caller) (s : Threads)
        → CanComplete s.learner
        → Settling s
        → Settling (happen_all update (turns ws) s)
    unfolding happen
    turns-Settling [] s can st = st
    turns-Settling (w ∷ ws) s can st =
        turns-Settling ws (step update w s)
          (subst (λ (l : Learner). CanComplete l) (sym (step-learner w s)) can)
          (step-Settling w s can st)

    finished :
        (v : Caller) (ws : List Caller) (s : Threads)
        → 6 ≤ count_turns v ws
        → left (position v (happen_all update (turns ws) s)) ≡ 0
    finished v ws s many = omega (arith, left-turns v ws s, left-le (position v s), many)

    -- The endpoints of the uplink are known, no thread holds a reading that is out of date, and a call
    -- is under way that has not chosen to leave the entry alone. Then, in whatever order the steps of
    -- the three threads come, once each has had six turns, the entry for the CU's TEID is the one for
    -- the tunnel, the address and the MAC address that are known. Assumed: nothing new is learned
    -- meanwhile, bpf_map_update_elem keeps its word, and the map has room.
    pub turns-settle :
        (ws : List Caller) (s : Threads)
        → CanComplete s.learner
        → Settling s
        → 6 ≤ count_turns f1ap_caller ws
        → 6 ≤ count_turns ngap_caller ws
        → 6 ≤ count_turns upf_caller ws
        → (happen_all update (turns ws) s).ul_map s.learner.f1u_ul_teid
          ≡ some (ul_session s.learner)
    turns-settle ws s can st f n u =
        let s' : Threads = happen_all update (turns ws) s in
        let none_left = λ (v : Caller) (many : 6 ≤ count_turns v ws).
          left-none s'.learner s'.ul_map (position v s') (finished v ws s many) in
        subst (λ (l : Learner). IsCurrent l s'.ul_map) (learner-turns ws s)
          (elim (turns-Settling ws s can st).goal [
            | inl now ↦ now
            | inr (inl w) ↦ absurd (none_left f1ap_caller f w)
            | inr (inr (inl w)) ↦ absurd (none_left ngap_caller n w)
            | inr (inr (inr w)) ↦ absurd (none_left upf_caller u w)
          ])
