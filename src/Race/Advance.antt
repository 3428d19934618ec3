-- ===== src/Race/Advance.antt =====
-- What one step of a call does when what it has read is what is known.
use cu_ebpf.Base.{
  ℕ, ◌≡◌, ◌≢◌, ◌∙◌, ap, sym, refl, true, false, inl, inr, Option-cases, none, some, ◌⊎◌, arith,
}
use mathlib.Core.Path.{subst}
use cu_ebpf.Session.{
  SessionCtx, SessionCtx-discrete, SessionMap, insert, zero_session, UpdateElem, IsUpdateElem,
  HasRoom, bpf_any, bpf_noexist, bpf_exist,
}
use cu_ebpf.Learner.{Learner, updated, ul_session}
use cu_ebpf.Learner.Entries.{noexist_cases}
use cu_ebpf.Race.{
  Position, idle, calling, resolving, populating, placing, told, built, writing, advance,
  session_for,
}

-- Both endpoints are known, the map is open, and the fast path is on.
pub record CanComplete (l : Learner) : Type 0 where
  pub on : l.disable_offload ≡ false
  pub f1u : l.f1u_ul_known ≡ true
  pub n3 : l.n3_ul_known ≡ true
  pub map : l.ul_map_open ≡ true

-- What a thread has read is what is known now.
abbrev pub UpToDate : Learner → SessionMap → Position → Type 0
UpToDate l m idle = Unit
UpToDate l m calling = Unit
UpToDate l m resolving = Unit
UpToDate l m (populating ul_teid) = ul_teid ≡ l.f1u_ul_teid
UpToDate l m (placing ul_teid) = ul_teid ≡ l.f1u_ul_teid
UpToDate l m (told key peer_teid dst_ip) =
    (key ≡ l.f1u_ul_teid) × (peer_teid ≡ l.n3_ul_teid) × (dst_ip ≡ l.n3_ul_ip)
UpToDate l m (built key sess) = (key ≡ l.f1u_ul_teid) × (sess ≡ ul_session l)
UpToDate l m (writing bpf_any key sess) = ⊥
UpToDate l m (writing bpf_noexist key sess) = (key ≡ l.f1u_ul_teid) × (sess ≡ ul_session l)
UpToDate l m (writing bpf_exist key sess) =
    (key ≡ l.f1u_ul_teid) × (sess ≡ ul_session l) × (m l.f1u_ul_teid ≢ none)

-- The thread is in a call that will write the entry, if no other one does.
abbrev pub WillWrite : Learner → SessionMap → Position → Type 0
WillWrite l m idle = ⊥
WillWrite l m resolving = ⊥
WillWrite l m (writing bpf_any key sess) = ⊥
WillWrite l m (writing bpf_noexist key sess) = m l.f1u_ul_teid ≡ none
WillWrite l m x = Unit

abbrev pub IsCurrent : Learner → SessionMap → Type 0
IsCurrent l m = m l.f1u_ul_teid ≡ some (ul_session l)

-- What one step does: the thread's readings stay up to date, an entry stays, and so does a current
-- one; a call that will write either has, or still will; and the first entry for the TEID is the
-- current one, or the thread goes on to write it.
pub record Advanced (l : Learner) (m : SessionMap) (x : Position) (m' : SessionMap) (x' : Position)
    : Type 0 where
  pub fresh : UpToDate l m' x'
  pub kept : m l.f1u_ul_teid ≢ none → m' l.f1u_ul_teid ≢ none
  pub current : IsCurrent l m → IsCurrent l m'
  pub will : WillWrite l m x → IsCurrent l m' ⊎ WillWrite l m' x'
  pub other :
      m l.f1u_ul_teid ≡ none → (m' l.f1u_ul_teid ≡ none) ⊎ (IsCurrent l m' ⊎ WillWrite l m' x')

-- A step that leaves the map as it is.
stays :
    (l : Learner) (m : SessionMap) (x x' : Position)
    → UpToDate l m x'
    → (WillWrite l m x → IsCurrent l m ⊎ WillWrite l m x')
    → Advanced l m x m x'
stays l m x x' f w = record {
  fresh = f;
  kept = λ h. h;
  current = λ h. h;
  will = w;
  other = λ n. inl n;
}

module _ (update : UpdateElem) (ok : IsUpdateElem update) (room : HasRoom update) (l : Learner)
    (can : CanComplete l) where
  session_for-now : session_for l l.n3_ul_teid l.n3_ul_ip ≡ ul_session l
  session_for-now = refl

  -- A step behind which the entry is current.
  writes : (m m' : SessionMap) (x : Position) → IsCurrent l m' → Advanced l m x m' idle
  writes m m' x now = record {
    fresh = tt;
    kept = λ h n. absurd (cc (now, n));
    current = λ h. now;
    will = λ h. inl now;
    other = λ h. inr (inl now);
  }

  -- What a step does, given what it gives.
  by_result :
      (m m' : SessionMap) (x x' : Position)
      → advance update l x m ≡ (x', m')
      → Advanced l m x m' x'
      → Advanced l m x (advance update l x m).1 (advance update l x m).0
  by_result m m' x x' e d = subst (λ (r : Position × SessionMap). Advanced l m x r.1 r.0) (sym e) d

  populating-result :
      (m : SessionMap) (ul_teid : ℕ)
      → ((m ul_teid ≢ none) × (advance update l (populating ul_teid) m ≡ (calling, m)))
        ⊎ ((m ul_teid ≡ none) × (advance update l (populating ul_teid) m ≡ (placing ul_teid, m)))
  unfolding advance
  populating-result m ul_teid = elim (Option-cases (m ul_teid)) [
    | inl n ↦ inr (n, rw (can.on, can.map, n) refl)
    | inr (old, e) ↦ inl (λ n. absurd (cc (n, e)), rw (can.on, can.map, e) refl)
  ]

  calling-result :
      (m : SessionMap)
      → advance update l calling m ≡ (told l.f1u_ul_teid l.n3_ul_teid l.n3_ul_ip, m)
  unfolding advance
  calling-result m = ground (arith, can.on, can.f1u, can.n3, can.map)

  -- What an update leaves under the TEID.
  placed :
      (m : SessionMap)
      → (updated (update bpf_noexist m l.f1u_ul_teid zero_session) m ≡ m) ⊎ (m l.f1u_ul_teid ≡ none)
  placed m = elim (noexist_cases update ok m l.f1u_ul_teid zero_session) [
    | inl same ↦ inl same
    | inr (n, e) ↦ inr n
  ]

  placing-Advanced :
      (m : SessionMap)
      → Advanced l m
          (placing l.f1u_ul_teid)
          (updated (update bpf_noexist m l.f1u_ul_teid zero_session) m)
          calling
  placing-Advanced m = elim (placed m) [
    | inl same ↦ rw same (stays l m (placing l.f1u_ul_teid) calling tt (λ h. inr tt))
    | inr n ↦ record {
      fresh = tt;
      kept = λ there. absurd (there n);
      current = λ now. absurd (cc (now, n));
      will = λ h. inr tt;
      other = λ h. inr (inr tt);
    }
  ]

  missing :
      (m : SessionMap)
      → m l.f1u_ul_teid ≡ none
      → advance update l (built l.f1u_ul_teid (ul_session l)) m
        ≡ (writing bpf_noexist l.f1u_ul_teid (ul_session l), m)
  unfolding advance
  missing m n = ground (arith, n)

  unchanged :
      (m : SessionMap) (old : SessionCtx)
      → m l.f1u_ul_teid ≡ some old
      → old ≡ ul_session l
      → advance update l (built l.f1u_ul_teid (ul_session l)) m ≡ (idle, m)
  unfolding advance
  unchanged m old e same = ground (arith, e, same)

  differs :
      (m : SessionMap) (old : SessionCtx)
      → m l.f1u_ul_teid ≡ some old
      → old ≢ ul_session l
      → advance update l (built l.f1u_ul_teid (ul_session l)) m
        ≡ (writing bpf_exist l.f1u_ul_teid (ul_session l), m)
  unfolding advance
  differs m old e changed = ground (arith, e, changed)

  built-Advanced :
      (m : SessionMap)
      → Advanced l m
          (built l.f1u_ul_teid (ul_session l))
          (advance update l (built l.f1u_ul_teid (ul_session l)) m).1
          (advance update l (built l.f1u_ul_teid (ul_session l)) m).0
  built-Advanced m = elim (Option-cases (m l.f1u_ul_teid)) [
    | inl n ↦
        by_result m m _ (writing bpf_noexist l.f1u_ul_teid (ul_session l)) (missing m n)
          (stays l m _ _ (refl, refl) (λ h. inr n))
    | inr (old, e) ↦ elim (SessionCtx-discrete old (ul_session l)) [
      | yes same ↦ by_result m m _ idle (unchanged m old e same) (writes m m _ (e ∙ ap some same))
      | no changed ↦
          by_result m m _ (writing bpf_exist l.f1u_ul_teid (ul_session l)) (differs m old e changed)
            (stays l m _ _ (refl, refl, λ n. absurd (cc (e, n))) (λ h. inr tt))
    ]
  ]

  stored :
      (m m' : SessionMap) (sess : SessionCtx)
      → m' ≡ insert l.f1u_ul_teid sess m
      → m' l.f1u_ul_teid ≡ some sess
  stored m m' sess e = ap (λ (f : SessionMap). f l.f1u_ul_teid) e ∙ ground arith

  noexist-Advanced :
      (m : SessionMap)
      → Advanced l m
          (writing bpf_noexist l.f1u_ul_teid (ul_session l))
          (updated (update bpf_noexist m l.f1u_ul_teid (ul_session l)) m)
          idle
  noexist-Advanced m = elim (Option-cases (m l.f1u_ul_teid)) [
    | inl n ↦
        rw (room.fresh m l.f1u_ul_teid (ul_session l) n)
          (writes m _ _ (stored m _ (ul_session l) refl))
    | inr (old, e) ↦ rw (ok.noexist m l.f1u_ul_teid old (ul_session l) e) (
        stays l m (writing bpf_noexist l.f1u_ul_teid (ul_session l)) idle tt
          (λ n. absurd (cc (e, n))))
  ]

  exist-Advanced :
      (m : SessionMap)
      → m l.f1u_ul_teid ≢ none
      → Advanced l m
          (writing bpf_exist l.f1u_ul_teid (ul_session l))
          (updated (update bpf_exist m l.f1u_ul_teid (ul_session l)) m)
          idle
  exist-Advanced m there = elim (Option-cases (m l.f1u_ul_teid)) [
    | inl n ↦ absurd (there n)
    | inr (old, e) ↦
        rw (room.present m l.f1u_ul_teid old (ul_session l) e)
          (writes m _ _ (stored m _ (ul_session l) refl))
  ]

  pub advance-Advanced :
      (m : SessionMap) (x : Position)
      → UpToDate l m x
      → Advanced l m x (advance update l x m).1 (advance update l x m).0
  advance-Advanced m idle f = unfold advance in stays l m idle idle tt (λ h. absurd h)
  advance-Advanced m resolving f =
      unfold advance in stays l m resolving resolving tt (λ h. absurd h)
  advance-Advanced m (populating ul_teid) f = elim (populating-result m ul_teid) [
    | inl (there, e) ↦ by_result m m _ calling e (stays l m _ _ tt (λ h. inr tt))
    | inr (n, e) ↦ by_result m m _ (placing ul_teid) e (stays l m _ _ f (λ h. inr tt))
  ]
  advance-Advanced m (placing ul_teid) f =
      subst
        (λ (k : ℕ).
          Advanced l m (placing k) (advance update l (placing k) m).1
            (advance update l (placing k) m).0)
        (sym f) (unfold advance in placing-Advanced m)
  advance-Advanced m calling f =
      by_result m m _ (told l.f1u_ul_teid l.n3_ul_teid l.n3_ul_ip) (calling-result m)
        (stays l m _ _ (refl, refl, refl) (λ h. inr tt))
  advance-Advanced m (told key peer_teid dst_ip) f =
      unfold advance in
      stays l m (told key peer_teid dst_ip) (built key (session_for l peer_teid dst_ip))
        (f.0, ap (session_for l peer_teid) f.2 ∙ ap (λ (t : ℕ). session_for l t l.n3_ul_ip) f.1)
        (λ h. inr tt)
  advance-Advanced m (built key sess) f =
      subst (λ (x : Position). Advanced l m x (advance update l x m).1 (advance update l x m).0)
        (ap (λ (k : ℕ). built k (ul_session l)) (sym f.0) ∙ ap (built key) (sym f.1))
        (built-Advanced m)
  advance-Advanced m (writing bpf_any key sess) f = absurd f
  advance-Advanced m (writing bpf_noexist key sess) f =
      subst (λ (x : Position). Advanced l m x (advance update l x m).1 (advance update l x m).0)
        (ap (λ (k : ℕ). writing bpf_noexist k (ul_session l)) (sym f.0)
          ∙ ap (writing bpf_noexist key) (sym f.1))
        (unfold advance in noexist-Advanced m)
  advance-Advanced m (writing bpf_exist key sess) f =
      subst (λ (x : Position). Advanced l m x (advance update l x m).1 (advance update l x m).0)
        (ap (λ (k : ℕ). writing bpf_exist k (ul_session l)) (sym f.0)
          ∙ ap (writing bpf_exist key) (sym f.1))
        (unfold advance in exist-Advanced m f.2)
