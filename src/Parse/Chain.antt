-- ===== src/Parse/Chain.antt =====
-- The extension loop of parse_gtpu against the format of 3GPP TS 29.281: a chain of extension
-- headers, each with its length in units of four bytes in front and the type of its successor behind.
use cu_ebpf.Base.{
  ℕ, zero, suc, ◌+◌, ◌-◌, ◌*◌, ◌≤◌, ◌<◌, ◌≡◌, ◌≢◌, refl, sym, ap, ◌∙◌, inl, inr, true, false, not,
  ◌||◌, ◌==◌, Bool-cases, if◌then◌else◌, List, [], ◌∷◌, ◌++◌, length, take, set, arith,
}
use mathlib.Core.Path.{subst}
use mathlib.Core.List.{append_assoc, append-nil}
use cu_ebpf.Packet.{Packet}
use cu_ebpf.Event.{GtpEvent}
use cu_ebpf.Parse.{
  Flow, submit, next, record_extension, container_event, walk_extension, walk_extensions,
}

-- From `c` on, where an extension of type `n` is announced, extensions of the given types follow,
-- each of 1 to 64 units of four bytes, and the payload begins at `c'`. Type 0 announces none.
abbrev pub Chain : Packet → ℕ → ℕ → List ℕ → ℕ → Type 0
Chain p c n [] c' = (n ≡ 0) × (c' ≡ c)
Chain p c n (t ∷ ts) c' =
    (t ≡ n)
    × (n ≢ 0)
    × (0 < p.at c)
    × (p.at c ≤ 64)
    × (c + p.at c * 4 ≤ p.len)
    × Chain p (c + p.at c * 4) (p.at (c + p.at c * 4 - 1)) ts c'

-- What one round leaves in the event.
abbrev pub walked : Packet → GtpEvent → ℕ → ℕ → GtpEvent
walked p e c n =
    if n == 0x85 then container_event p (record_extension e n) c else record_extension e n

pub walk_extension-next :
    (p : Packet) (e : GtpEvent) (c n : ℕ)
    → 0 < p.at c
    → p.at c ≤ 64
    → c + p.at c * 4 ≤ p.len
    → walk_extension p e c n ≡ next (walked p e c n) (c + p.at c * 4) (p.at (c + p.at c * 4 - 1))
unfolding walk_extension
walk_extension-next p e c n low high room = ground arith

-- A round goes on behind a complete extension only.
record Goes (p : Packet) (e : GtpEvent) (c n : ℕ) (e' : GtpEvent) (c' n' : ℕ) : Type 0 where
  low : 0 < p.at c
  high : p.at c ≤ 64
  room : c + p.at c * 4 ≤ p.len
  event : e' ≡ walked p e c n
  cursor : c' ≡ c + p.at c * 4
  type : n' ≡ p.at (c + p.at c * 4 - 1)

walk_extension-Goes :
    (p : Packet) (e : GtpEvent) (c n : ℕ) (e' : GtpEvent) (c' n' : ℕ)
    → walk_extension p e c n ≡ next e' c' n'
    → Goes p e c n e' c' n'
unfolding walk_extension
walk_extension-Goes p e c n e' c' n' went = ground arith

pub walked-flag_e : (p : Packet) (e : GtpEvent) (c n : ℕ) → (walked p e c n).flag_e ≡ e.flag_e
unfolding record_extension container_event
walked-flag_e p e c n = ground arith

pub walk_extensions-stops :
    (rounds : ℕ) (p : Packet) (e : GtpEvent) (c : ℕ) → walk_extensions rounds p e c 0 ≡ next e c 0
unfolding walk_extensions
walk_extensions-stops zero p e c = refl
walk_extensions-stops (suc rounds) p e c = ground arith

pub walk_extensions-step :
    (rounds : ℕ) (p : Packet) (e : GtpEvent) (c n : ℕ) (e' : GtpEvent) (c' n' : ℕ)
    → e.flag_e ≡ true
    → n ≢ 0
    → walk_extension p e c n ≡ next e' c' n'
    → walk_extensions (suc rounds) p e c n ≡ walk_extensions rounds p e' c' n'
unfolding walk_extensions
walk_extensions-step rounds p e c n e' c' n' flag more went = ground (arith, went)

pub walk_extensions-submit :
    (rounds : ℕ) (p : Packet) (e : GtpEvent) (c n : ℕ) (e' : GtpEvent) (c' : ℕ)
    → e.flag_e ≡ true
    → n ≢ 0
    → walk_extension p e c n ≡ submit e' c'
    → walk_extensions (suc rounds) p e c n ≡ submit e' c'
unfolding walk_extensions
walk_extensions-submit rounds p e c n e' c' flag more went = ground (arith, went)

length-set {ℓ} : {A : Type ℓ} (xs : List A) (i : ℕ) (v : A) → length (set xs i v) ≡ length xs
length-set [] i v = refl
length-set (x ∷ xs) zero v = refl
length-set (x ∷ xs) (suc i) v = ap suc (length-set xs i v)

take-set {ℓ} :
    {A : Type ℓ} (xs : List A) (i : ℕ) (v : A)
    → i < length xs
    → take (suc i) (set xs i v) ≡ take i xs ++ (v ∷ [])
take-set [] i v low = ground arith
take-set (x ∷ xs) zero v low = refl
take-set (x ∷ xs) (suc i) v low = ap (λ l. x ∷ l) (take-set xs i v (omega arith))

-- `e'` has what `e` has, and `ts` behind the types that `e` had recorded.
pub record Records (e : GtpEvent) (ts : List ℕ) (e' : GtpEvent) : Type 0 where
  pub flag : e'.flag_e ≡ e.flag_e
  pub count : e'.extension_count ≡ e.extension_count + length ts
  pub types :
      take e'.extension_count e'.extension_types ≡ take e.extension_count e.extension_types ++ ts
  pub room : length e'.extension_types ≡ length e.extension_types

walked-Records :
    (p : Packet) (e : GtpEvent) (c n : ℕ)
    → e.extension_count < 4
    → length e.extension_types ≡ 4
    → Records e (n ∷ []) (walked p e c n)
unfolding record_extension container_event
walked-Records p e c n low four =
    let t = take-set e.extension_types e.extension_count n (omega arith) in
    let l = length-set e.extension_types e.extension_count n in
    record {
      flag = walked-flag_e p e c n;
      count = ground arith;
      types = ground (arith, t);
      room = ground (arith, l);
    }

Records-cons :
    (e : GtpEvent) (n : ℕ) (e' : GtpEvent) (ts : List ℕ) (e'' : GtpEvent)
    → Records e (n ∷ []) e'
    → Records e' ts e''
    → Records e (n ∷ ts) e''
Records-cons e n e' ts e'' first second = record {
  flag = second.flag ∙ first.flag;
  count = ground (arith, first.count, second.count);
  types =
      second.types
      ∙ ap (λ l. l ++ ts) first.types
      ∙ append_assoc (take e.extension_count e.extension_types) (n ∷ []) ts;
  room = second.room ∙ first.room;
}

-- Where a chain of extensions stands, the loop walks it to its end and records its types.
pub walk_extensions-follows :
    (rounds : ℕ) (p : Packet) (e : GtpEvent) (c n : ℕ) (ts : List ℕ) (c' : ℕ)
    → e.flag_e ≡ true
    → length e.extension_types ≡ 4
    → e.extension_count + length ts ≤ 4
    → length ts ≤ rounds
    → Chain p c n ts c'
    → (e' : GtpEvent) × (walk_extensions rounds p e c n ≡ next e' c' 0) × Records e ts e'
walk_extensions-follows rounds p e c n [] c' flag four few enough (done, end) = (
  e,
  rw (done, end) (walk_extensions-stops rounds p e c),
  record {
    flag = refl;
    count = omega arith;
    types = sym (append-nil (take e.extension_count e.extension_types));
    room = refl;
  },
)
walk_extensions-follows zero p e c n (t ∷ ts) c' flag four few enough _ = elim enough [ ]
walk_extensions-follows (suc rounds) p e c n (t ∷ ts) c' flag four few enough
      (same, more, low, high, room, rest) =
    let r = walked-Records p e c n (omega arith) four in
    let (e', went, later) =
      walk_extensions-follows rounds p (walked p e c n) (c + p.at c * 4) (p.at (c + p.at c * 4 - 1))
        ts c' (r.flag ∙ flag) (r.room ∙ four) (ground (arith, r.count)) (omega arith) rest in
    (
      e',
      walk_extensions-step rounds p e c n _ _ _ flag more
            (walk_extension-next p e c n low high room)
          ∙ went,
      rw same (Records-cons e n (walked p e c n) ts e' r later),
    )

move :
    (p : Packet) (ts : List ℕ) (c d n k c' : ℕ)
    → c ≡ d
    → n ≡ k
    → Chain p c n ts c'
    → Chain p d k ts c'
move p ts c d n k c' same_c same_n chain =
    subst (λ x. Chain p x k ts c') same_c (subst (λ x. Chain p c x ts c') same_n chain)

-- Where the loop comes to an end, a chain of extensions stands.
pub walk_extensions-Chain :
    (rounds : ℕ) (p : Packet) (e : GtpEvent) (c n : ℕ) (e' : GtpEvent) (c' : ℕ)
    → e.flag_e ≡ true
    → walk_extensions rounds p e c n ≡ next e' c' 0
    → (ts : List ℕ) × (length ts ≤ rounds) × Chain p c n ts c'
walk_extensions-Chain zero p e c n e' c' flag went = (
  [],
  omega arith,
  (unfold walk_extensions in ground (arith, went), unfold walk_extensions in ground (arith, went)),
)
walk_extensions-Chain (suc rounds) p e c n e' c' flag went = elim (Bool-cases (n == 0)) [
  | inl none_left ↦
      let z : n ≡ 0 = ground arith in
      let s : next e c 0 ≡ next e' c' 0 =
        sym (walk_extensions-stops (suc rounds) p e c)
        ∙ ap (λ x. walk_extensions (suc rounds) p e c x) (sym z)
        ∙ went in
      ([], omega arith, (z, ground (arith, s)))
  | inr more ↦
      let z : n ≢ 0 = ground arith in
      step (walk_extension p e c n) refl z (walk_extensions-Chain rounds p)
]
  where
    step :
        (f : Flow)
        → walk_extension p e c n ≡ f
        → n ≢ 0
        → ((e1 : GtpEvent) (c1 n1 : ℕ) (e2 : GtpEvent) (c2 : ℕ)
            → e1.flag_e ≡ true
            → walk_extensions rounds p e1 c1 n1 ≡ next e2 c2 0
            → (ts : List ℕ) × (length ts ≤ rounds) × Chain p c1 n1 ts c2)
        → (ts : List ℕ) × (length ts ≤ suc rounds) × Chain p c n ts c'
    step (submit e1 c1) eq z rest =
        let s : submit e1 c1 ≡ next e' c' 0 =
          sym (walk_extensions-submit rounds p e c n e1 c1 flag z eq) ∙ went in
        ground (arith, s)
    step (next e1 c1 n1) eq z rest =
        let g = walk_extension-Goes p e c n e1 c1 n1 eq in
        let (ts, few, chain) =
          rest e1 c1 n1 e' c' (ap (λ x. x.flag_e) g.event ∙ walked-flag_e p e c n ∙ flag)
            (sym (walk_extensions-step rounds p e c n e1 c1 n1 flag z eq) ∙ went) in
        (
          n ∷ ts,
          omega arith,
          (refl, z, g.low, g.high, g.room, move p ts _ _ _ _ c' g.cursor g.type chain),
        )

-- The extension loop terminates by itself: an extension takes four bytes at least, so any two numbers
-- of rounds that are enough for the bytes behind the cursor, counted four to a round, give the same
-- result. Assumed: the cursor is within the packet.
pub walk_extensions-ends :
    (r r' : ℕ) (p : Packet) (e : GtpEvent) (c n : ℕ)
    → c ≤ p.len
    → p.len < c + 4 * r
    → p.len < c + 4 * r'
    → walk_extensions r p e c n ≡ walk_extensions r' p e c n
unfolding walk_extensions
walk_extensions-ends zero r' p e c n low enough enough' = ground arith
walk_extensions-ends (suc r) zero p e c n low enough enough' = ground arith
walk_extensions-ends (suc r) (suc r') p e c n low enough enough' =
    step (walk_extension p e c n) (λ e' c' n' w. (walk_extension-Goes p e c n e' c' n' w))
      (walk_extensions-ends r r' p)
  where
    step :
        (f : Flow)
        → ((e' : GtpEvent) (c' n' : ℕ) → f ≡ next e' c' n' → Goes p e c n e' c' n')
        → ((e' : GtpEvent) (c' n' : ℕ)
            → c' ≤ p.len
            → p.len < c' + 4 * r
            → p.len < c' + 4 * r'
            → walk_extensions r p e' c' n' ≡ walk_extensions r' p e' c' n')
        → elim (not e.flag_e || n == 0) [
          | true ↦ next e c n
          | false ↦ elim f [
            | submit e' c' ↦ submit e' c'
            | next e' c' n' ↦ walk_extensions r p e' c' n'
          ]
        ]
          ≡ elim (not e.flag_e || n == 0) [
            | true ↦ next e c n
            | false ↦ elim f [
              | submit e' c' ↦ submit e' c'
              | next e' c' n' ↦ walk_extensions r' p e' c' n'
            ]
          ]
    step (submit e' c') goes rest = ground arith
    step (next e' c' n') goes rest =
        let g = goes e' c' n' refl in
        let q =
          rest e' c' n' (ground (arith, g.room, g.cursor)) (ground (arith, g.low, g.cursor))
            (ground (arith, g.low, g.cursor)) in
        ground (arith, q)
