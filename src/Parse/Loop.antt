-- ===== src/Parse/Loop.antt =====
-- Induction on the extension loop of parse_gtpu: what every round keeps of the event, the loop keeps,
-- and two packets on which every round does the same are walked alike.
use cu_ebpf.Base.{ℕ, zero, suc, Bool, ◌≤◌, ◌≡◌, refl, true, false, not, ◌||◌, ◌==◌, arith}
use cu_ebpf.Packet.{Packet}
use cu_ebpf.Event.{GtpEvent}
use cu_ebpf.Parse.{Flow, submit, next, walk_extension, walk_extensions}

-- The event of a stage has a property.
abbrev pub FlowHas : (GtpEvent → Type 0) → Flow → Type 0
FlowHas P (submit e c) = P e
FlowHas P (next e c n) = P e

pub walk_extensions-FlowHas :
    (P : GtpEvent → Type 0) (rounds : ℕ) (p : Packet)
    → ((e : GtpEvent) (c n : ℕ) → P e → FlowHas P (walk_extension p e c n))
    → (e : GtpEvent) (c n : ℕ) → P e
    → FlowHas P (walk_extensions rounds p e c n)
unfolding walk_extensions
walk_extensions-FlowHas P zero p keeps e c n has = has
walk_extensions-FlowHas P (suc r) p keeps e c n has =
    step (not e.flag_e || n == 0) (walk_extension p e c n) (keeps e c n has)
      (walk_extensions-FlowHas P r p keeps)
  where
    step :
        (b : Bool) (f : Flow)
        → FlowHas P f
        → ((e' : GtpEvent) (c' n' : ℕ) → P e' → FlowHas P (walk_extensions r p e' c' n'))
        → FlowHas P (elim b [
          | true ↦ next e c n
          | false ↦ elim f [
            | submit e' c' ↦ submit e' c'
            | next e' c' n' ↦ walk_extensions r p e' c' n'
          ]
        ])
    step true f w rest = has
    step false (submit e' c') w rest = w
    step false (next e' c' n') w rest = rest e' c' n' w

abbrev pub flow_map : (GtpEvent → GtpEvent) → Flow → Flow
flow_map g (submit e c) = submit (g e) c
flow_map g (next e c n) = next (g e) c n

-- Where a stage goes on, its cursor is at `low` or behind it.
abbrev pub FlowAbove : ℕ → Flow → Type 0
FlowAbove low (submit e c) = Unit
FlowAbove low (next e c n) = low ≤ c

pub walk_extensions-FlowAbove :
    (p : Packet) (low rounds : ℕ)
    → ((e : GtpEvent) (c n : ℕ) → low ≤ c → FlowAbove low (walk_extension p e c n))
    → (e : GtpEvent) (c n : ℕ) → low ≤ c
    → FlowAbove low (walk_extensions rounds p e c n)
unfolding walk_extensions
walk_extensions-FlowAbove p low zero above e c n h = h
walk_extensions-FlowAbove p low (suc r) above e c n h =
    step (not e.flag_e || n == 0) (walk_extension p e c n) (above e c n h)
      (walk_extensions-FlowAbove p low r above)
  where
    step :
        (b : Bool) (f : Flow)
        → FlowAbove low f
        → ((e' : GtpEvent) (c' n' : ℕ) → low ≤ c' → FlowAbove low (walk_extensions r p e' c' n'))
        → FlowAbove low (elim b [
          | true ↦ next e c n
          | false ↦ elim f [
            | submit e' c' ↦ submit e' c'
            | next e' c' n' ↦ walk_extensions r p e' c' n'
          ]
        ])
    step true f up rest = h
    step false (submit e' c') up rest = tt
    step false (next e' c' n') up rest = rest e' c' n' up

module _ (g : GtpEvent → GtpEvent) (p q : Packet) (low : ℕ)
    (flag : (e : GtpEvent) → (g e).flag_e ≡ e.flag_e)
    (alike : (e : GtpEvent) (c n : ℕ)
      → low ≤ c
      → walk_extension q (g e) c n ≡ flow_map g (walk_extension p e c n))
    (above : (e : GtpEvent) (c n : ℕ) → low ≤ c → FlowAbove low (walk_extension p e c n)) where
  pub walk_extensions-flow_map :
      (rounds : ℕ) (e : GtpEvent) (c n : ℕ)
      → low ≤ c
      → walk_extensions rounds q (g e) c n ≡ flow_map g (walk_extensions rounds p e c n)
  unfolding walk_extensions
  walk_extensions-flow_map zero e c n h = refl
  walk_extensions-flow_map (suc r) e c n h =
      step (walk_extension q (g e) c n) (walk_extension p e c n) (alike e c n h) (above e c n h)
        (walk_extensions-flow_map r)
    where
      step :
          (f' f : Flow)
          → f' ≡ flow_map g f
          → FlowAbove low f
          → ((e' : GtpEvent) (c' n' : ℕ)
              → low ≤ c'
              → walk_extensions r q (g e') c' n' ≡ flow_map g (walk_extensions r p e' c' n'))
          → elim (not (g e).flag_e || n == 0) [
            | true ↦ next (g e) c n
            | false ↦ elim f' [
              | submit e' c' ↦ submit e' c'
              | next e' c' n' ↦ walk_extensions r q e' c' n'
            ]
          ]
            ≡ flow_map g (elim (not e.flag_e || n == 0) [
              | true ↦ next e c n
              | false ↦ elim f [
                | submit e' c' ↦ submit e' c'
                | next e' c' n' ↦ walk_extensions r p e' c' n'
              ]
            ])
      step f' (submit e' c') same up rest = ground (arith, same, flag e)
      step f' (next e' c' n') same up rest = ground (arith, same, flag e, rest e' c' n' up)
