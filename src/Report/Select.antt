-- ===== src/Report/Select.antt =====
-- Some of the lines that are printed.
use cu_ebpf.Base.{◌≡◌, ◌∙◌, ap, refl, Bool, true, false, List, [], ◌∷◌, ◌++◌, if◌then◌else◌, arith}
use cu_ebpf.Report.{Line, when}

-- The lines that pass a test, in their order.
abbrev pub selected : (Line → Bool) → List Line → List Line
selected has [] = []
selected has (l ∷ ls) = if has l then l ∷ selected has ls else selected has ls

module _ (has : Line → Bool) where
  pub selected-append : (a b : List Line) → selected has (a ++ b) ≡ selected has a ++ selected has b
  selected-append [] b = refl
  selected-append (l ∷ a) b = ground (arith, selected-append a b)

  pub selected-when :
      (b : Bool) (ls : List Line) → selected has ls ≡ ls → selected has (when b ls) ≡ when b ls
  selected-when true ls h = h
  selected-when false ls h = refl

  -- A part that is kept, in front of the rest.
  pub selected_keeps :
      (b : Bool) (ls rest kept_rest : List Line)
      → selected has ls ≡ ls
      → selected has rest ≡ kept_rest
      → selected has (when b ls ++ rest) ≡ when b ls ++ kept_rest
  selected_keeps true ls rest kept_rest h hr =
      selected-append ls rest
      ∙ ap (λ (x : List Line). x ++ selected has rest) h
      ∙ ap (λ (x : List Line). ls ++ x) hr
  selected_keeps false ls rest kept_rest h hr = hr

  -- A part that is left out.
  pub selected_drops :
      (b : Bool) (ls rest : List Line)
      → selected has ls ≡ []
      → selected has (when b ls ++ rest) ≡ selected has rest
  selected_drops true ls rest h =
      selected-append ls rest ∙ ap (λ (x : List Line). x ++ selected has rest) h
  selected_drops false ls rest h = refl
