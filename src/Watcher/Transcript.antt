-- ===== src/Watcher/Transcript.antt =====
-- The watcher threads over a whole transcript of tshark: lines with a TEID and an address each.
use cu_ebpf.Base.{
  ℕ, suc, zero, ◌+◌, ◌%◌, ◌/◌, ◌^◌, ◌≤◌, ◌<◌, ◌≡◌, ◌≢◌, ◌∙◌, ap, refl, false, List, [], ◌∷◌, ◌++◌,
  some, length, take, arith,
}
use cu_ebpf.Watcher.{Inet, is_nil, fields_of, strip_newline, split_tab}
use cu_ebpf.Watcher.HexTeid.{print_teid, hex_digit}
use cu_ebpf.Watcher.Stream.{fgets, c_string, read_lines, read_lines-enough}

-- Bytes above the blank.
abbrev pub Printable : List ℕ → Type 0
Printable [] = Unit
Printable (c ∷ s) = (32 < c) × Printable s

-- An endpoint as tshark prints it: a TEID that is not 0, and the text of an address.
pub record Announcement (inet : Inet) : Type 0 where
  pub teid : ℕ
  pub ip : List ℕ
  pub addr : ℕ
  pub fits : teid < 2 ^ 32
  pub nonzero : teid ≢ 0
  pub printable : Printable ip
  pub there : is_nil ip ≡ false
  pub short : length ip ≤ 63
  pub reads : inet.pton ip ≡ some addr

-- The text of a line, up to its newline.
abbrev pub print_fields : List ℕ → List ℕ → List ℕ
print_fields teid ip = teid ++ (9 ∷ ip)

-- The line with its newline, in front of what follows.
abbrev pub with_newline : List ℕ → List ℕ → List ℕ
with_newline text rest = text ++ (10 ∷ rest)

-- Neither a NUL nor a newline.
abbrev pub InLine : List ℕ → Type 0
InLine [] = Unit
InLine (c ∷ s) = (c ≢ 0) × (c ≢ 10) × InLine s

InLine-print_fields : (a b : List ℕ) → Printable a → Printable b → InLine (print_fields a b)
InLine-print_fields [] [] ha hb = omega arith
InLine-print_fields [] (c ∷ b) ha hb =
    let rest = InLine-print_fields [] b ha hb.1 in
    (omega arith, omega arith, (omega arith, omega arith, rest.2))
InLine-print_fields (c ∷ a) b ha hb = (omega arith, omega arith, InLine-print_fields a b ha.1 hb)

strip_newline-with_newline :
    (text : List ℕ) → InLine text → strip_newline (with_newline text []) ≡ text
unfolding strip_newline
strip_newline-with_newline [] h = refl
strip_newline-with_newline (c ∷ a) h = ground (arith, strip_newline-with_newline a h.2)

pub c_string-with_newline :
    (text : List ℕ) → InLine text → c_string (with_newline text []) ≡ with_newline text []
unfolding c_string
c_string-with_newline [] h = refl
c_string-with_newline (c ∷ a) h = ground (arith, c_string-with_newline a h.2)

split_tab-print_fields : (a b : List ℕ) → Printable a → split_tab (print_fields a b) ≡ some (a, b)
unfolding split_tab
split_tab-print_fields [] b h = refl
split_tab-print_fields (c ∷ a) b h = ground (arith, split_tab-print_fields a b h.1)

pub fgets-with_newline :
    (text rest : List ℕ) (room : ℕ)
    → InLine text
    → length text < room
    → fgets room (with_newline text rest) ≡ (with_newline text [], rest)
unfolding fgets
fgets-with_newline text rest zero h short = absurd (omega arith)
fgets-with_newline [] rest (suc room) h short = refl
fgets-with_newline (c ∷ a) rest (suc room) h short =
    ground (arith, fgets-with_newline a rest room h.2)

take-all : (s : List ℕ) (n : ℕ) → length s ≤ n → take n s ≡ s
take-all [] zero h = refl
take-all [] (suc n) h = refl
take-all (c ∷ s) zero h = absurd (omega arith)
take-all (c ∷ s) (suc n) h = ap (λ (r : List ℕ). c ∷ r) (take-all s n (omega arith))

-- The two fields of a printed line.
pub fields_of-print_fields :
    (a b : List ℕ)
    → Printable a
    → Printable b
    → is_nil a ≡ false
    → is_nil b ≡ false
    → length a ≤ 63
    → length b ≤ 63
    → fields_of (with_newline (print_fields a b) []) ≡ some (a, b)
unfolding fields_of
fields_of-print_fields a b ha hb na nb la lb = ground (
  arith,
  strip_newline-with_newline (print_fields a b) (InLine-print_fields a b ha hb),
  split_tab-print_fields a b ha,
  take-all a 63 la,
  take-all b 63 lb,
)

hex_digit_printable : (n : ℕ) → 32 < hex_digit n
hex_digit_printable n = ground arith

pub print_teid-Printable : (t : ℕ) → Printable (print_teid t)
print_teid-Printable t = omega (
  arith,
  hex_digit_printable (t / 16777216 / 16),
  hex_digit_printable (t / 16777216 % 16),
  hex_digit_printable (t / 65536 % 256 / 16),
  hex_digit_printable (t / 65536 % 256 % 16),
  hex_digit_printable (t / 256 % 256 / 16),
  hex_digit_printable (t / 256 % 256 % 16),
  hex_digit_printable (t % 256 / 16),
  hex_digit_printable (t % 256 % 16),
)

-- One round of the loop takes a line that is shorter than the buffer.
read_line :
    {X : Type 0} (body : List ℕ → X → X) (fuel : ℕ) (text rest : List ℕ) (x : X)
    → InLine text
    → length text < 511
    → read_lines body (suc fuel) (with_newline text rest) x
      ≡ read_lines body fuel rest (body (with_newline text []) x)
unfolding read_lines
read_line body fuel [] rest x h short =
    rw (fgets-with_newline [] rest 511 h short, c_string-with_newline [] h)
read_line body fuel (c ∷ a) rest x h short =
    rw (fgets-with_newline (c ∷ a) rest 511 h short, c_string-with_newline (c ∷ a) h)

-- What tshark prints of the endpoints, one after another.
abbrev pub transcript : {inet : Inet} → List (Announcement inet) → List ℕ
transcript [] = []
transcript (x ∷ xs) = with_newline (print_fields (print_teid x.teid) x.ip) (transcript xs)

-- The body of the loop on the line of each endpoint.
abbrev pub hear_all :
    {inet : Inet} {X : Type 0} → (List ℕ → X → X) → List (Announcement inet) → X → X
hear_all body [] s = s
hear_all body (x ∷ xs) s =
    hear_all body xs (body (with_newline (print_fields (print_teid x.teid) x.ip) []) s)

length-print_fields : (a b : List ℕ) → length (print_fields a b) ≡ length a + length b + 1
length-print_fields [] b = omega arith
length-print_fields (c ∷ a) b = omega (arith, length-print_fields a b)

pub length-with_newline : (a b : List ℕ) → length (with_newline a b) ≡ length a + length b + 1
length-with_newline [] b = omega arith
length-with_newline (c ∷ a) b = omega (arith, length-with_newline a b)

-- With enough fuel the loop takes the lines one by one.
pub read_lines-transcript :
    {inet : Inet} {X : Type 0} (body : List ℕ → X → X) (xs : List (Announcement inet)) (fuel : ℕ)
    (s : X)
    → length (transcript xs) ≤ fuel
    → read_lines body fuel (transcript xs) s ≡ hear_all body xs s
read_lines-transcript body [] fuel s enough =
    read_lines-enough body fuel 0 [] s enough (omega arith) ∙ none_left
  where
    none_left : read_lines body 0 [] s ≡ s
    none_left = unfold read_lines in refl
read_lines-transcript body (x ∷ xs) zero s enough =
    absurd
      (omega (arith, length-with_newline (print_fields (print_teid x.teid) x.ip) (transcript xs)))
read_lines-transcript body (x ∷ xs) (suc fuel) s enough =
    let text : List ℕ = print_fields (print_teid x.teid) x.ip in
    read_line body fuel text (transcript xs) s
      (InLine-print_fields (print_teid x.teid) x.ip (print_teid-Printable x.teid) x.printable)
      (omega (arith, length-print_fields (print_teid x.teid) x.ip, x.short))
    ∙ read_lines-transcript body xs fuel (body (with_newline text []) s)
        (omega (arith, length-with_newline text (transcript xs)))
