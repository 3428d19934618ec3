-- ===== src/Watcher/HexTeid.antt =====
-- parse_colon_hex_teid on the text that tshark prints, and its range.
use cu_ebpf.Base.{
  ℕ, ◌+◌, ◌*◌, ◌/◌, ◌%◌, ◌^◌, ◌<◌, ◌≡◌, ◌∙◌, ap, refl, List, [], ◌∷◌, ltb, if◌then◌else◌, arith,
}
use cu_ebpf.Watcher.{HexChar, colon, nibble, other, hex_char, parse_from, parse_colon_hex_teid}

-- A hexadecimal digit as tshark prints it.
abbrev pub hex_digit : ℕ → ℕ
hex_digit n = if ltb n 10 then b'0' + n else 87 + n

-- A TEID as four octets with colons between them.
abbrev pub octet : ℕ → List ℕ → List ℕ
octet b rest = hex_digit (b / 16) ∷ hex_digit (b % 16) ∷ rest

abbrev pub print_teid : ℕ → List ℕ
print_teid t =
    octet (t / 16777216)
      (b':' ∷ octet (t / 65536 % 256) (b':' ∷ octet (t / 256 % 256) (b':' ∷ octet (t % 256) [])))

pub hex_char-hex_digit : (n : ℕ) → n < 16 → hex_char (hex_digit n) ≡ nibble n
unfolding hex_char
hex_char-hex_digit n h = ground arith

parse_digit :
    (val n : ℕ) (rest : List ℕ)
    → n < 16
    → parse_from val (hex_digit n ∷ rest) ≡ parse_from (val * 16 % 2 ^ 32 + n) rest
unfolding parse_from
parse_digit val n rest h = rw (hex_char-hex_digit n h, parse_from)

parse_octet :
    (val b : ℕ) (rest : List ℕ)
    → b < 256
    → parse_from val (octet b rest) ≡ parse_from (val * 256 % 2 ^ 32 + b) rest
parse_octet val b rest h =
    parse_digit val (b / 16) (hex_digit (b % 16) ∷ rest) (omega arith)
    ∙ parse_digit (val * 16 % 2 ^ 32 + b / 16) (b % 16) rest (omega arith)
    ∙ ap (λ (v : ℕ). parse_from v rest) (omega arith)

parse_colon : (val : ℕ) (rest : List ℕ) → parse_from val (b':' ∷ rest) ≡ parse_from val rest
unfolding parse_from hex_char
parse_colon val rest = refl

parse_end : (val : ℕ) → parse_from val [] ≡ val
unfolding parse_from
parse_end val = refl

parse_octet_colon :
    (val b : ℕ) (rest : List ℕ)
    → b < 256
    → parse_from val (octet b (b':' ∷ rest)) ≡ parse_from (val * 256 % 2 ^ 32 + b) rest
parse_octet_colon val b rest h =
    parse_octet val b (b':' ∷ rest) h ∙ parse_colon (val * 256 % 2 ^ 32 + b) rest

parse_colon_hex_teid_lem : (s : List ℕ) → parse_colon_hex_teid s ≡ parse_from 0 s
unfolding parse_colon_hex_teid
parse_colon_hex_teid_lem s = refl

-- The parser reads back every 32-bit TEID from the text that tshark prints for it.
pub parse-print_teid : (t : ℕ) → t < 2 ^ 32 → parse_colon_hex_teid (print_teid t) ≡ t
parse-print_teid t h =
    parse_colon_hex_teid_lem (print_teid t)
    ∙ parse_octet_colon 0 (t / 16777216) _ (omega arith)
    ∙ parse_octet_colon _ (t / 65536 % 256) _ (omega arith)
    ∙ parse_octet_colon _ (t / 256 % 256) _ (omega arith)
    ∙ parse_octet _ (t % 256) [] (omega arith)
    ∙ parse_end _
    ∙ (omega arith)

nibble_lt : (c n : ℕ) → hex_char c ≡ nibble n → n < 16
unfolding hex_char
nibble_lt c n e = ground arith

parse_from-lt : (val : ℕ) (s : List ℕ) → val < 2 ^ 32 → parse_from val s < 2 ^ 32
unfolding parse_from
parse_from-lt val [] h = h
parse_from-lt val (c ∷ s) h =
    go (hex_char c) refl (parse_from-lt val s h) (λ v w. parse_from-lt v s w)
  where
    go :
        (x : HexChar)
        → hex_char c ≡ x
        → parse_from val s < 2 ^ 32
        → ((v : ℕ) → v < 2 ^ 32 → parse_from v s < 2 ^ 32)
        → (elim x [
          | colon ↦ parse_from val s
          | nibble n ↦ parse_from (val * 16 % 2 ^ 32 + n) s
          | other ↦ val
        ])
          < 2 ^ 32
    go colon e stay rest = stay
    go other e stay rest = h
    go (nibble n) e stay rest = rest _ (omega (arith, nibble_lt c n e))

-- Whatever the text, the value fits 32 bits: no digit overflows.
pub parse_colon_hex_teid-lt : (s : List ℕ) → parse_colon_hex_teid s < 2 ^ 32
unfolding parse_colon_hex_teid
parse_colon_hex_teid-lt s = parse_from-lt 0 s (omega arith)
