-- ===== src/Arp/Octets.antt =====
-- parse_mac (artifact/stage_4/xdp_gtp_inner_parser_user.c) on the text that the kernel prints for a
-- MAC address.
use cu_ebpf.Base.{
  ℕ, ◌+◌, ◌*◌, ◌/◌, ◌%◌, ◌<◌, ◌≡◌, ◌∙◌, ap, refl, Bool, true, false, List, [], ◌∷◌, some, arith,
}
use cu_ebpf.Session.{Mac}
use cu_ebpf.Watcher.{hex_char}
use cu_ebpf.Watcher.HexTeid.{hex_digit, octet, hex_char-hex_digit}
use cu_ebpf.Arp.{
  and_then, skip_spaces, scan_digits, scan_number, scan_hex, scan_colon_hex, to_unsigned, parse_mac,
}

-- Six octets of two digits with colons between them.
abbrev pub print_mac : Mac → List ℕ
print_mac a = octet a.b0 (
    b':'
    ∷ octet a.b1 (b':' ∷ octet a.b2 (b':' ∷ octet a.b3 (b':' ∷ octet a.b4 (b':' ∷ octet a.b5 [])))))

-- The cells of an address are bytes.
pub record MacFits (a : Mac) : Type 0 where
  pub b0 : a.b0 < 256
  pub b1 : a.b1 < 256
  pub b2 : a.b2 < 256
  pub b3 : a.b3 < 256
  pub b4 : a.b4 < 256
  pub b5 : a.b5 < 256

-- What may follow a number: the end, or a colon.
abbrev Follows : List ℕ → Type 0
Follows [] = Unit
Follows (c ∷ s) = c ≡ b':'

scan_digits-end : (v : ℕ) (s : List ℕ) → Follows s → scan_digits v true s ≡ some (v, s)
unfolding scan_digits hex_char
scan_digits-end v [] f = refl
scan_digits-end v (c ∷ s) f = rw f refl

scan_digits-digit :
    (v n : ℕ) (seen : Bool) (s : List ℕ)
    → n < 16
    → scan_digits v seen (hex_digit n ∷ s) ≡ scan_digits (v * 16 + n) true s
unfolding scan_digits
scan_digits-digit v n seen s h = rw (hex_char-hex_digit n h, scan_digits) refl

skip_spaces-digit : (n : ℕ) (s : List ℕ) → n < 16 → skip_spaces (hex_digit n ∷ s) ≡ hex_digit n ∷ s
unfolding skip_spaces
skip_spaces-digit n s h = ground arith

scan_number-digits :
    (n k : ℕ) (s : List ℕ)
    → n < 16
    → k < 16
    → scan_number (hex_digit n ∷ hex_digit k ∷ s)
      ≡ and_then
          (scan_digits 0 false (hex_digit n ∷ hex_digit k ∷ s))
          (λ (r : ℕ × List ℕ). some (to_unsigned false r.0, r.1))
scan_number-digits n k s h h' = ground arith

scan_hex-octet : (b : ℕ) (s : List ℕ) → b < 256 → Follows s → scan_hex (octet b s) ≡ some (b, s)
unfolding scan_hex
scan_hex-octet b s h f =
    ap scan_number (skip_spaces-digit (b / 16) (hex_digit (b % 16) ∷ s) (omega arith))
    ∙ scan_number-digits (b / 16) (b % 16) s (omega arith) (omega arith)
    ∙ rw
        (
          scan_digits-digit 0 (b / 16) false (hex_digit (b % 16) ∷ s) (omega arith),
          scan_digits-digit (0 * 16 + b / 16) (b % 16) true s (omega arith),
          scan_digits-end ((0 * 16 + b / 16) * 16 + b % 16) s f,
        )
        (ap (λ (v : ℕ). some (v, s)) (ground arith))

scan_colon_hex-octet :
    (b : ℕ) (s : List ℕ) → b < 256 → Follows s → scan_colon_hex (b':' ∷ octet b s) ≡ some (b, s)
unfolding scan_colon_hex
scan_colon_hex-octet b s h f = scan_hex-octet b s h f

-- Every MAC address is read back from the text that the kernel prints for it.
pub parse_mac-print_mac : (a : Mac) → MacFits a → parse_mac (print_mac a) ≡ some a
unfolding parse_mac
parse_mac-print_mac a fits =
    let s5 : List ℕ = [] in
    let s4 : List ℕ = b':' ∷ octet a.b5 s5 in
    let s3 : List ℕ = b':' ∷ octet a.b4 s4 in
    let s2 : List ℕ = b':' ∷ octet a.b3 s3 in
    let s1 : List ℕ = b':' ∷ octet a.b2 s2 in
    let s0 : List ℕ = b':' ∷ octet a.b1 s1 in
    rw
      (
        scan_hex-octet a.b0 s0 fits.b0 refl,
        scan_colon_hex-octet a.b1 s1 fits.b1 refl,
        scan_colon_hex-octet a.b2 s2 fits.b2 refl,
        scan_colon_hex-octet a.b3 s3 fits.b3 refl,
        scan_colon_hex-octet a.b4 s4 fits.b4 refl,
        scan_colon_hex-octet a.b5 s5 fits.b5 tt,
      )
      (ground (arith, fits))
