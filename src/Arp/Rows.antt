-- ===== src/Arp/Rows.antt =====
-- The entries of an ARP table as the text that lookup_mac_by_ip
-- (artifact/stage_4/xdp_gtp_inner_parser_user.c) reads.
use cu_ebpf.Base.{
  ℕ, zero, suc, ◌/◌, ◌%◌, ◌<◌, ◌≡◌, ◌∙◌, ap, sym, refl, false, List, [], ◌∷◌, ◌++◌, length, some,
  arith,
}
use mathlib.Core.List.{append_assoc}
use cu_ebpf.Session.{Mac}
use cu_ebpf.Watcher.HexTeid.{hex_digit, octet}
use cu_ebpf.Watcher.Transcript.{InLine, with_newline}
use cu_ebpf.Arp.{is_space, scan_line}
use cu_ebpf.Arp.Words.{IsWord, NoSpaces, blanks, scan_word-word}
use cu_ebpf.Arp.Octets.{MacFits, print_mac}

-- An entry of the ARP table, and the numbers of blanks behind the first that stand between its fields.
pub record Row : Type 0 where
  pub ip : List ℕ
  pub hwtype : List ℕ
  pub flags : List ℕ
  pub mac : Mac
  pub mask : List ℕ
  pub dev : List ℕ
  pub gap1 : ℕ
  pub gap2 : ℕ
  pub gap3 : ℕ
  pub gap4 : ℕ
  pub gap5 : ℕ

-- The text of an entry, in front of what follows.
abbrev pub row_text : Row → List ℕ → List ℕ
row_text r rest =
    r.ip
    ++ blanks (suc r.gap1) (
        r.hwtype
        ++ blanks (suc r.gap2) (
            r.flags
            ++ blanks (suc r.gap3) (
                print_mac r.mac
                ++ blanks (suc r.gap4) (r.mask ++ blanks (suc r.gap5) (r.dev ++ rest)))))

-- The fields are words that fit the buffers of lookup_mac_by_ip, and the line has no NUL and fits,
-- with its newline, the buffer of fgets.
pub record IsRow (r : Row) : Type 0 where
  pub ip : IsWord 63 r.ip
  pub hwtype : IsWord 15 r.hwtype
  pub flags : IsWord 15 r.flags
  pub mac : MacFits r.mac
  pub mask : IsWord 15 r.mask
  pub dev : IsWord 31 r.dev
  pub printed : InLine (row_text r [])
  pub fits : length (row_text r []) < 255

abbrev pub AreRows : List Row → Type 0
AreRows [] = Unit
AreRows (r ∷ rs) = IsRow r × AreRows rs

-- The entries, a line each.
abbrev pub table_text : List Row → List ℕ
table_text [] = []
table_text (r ∷ rs) = with_newline (row_text r []) (table_text rs)

digit_plain : (n : ℕ) → n < 16 → is_space (hex_digit n) ≡ false
digit_plain n h = ground arith

octet-NoSpaces : (b : ℕ) (s : List ℕ) → b < 256 → NoSpaces s → NoSpaces (octet b s)
octet-NoSpaces b s h plain =
    (digit_plain (b / 16) (omega arith), (digit_plain (b % 16) (omega arith), plain))

octet_colon-NoSpaces : (b : ℕ) (s : List ℕ) → b < 256 → NoSpaces s → NoSpaces (octet b (b':' ∷ s))
octet_colon-NoSpaces b s h plain = octet-NoSpaces b (b':' ∷ s) h (refl, plain)

print_mac-IsWord : (a : Mac) → MacFits a → IsWord 31 (print_mac a)
print_mac-IsWord a fits =
    let s5 : List ℕ = octet a.b5 [] in
    let s4 : List ℕ = octet a.b4 (b':' ∷ s5) in
    let s3 : List ℕ = octet a.b3 (b':' ∷ s4) in
    let s2 : List ℕ = octet a.b2 (b':' ∷ s3) in
    let s1 : List ℕ = octet a.b1 (b':' ∷ s2) in
    let p5 : NoSpaces s5 = octet-NoSpaces a.b5 [] fits.b5 tt in
    let p4 : NoSpaces s4 = octet_colon-NoSpaces a.b4 s5 fits.b4 p5 in
    let p3 : NoSpaces s3 = octet_colon-NoSpaces a.b3 s4 fits.b3 p4 in
    let p2 : NoSpaces s2 = octet_colon-NoSpaces a.b2 s3 fits.b2 p3 in
    let p1 : NoSpaces s1 = octet_colon-NoSpaces a.b1 s2 fits.b1 p2 in
    record {
      some_text = refl;
      plain = octet_colon-NoSpaces a.b0 s1 fits.b0 p1;
      short = omega arith;
    }

pub scan_line-row_text :
    (r : Row) → IsRow r → scan_line (row_text r (10 ∷ [])) ≡ some (r.ip, print_mac r.mac)
unfolding scan_line
scan_line-row_text r is =
    let s5 : List ℕ = 10 ∷ [] in
    let s4 : List ℕ = blanks (suc r.gap5) (r.dev ++ s5) in
    let s3 : List ℕ = blanks (suc r.gap4) (r.mask ++ s4) in
    let s2 : List ℕ = blanks (suc r.gap3) (print_mac r.mac ++ s3) in
    let s1 : List ℕ = blanks (suc r.gap2) (r.flags ++ s2) in
    let s0 : List ℕ = blanks (suc r.gap1) (r.hwtype ++ s1) in
    rw
      (
        scan_word-word 63 0 r.ip s0 is.ip refl,
        scan_word-word 15 (suc r.gap1) r.hwtype s1 is.hwtype refl,
        scan_word-word 15 (suc r.gap2) r.flags s2 is.flags refl,
        scan_word-word 31 (suc r.gap3) (print_mac r.mac) s3 (print_mac-IsWord r.mac is.mac) refl,
        scan_word-word 15 (suc r.gap4) r.mask s4 is.mask refl,
        scan_word-word 31 (suc r.gap5) r.dev s5 is.dev refl,
      )
      refl

blanks-append : (n : ℕ) (s rest : List ℕ) → blanks n (s ++ rest) ≡ blanks n s ++ rest
blanks-append zero s rest = refl
blanks-append (suc n) s rest = ap (λ (x : List ℕ). 32 ∷ x) (blanks-append n s rest)

-- A field, and the blanks in front of the next one.
field-append :
    (w : List ℕ) (n : ℕ) (s t rest : List ℕ)
    → t ≡ s ++ rest
    → w ++ blanks n t ≡ (w ++ blanks n s) ++ rest
field-append w n s t rest e =
    ap (λ (x : List ℕ). w ++ x) (ap (blanks n) e ∙ blanks-append n s rest)
    ∙ sym (append_assoc w (blanks n s) rest)

pub row_text-append : (r : Row) (rest : List ℕ) → row_text r rest ≡ row_text r [] ++ rest
row_text-append r rest = field-append r.ip (suc r.gap1) _ _ rest (
    field-append r.hwtype (suc r.gap2) _ _ rest (
      field-append r.flags (suc r.gap3) _ _ rest (
        field-append (print_mac r.mac) (suc r.gap4) _ _ rest
          (field-append r.mask (suc r.gap5) _ _ rest (sym (append_assoc r.dev [] rest))))))
