-- ===== src/Arp/Table.antt =====
-- lookup_mac_by_ip (artifact/stage_4/xdp_gtp_inner_parser_user.c) on the text of an ARP table, through
-- fgets and its buffer.
use cu_ebpf.Base.{
  ℕ, zero, suc, ◌≤◌, ◌<◌, ◌≡◌, ◌∙◌, ap, sym, refl, Bool, true, not, ◌&&◌, ◌==◌, List, [], ◌∷◌,
  length, Option, none, some, if◌then◌else◌, arith,
}
use cu_ebpf.Session.{Mac}
use cu_ebpf.Watcher.{str_eq}
use cu_ebpf.Watcher.HexTeid.{octet}
use cu_ebpf.Watcher.Stream.{fgets, fgets-lt, c_string}
use cu_ebpf.Watcher.Transcript.{
  InLine, with_newline, fgets-with_newline, c_string-with_newline, length-with_newline,
}
use cu_ebpf.Arp.{scan_line, parse_mac, incomplete, is_complete_for, lookup_lines, lookup_mac_by_ip}
use cu_ebpf.Arp.Octets.{MacFits, print_mac, parse_mac-print_mac}
use cu_ebpf.Arp.Rows.{
  Row, row_text, IsRow, AreRows, table_text, scan_line-row_text, row_text-append,
}

-- The address of an entry that is not complete yet.
abbrev pub is_zero_mac : Mac → Bool
is_zero_mac a =
    a.b0 == 0 && (a.b1 == 0 && (a.b2 == 0 && (a.b3 == 0 && (a.b4 == 0 && (a.b5 == 0 && true)))))

-- The first complete entry for an address.
abbrev pub mac_in : List Row → List ℕ → Option Mac
mac_in [] ip_str = none
mac_in (r ∷ rs) ip_str =
    if str_eq r.ip ip_str && not (is_zero_mac r.mac) then some r.mac else mac_in rs ip_str

str_eq-octet :
    (b : ℕ) (s t : List ℕ) → b < 256 → str_eq (octet b s) (b'0' ∷ b'0' ∷ t) ≡ (b == 0 && str_eq s t)
str_eq-octet b s t h = ground arith

str_eq-incomplete : (a : Mac) → MacFits a → str_eq (print_mac a) incomplete ≡ is_zero_mac a
str_eq-incomplete a fits =
    let z5 : List ℕ = b'0' ∷ b'0' ∷ [] in
    let z4 : List ℕ = b'0' ∷ b'0' ∷ b':' ∷ z5 in
    let z3 : List ℕ = b'0' ∷ b'0' ∷ b':' ∷ z4 in
    let z2 : List ℕ = b'0' ∷ b'0' ∷ b':' ∷ z3 in
    let z1 : List ℕ = b'0' ∷ b'0' ∷ b':' ∷ z2 in
    let s5 : List ℕ = octet a.b5 [] in
    let s4 : List ℕ = octet a.b4 (b':' ∷ s5) in
    let s3 : List ℕ = octet a.b3 (b':' ∷ s4) in
    let s2 : List ℕ = octet a.b2 (b':' ∷ s3) in
    let s1 : List ℕ = octet a.b1 (b':' ∷ s2) in
    str_eq-octet a.b0 (b':' ∷ s1) (b':' ∷ z1) fits.b0
    ∙ ap (λ (x : Bool). a.b0 == 0 && x)
        (str_eq-octet a.b1 (b':' ∷ s2) (b':' ∷ z2) fits.b1
          ∙ ap (λ (x : Bool). a.b1 == 0 && x)
              (str_eq-octet a.b2 (b':' ∷ s3) (b':' ∷ z3) fits.b2
                ∙ ap (λ (x : Bool). a.b2 == 0 && x)
                    (str_eq-octet a.b3 (b':' ∷ s4) (b':' ∷ z4) fits.b3
                      ∙ ap (λ (x : Bool). a.b3 == 0 && x)
                          (str_eq-octet a.b4 (b':' ∷ s5) (b':' ∷ z5) fits.b4
                            ∙ ap (λ (x : Bool). a.b4 == 0 && x)
                                (str_eq-octet a.b5 [] [] fits.b5)))))

-- What the loop does with the text of a line, given what the lines behind it give.
abbrev found_in : List ℕ → List ℕ → Option Mac → Option Mac
found_in ip_str line rest = elim (scan_line line) [
  | none ↦ rest
  | some fields ↦ if is_complete_for ip_str fields then parse_mac fields.1 else rest
]

-- One round of the loop on a line that fits the buffer.
lookup_line :
    (fuel : ℕ) (ip_str text rest : List ℕ)
    → InLine text
    → length text < 255
    → lookup_lines (suc fuel) ip_str (with_newline text rest)
      ≡ found_in ip_str (with_newline text []) (lookup_lines fuel ip_str rest)
unfolding lookup_lines
lookup_line fuel ip_str [] rest h short = refl
lookup_line fuel ip_str (c ∷ a) rest h short =
    ap (λ (r : List ℕ × List ℕ). found_in ip_str (c_string r.0) (lookup_lines fuel ip_str r.1))
      (fgets-with_newline (c ∷ a) rest 255 h short)
    ∙ ap (λ (line : List ℕ). found_in ip_str line (lookup_lines fuel ip_str rest))
        (c_string-with_newline (c ∷ a) h)

-- The line of an entry.
found_in-row :
    (ip_str : List ℕ) (r : Row) (rest : Option Mac)
    → IsRow r
    → found_in ip_str (with_newline (row_text r []) []) rest
      ≡ (if str_eq r.ip ip_str && not (is_zero_mac r.mac) then some r.mac else rest)
found_in-row ip_str r rest is =
    ap (λ (line : List ℕ). found_in ip_str line rest) (sym (row_text-append r (10 ∷ [])))
    ∙ ap
        (λ (x : Option (List ℕ × List ℕ)). elim x [
          | none ↦ rest
          | some fields ↦ if is_complete_for ip_str fields then parse_mac fields.1 else rest
        ])
        (scan_line-row_text r is)
    ∙ ap (λ (z : Bool). if str_eq r.ip ip_str && not z then parse_mac (print_mac r.mac) else rest)
        (str_eq-incomplete r.mac is.mac)
    ∙ ap (λ (m : Option Mac). if str_eq r.ip ip_str && not (is_zero_mac r.mac) then m else rest)
        (parse_mac-print_mac r.mac is.mac)

lookup_lines-mac_in :
    (fuel : ℕ) (ip_str : List ℕ) (rs : List Row)
    → AreRows rs
    → length (table_text rs) ≤ fuel
    → lookup_lines fuel ip_str (table_text rs) ≡ mac_in rs ip_str
lookup_lines-mac_in zero ip_str [] are enough = unfold lookup_lines in refl
lookup_lines-mac_in (suc fuel) ip_str [] are enough = unfold lookup_lines in refl
lookup_lines-mac_in zero ip_str (r ∷ rs) are enough =
    absurd (omega (arith, length-with_newline (row_text r []) (table_text rs)))
lookup_lines-mac_in (suc fuel) ip_str (r ∷ rs) are enough =
    let rest = lookup_lines fuel ip_str (table_text rs) in
    lookup_line fuel ip_str (row_text r []) (table_text rs) are.0.printed are.0.fits
    ∙ found_in-row ip_str r rest are.0
    ∙ ap
        (λ (m : Option Mac).
          if str_eq r.ip ip_str && not (is_zero_mac r.mac) then some r.mac else m)
        (lookup_lines-mac_in fuel ip_str rs are.1
          (omega (arith, length-with_newline (row_text r []) (table_text rs))))

-- A line of a text that fgets takes whole.
pub record FitsLine (text : List ℕ) : Type 0 where
  pub printed : InLine text
  pub fits : length text < 255

-- Over the text of an ARP table, with one blank or more between the fields, read by fgets into its
-- buffer, the lookup gives the MAC address of the first complete entry for the address, and none if
-- there is no such entry. Assumed: the header's text and each entry's have no NUL and no newline and
-- fit the buffer of 256 bytes with their newline; the fields are words that fit their buffers, and
-- MAC addresses are of bytes.
pub lookup_mac_by_ip-mac_in :
    (ip_str header : List ℕ) (rs : List Row)
    → FitsLine header
    → AreRows rs
    → lookup_mac_by_ip (some (with_newline header (table_text rs))) ip_str ≡ mac_in rs ip_str
unfolding lookup_mac_by_ip
lookup_mac_by_ip-mac_in ip_str [] rs line are =
    lookup_lines-mac_in (length (table_text rs)) ip_str rs are (omega arith)
lookup_mac_by_ip-mac_in ip_str (c ∷ header) rs line are =
    rw (fgets-with_newline (c ∷ header) (table_text rs) 255 line.printed line.fits)
      (lookup_lines-mac_in (length (table_text rs)) ip_str rs are (omega arith))

-- Any two amounts of fuel that are enough for the text, a round to a byte, give the same result.
pub lookup_lines-enough :
    (f g : ℕ) (ip_str s : List ℕ)
    → length s ≤ f
    → length s ≤ g
    → lookup_lines f ip_str s ≡ lookup_lines g ip_str s
unfolding lookup_lines
lookup_lines-enough zero zero ip_str s hf hg = refl
lookup_lines-enough zero (suc g) ip_str [] hf hg = refl
lookup_lines-enough zero (suc g) ip_str (c ∷ s) hf hg = absurd (omega arith)
lookup_lines-enough (suc f) zero ip_str [] hf hg = refl
lookup_lines-enough (suc f) zero ip_str (c ∷ s) hf hg = absurd (omega arith)
lookup_lines-enough (suc f) (suc g) ip_str [] hf hg = refl
lookup_lines-enough (suc f) (suc g) ip_str (c ∷ s) hf hg =
    ap (found_in ip_str (c_string (fgets 255 (c ∷ s)).0)) (
      lookup_lines-enough f g ip_str (fgets 255 (c ∷ s)).1 (omega (arith, fgets-lt 254 c s))
        (omega (arith, fgets-lt 254 c s)))
