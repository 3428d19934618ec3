-- ===== src/Arp.antt =====
-- lookup_mac_by_ip and parse_mac of artifact/stage_4/xdp_gtp_inner_parser_user.c: the MAC address
-- that the text of /proc/net/arp has for an address, read by fgets into a buffer of 256 bytes. sscanf
-- is written out as far as the two formats use it.
pub mod Words
pub mod Octets
pub mod Rows
pub mod Table
pub mod Probe
use cu_ebpf.Base.{
  ℕ, zero, suc, ◌+◌, ◌-◌, ◌*◌, ◌%◌, ◌^◌, Bool, true, false, not, ◌&&◌, ◌||◌, List, [], ◌∷◌, Option,
  none, some, ltb, leb, ◌==◌, if◌then◌else◌, length,
}
use cu_ebpf.Session.{Mac}
use cu_ebpf.Watcher.Stream.{fgets, c_string}
use cu_ebpf.Watcher.{HexChar, colon, nibble, other, hex_char, str_eq, is_nil}

abbrev pub and_then {ℓ} : {A B : Type ℓ} → Option A → (A → Option B) → Option B
and_then none f = none
and_then (some a) f = f a

-- isspace: blank, tab, newline, vertical tab, form feed, carriage return.
abbrev pub is_space : ℕ → Bool
is_space c = c == 32 || leb 9 c && leb c 13

unfoldable pub skip_spaces : List ℕ → List ℕ
skip_spaces [] = []
skip_spaces (c ∷ s) = let rest = skip_spaces s in if is_space c then rest else c ∷ s

abbrev pub cons_word : ℕ → List ℕ × List ℕ → List ℕ × List ℕ
cons_word c (word, rest) = (c ∷ word, rest)

-- Characters up to the next space, `width` at most, and what is left.
unfoldable pub take_word : ℕ → List ℕ → List ℕ × List ℕ
take_word zero s = ([], s)
take_word (suc width) [] = ([], [])
take_word (suc width) (c ∷ s) =
    let rest = take_word width s in if is_space c then ([], c ∷ s) else cons_word c rest

-- A conversion %Ns.
unfoldable pub scan_word : ℕ → List ℕ → Option (List ℕ × List ℕ)
unfolding skip_spaces take_word
scan_word width s =
    let (word, rest) = take_word width (skip_spaces s) in
    if is_nil word then none else some (word, rest)

-- The digits of a conversion %x, of which there is one at least.
unfoldable pub scan_digits : ℕ → Bool → List ℕ → Option (ℕ × List ℕ)
scan_digits value seen [] = if seen then some (value, []) else none
scan_digits value seen (c ∷ s) = elim (hex_char c) [
  | nibble n ↦ scan_digits (value * 16 + n) true s
  | colon ↦ if seen then some (value, c ∷ s) else none
  | other ↦ if seen then some (value, c ∷ s) else none
]

-- A prefix 0x or 0X is no part of the number.
abbrev pub skip_prefix : List ℕ → List ℕ
skip_prefix [] = []
skip_prefix (c ∷ []) = c ∷ []
skip_prefix (c ∷ d ∷ s) = if c == b'0' && (d == b'x' || d == b'X') then s else c ∷ d ∷ s

-- strtoul stops at ULONG_MAX, and negates behind a minus sign; the unsigned int keeps 32 bits.
abbrev pub to_unsigned : Bool → ℕ → ℕ
to_unsigned negative value =
    (if not (ltb value (2 ^ 64))
      then 2 ^ 64 - 1
      else if negative
      then (2 ^ 64 - value) % 2 ^ 64
      else value)
    % 2 ^ 32

abbrev pub unsigned_left : Bool → ℕ × List ℕ → ℕ × List ℕ
unsigned_left negative (value, rest) = (to_unsigned negative value, rest)

abbrev pub scan_signed : Bool → List ℕ → Option (ℕ × List ℕ)
scan_signed negative s =
    and_then (scan_digits 0 false (skip_prefix s))
      (λ (r : ℕ × List ℕ). some (unsigned_left negative r))

-- Behind the spaces of a conversion %x.
abbrev pub scan_number : List ℕ → Option (ℕ × List ℕ)
scan_number [] = none
scan_number (c ∷ s) =
    if c == b'-'
    then scan_signed true s
    else if c == b'+'
    then scan_signed false s
    else scan_signed false (c ∷ s)

-- A conversion %x.
unfoldable pub scan_hex : List ℕ → Option (ℕ × List ℕ)
unfolding skip_spaces scan_digits
scan_hex s = scan_number (skip_spaces s)

-- A colon and a conversion %x.
unfoldable pub scan_colon_hex : List ℕ → Option (ℕ × List ℕ)
unfolding scan_hex
scan_colon_hex [] = none
scan_colon_hex (c ∷ s) = if c == b':' then scan_hex s else none

-- parse_mac; each number is cut to a __u8. Text behind the sixth is not looked at.
unfoldable pub parse_mac : List ℕ → Option Mac
unfolding scan_hex scan_colon_hex
parse_mac str = and_then (scan_hex str) (λ (x0 : ℕ × List ℕ).
    and_then (scan_colon_hex x0.1) (λ (x1 : ℕ × List ℕ).
      and_then (scan_colon_hex x1.1) (λ (x2 : ℕ × List ℕ).
        and_then (scan_colon_hex x2.1) (λ (x3 : ℕ × List ℕ).
          and_then (scan_colon_hex x3.1) (λ (x4 : ℕ × List ℕ).
            and_then (scan_colon_hex x4.1) (λ (x5 : ℕ × List ℕ). some (record {
              b0 = x0.0 % 256;
              b1 = x1.0 % 256;
              b2 = x2.0 % 256;
              b3 = x3.0 % 256;
              b4 = x4.0 % 256;
              b5 = x5.0 % 256;
            })))))))

-- The six fields of a line; the address and the hardware address are all that is used.
unfoldable pub scan_line : List ℕ → Option (List ℕ × List ℕ)
unfolding scan_word
scan_line line = and_then (scan_word 63 line) (λ (ip : List ℕ × List ℕ).
    and_then (scan_word 15 ip.1) (λ (hwtype : List ℕ × List ℕ).
      and_then (scan_word 15 hwtype.1) (λ (flags : List ℕ × List ℕ).
        and_then (scan_word 31 flags.1) (λ (hwaddr : List ℕ × List ℕ).
          and_then (scan_word 15 hwaddr.1) (λ (mask : List ℕ × List ℕ).
            and_then (scan_word 31 mask.1) (λ (dev : List ℕ × List ℕ). some (ip.0, hwaddr.0)))))))

-- "00:00:00:00:00:00"
abbrev pub incomplete : List ℕ
incomplete =
    b'0' ∷ b'0' ∷ b':' ∷ b'0' ∷ b'0' ∷ b':' ∷ b'0' ∷ b'0' ∷ b':' ∷ b'0' ∷ b'0' ∷ b':' ∷ b'0' ∷ b'0'
    ∷ b':' ∷ b'0' ∷ b'0' ∷ []

abbrev pub is_complete_for : List ℕ → List ℕ × List ℕ → Bool
is_complete_for ip_str (ip, hwaddr) = str_eq ip ip_str && not (str_eq hwaddr incomplete)

-- The loop behind the header, with fuel: the first complete line for the address ends it. What fgets
-- leaves of a line that does not fit the buffer is the next line.
unfoldable pub lookup_lines : ℕ → List ℕ → List ℕ → Option Mac
unfolding fgets c_string scan_line parse_mac
lookup_lines zero ip_str s = none
lookup_lines (suc fuel) ip_str [] = none
lookup_lines (suc fuel) ip_str (c ∷ s) =
    let (line, tail) = fgets 255 (c ∷ s) in
    let rest = lookup_lines fuel ip_str tail in
    elim (scan_line (c_string line)) [
      | none ↦ rest
      | some fields ↦ if is_complete_for ip_str fields then parse_mac fields.1 else rest
    ]

-- The text of /proc/net/arp, `none` if it cannot be opened; the first line is the header. Every round
-- takes a byte at least, so the length of the text is enough fuel.
unfoldable pub lookup_mac_by_ip : Option (List ℕ) → List ℕ → Option Mac
unfolding lookup_lines
lookup_mac_by_ip none ip_str = none
lookup_mac_by_ip (some []) ip_str = none
lookup_mac_by_ip (some (c ∷ s)) ip_str =
    let (header, lines) = fgets 255 (c ∷ s) in lookup_lines (length lines) ip_str lines
