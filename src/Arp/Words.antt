-- ===== src/Arp/Words.antt =====
-- The conversions %Ns of lookup_mac_by_ip (artifact/stage_4/xdp_gtp_inner_parser_user.c) on words with
-- blanks between them.
use cu_ebpf.Base.{
  ℕ, zero, suc, ◌≤◌, ◌≡◌, ap, refl, true, false, List, [], ◌∷◌, ◌++◌, length, some, arith,
}
use cu_ebpf.Watcher.{is_nil}
use cu_ebpf.Arp.{is_space, skip_spaces, take_word, scan_word, cons_word}

abbrev pub NoSpaces : List ℕ → Type 0
NoSpaces [] = Unit
NoSpaces (c ∷ s) = (is_space c ≡ false) × NoSpaces s

-- A word that a buffer for `width` characters holds.
pub record IsWord (width : ℕ) (w : List ℕ) : Type 0 where
  pub some_text : is_nil w ≡ false
  pub plain : NoSpaces w
  pub short : length w ≤ width

-- `n` blanks in front.
abbrev pub blanks : ℕ → List ℕ → List ℕ
blanks zero s = s
blanks (suc n) s = 32 ∷ blanks n s

-- What may follow a word: the end, or a space.
abbrev pub Ends : List ℕ → Type 0
Ends [] = Unit
Ends (c ∷ s) = is_space c ≡ true

skip_spaces-blanks : (n : ℕ) (s : List ℕ) → skip_spaces (blanks n s) ≡ skip_spaces s
unfolding skip_spaces
skip_spaces-blanks zero s = refl
skip_spaces-blanks (suc n) s = skip_spaces-blanks n s

skip_spaces-word : (w s : List ℕ) → is_nil w ≡ false → NoSpaces w → skip_spaces (w ++ s) ≡ w ++ s
unfolding skip_spaces
skip_spaces-word [] s nonempty plain = ground arith
skip_spaces-word (c ∷ w) s nonempty plain = rw plain.0 refl

take_word-word :
    (width : ℕ) (w s : List ℕ)
    → NoSpaces w
    → length w ≤ width
    → Ends s
    → take_word width (w ++ s) ≡ (w, s)
unfolding take_word
take_word-word zero [] s plain short ends = refl
take_word-word zero (c ∷ w) s plain short ends = elim short [ ]
take_word-word (suc width) [] [] plain short ends = refl
take_word-word (suc width) [] (c ∷ s) plain short ends = rw ends refl
take_word-word (suc width) (c ∷ w) s plain short ends =
    rw plain.0 (ap (cons_word c) (take_word-word width w s plain.1 (omega arith) ends))

-- A conversion reads the next word, whatever blanks stand in front.
pub scan_word-word :
    (width n : ℕ) (w s : List ℕ)
    → IsWord width w
    → Ends s
    → scan_word width (blanks n (w ++ s)) ≡ some (w, s)
unfolding scan_word
scan_word-word width n w s is ends =
    rw
      (
        skip_spaces-blanks n (w ++ s),
        skip_spaces-word w s is.some_text is.plain,
        take_word-word width w s is.plain is.short ends,
        is.some_text,
      )
      refl
