-- ===== src/Watcher/Stream.antt =====
-- The loops of f1ap_watcher_thread and ngap_watcher_thread over the output of tshark, byte by byte:
-- fgets into the buffer of 512 bytes, and the body of the loop on the text up to its first NUL. The
-- output is what comes until it ends or `stop` is set.
use cu_ebpf.Base.{
  ℕ, suc, zero, ◌≤◌, ◌<◌, ◌≡◌, refl, List, [], ◌∷◌, Option, none, some, ◌==◌, if◌then◌else◌, length,
  arith,
}
use cu_ebpf.Session.{SessionMap, UpdateElem}
use cu_ebpf.Learner.{Learner}
use cu_ebpf.Watcher.{Inet, f1ap_line, ngap_line}

abbrev pub onto_chunk : ℕ → List ℕ × List ℕ → List ℕ × List ℕ
onto_chunk c (chunk, rest) = (c ∷ chunk, rest)

-- fgets with room for so many bytes and the NUL: what it reads, and what is left of the stream.
unfoldable pub fgets : ℕ → List ℕ → List ℕ × List ℕ
fgets zero s = ([], s)
fgets (suc room) [] = ([], [])
fgets (suc room) (c ∷ s) = if c == 10 then (c ∷ [], s) else onto_chunk c (fgets room s)

-- The bytes of a buffer up to its first NUL.
unfoldable pub c_string : List ℕ → List ℕ
c_string [] = []
c_string (c ∷ s) = if c == 0 then [] else c ∷ c_string s

-- The loop, with fuel: fgets fails at the end of the stream.
unfoldable pub read_lines : {X : Type 0} → (List ℕ → X → X) → ℕ → List ℕ → X → X
read_lines body zero s x = x
read_lines body (suc fuel) [] x = x
read_lines body (suc fuel) (c ∷ s) x =
    let (line, rest) = fgets 511 (c ∷ s) in read_lines body fuel rest (body (c_string line) x)

-- f1ap_watcher_thread; `none` is a popen that fails. Every round takes a byte at least, so the
-- length of the output is enough fuel.
unfoldable pub f1ap_watcher_thread :
    Inet → UpdateElem → Option (List ℕ) → Learner × SessionMap → Learner × SessionMap
unfolding read_lines
f1ap_watcher_thread inet update none lm = lm
f1ap_watcher_thread inet update (some output) lm =
    read_lines (f1ap_line inet update) (length output) output lm

-- ngap_watcher_thread
unfoldable pub ngap_watcher_thread :
    Inet → UpdateElem → Option (List ℕ) → Learner × SessionMap → Learner × SessionMap
unfolding read_lines
ngap_watcher_thread inet update none lm = lm
ngap_watcher_thread inet update (some output) lm =
    read_lines (ngap_line inet update) (length output) output lm

fgets-le : (room : ℕ) (s : List ℕ) → length (fgets room s).1 ≤ length s
unfolding fgets
fgets-le zero s = omega arith
fgets-le (suc room) [] = omega arith
fgets-le (suc room) (c ∷ s) = ground (arith, fgets-le room s)

-- Every round takes a byte at least.
pub fgets-lt :
    (room : ℕ) (c : ℕ) (s : List ℕ) → length (fgets (suc room) (c ∷ s)).1 < length (c ∷ s)
unfolding fgets
fgets-lt room c s = ground (arith, fgets-le room s)

-- Any two amounts of fuel that are enough for the output, a round to a byte, give the same result.
pub read_lines-enough :
    {X : Type 0} (body : List ℕ → X → X) (f g : ℕ) (s : List ℕ) (x : X)
    → length s ≤ f
    → length s ≤ g
    → read_lines body f s x ≡ read_lines body g s x
unfolding read_lines
read_lines-enough body zero zero s x hf hg = refl
read_lines-enough body zero (suc g) [] x hf hg = refl
read_lines-enough body zero (suc g) (c ∷ s) x hf hg = absurd (omega arith)
read_lines-enough body (suc f) zero [] x hf hg = refl
read_lines-enough body (suc f) zero (c ∷ s) x hf hg = absurd (omega arith)
read_lines-enough body (suc f) (suc g) [] x hf hg = refl
read_lines-enough body (suc f) (suc g) (c ∷ s) x hf hg =
    read_lines-enough body f g (fgets 511 (c ∷ s)).1 (body (c_string (fgets 511 (c ∷ s)).0) x)
      (omega (arith, fgets-lt 510 c s)) (omega (arith, fgets-lt 510 c s))
