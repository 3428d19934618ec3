-- ===== src/PktCount/Counting.antt =====
-- What main of ebpf-pkt-count/xdp_count_user.c takes and gives back, and its exit status.
use cu_ebpf.Base.{
  ℕ, ◌≡◌, refl, Bool, true, false, ◌&&◌, ◌==◌, List, [], ◌∷◌, ◌++◌, Option, none, some, arith,
}
use cu_ebpf.PktCount.{
  Calls, Action, opened, attached, detached, closed, printed, read_loop, cleanup, main,
}

-- Whether a sequence of actions takes and gives back in order, from a state on: whether the object
-- is open, and whether the program is attached, which it is within the open object only. Totals are
-- printed while it is attached.
abbrev pub all_given_back : Bool → Bool → List Action → Bool
all_given_back false false [] = true
all_given_back false false (opened ∷ rest) = all_given_back true false rest
all_given_back true false (attached ∷ rest) = all_given_back true true rest
all_given_back true true (printed n ∷ rest) = all_given_back true true rest
all_given_back true true (detached ∷ rest) = all_given_back true false rest
all_given_back true false (closed ∷ rest) = all_given_back false false rest
all_given_back _ _ _ = false

all_given_back-read_loop :
    (reads : List (Option ℕ)) (rest : List Action)
    → all_given_back true true (read_loop reads ++ rest) ≡ all_given_back true true rest
unfolding read_loop
all_given_back-read_loop [] rest = refl
all_given_back-read_loop (none ∷ reads) rest = refl
all_given_back-read_loop (some n ∷ reads) rest = all_given_back-read_loop reads rest

-- On every path through main, what was opened is closed and what was attached is detached before
-- that, once each; but the exit status is 0 exactly if the interface was found and the object file
-- opened, so also if the program could not be loaded or attached.
pub main-all_given_back :
    (c : Calls)
    → (all_given_back false false (main c).0 ≡ true)
      × (((main c).1 == 0) ≡ (c.interface_found && c.opens))
unfolding main
main-all_given_back c = ground (arith, all_given_back-read_loop c.reads (cleanup true))
