-- ===== src/PlaneCount/Cleanup.antt =====
-- What main of ebpf-udp-sctp-pkt-count/xdp_plane_count_user.c takes, it gives back.
use cu_ebpf.Base.{◌≡◌, Bool, true, false, ◌&&◌, ◌==◌, List, [], ◌∷◌, arith}
use cu_ebpf.PlaneCount.{
  Calls, Action, open_object, attach_xdp, detach_xdp, close_object, zero_totals, poll, main,
}

-- Whether a sequence of actions takes and gives back in order, from a state on: whether the object
-- is open, and whether the program is attached, which it is within the open object only.
abbrev pub gives_back : Bool → Bool → List Action → Bool
gives_back false false [] = true
gives_back false false (open_object ∷ rest) = gives_back true false rest
gives_back true false (attach_xdp ∷ rest) = gives_back true true rest
gives_back true true (detach_xdp ∷ rest) = gives_back true false rest
gives_back true false (close_object ∷ rest) = gives_back false false rest
gives_back _ _ _ = false

-- Every call of main has worked, and so has every round.
abbrev pub all_work : Calls → Bool
all_work c =
    c.interface_found
    && c.opened
    && c.loaded
    && c.program_found
    && c.program_fd_valid
    && c.attach_works
    && c.map_found
    && c.map_fd_valid
    && (poll c.rounds zero_totals).exit_status == 0
    && c.detach_works

-- On every path through main, what was opened is closed and what was attached is detached before
-- that, once each; and the exit status is 0 exactly if every call has worked, the detachment and all
-- reads of the polling loop included.
pub cleanup-gives_back :
    (c : Calls) → (gives_back false false (main c).0 ≡ true) × (((main c).1 == 0) ≡ all_work c)
unfolding main
cleanup-gives_back c = ground arith
