-- ===== src/Startup/Cleanup.antt =====
-- What main of the stage 4 userspace program takes, it gives back, and when it waits.
use cu_ebpf.Base.{
  ℕ, ◌+◌, ◌≡◌, Bool, true, false, not, ◌&&◌, ◌||◌, ◌==◌, Option, none, some, List, [], ◌∷◌,
  if◌then◌else◌, arith,
}
use cu_ebpf.Startup.{
  XdpMode, drv_mode, skb_mode, du_mac_thread, upf_mac_thread, f1ap_thread, ngap_thread, Calls,
  Action, open_object, close_object, new_ring, free_ring, attach, detach, start, join, poll_ring,
  main,
}

abbrev same_mode : XdpMode → XdpMode → Bool
same_mode drv_mode drv_mode = true
same_mode skb_mode skb_mode = true
same_mode _ _ = false

-- Whether a sequence of actions takes and gives back in order, from a state on: whether the object
-- is open, the mode in which our program is attached, and whether there is a ring. A detachment
-- before the attachment is allowed; behind it, it has the mode of the attachment. Threads run only
-- while there is a ring.
abbrev pub gives_back : Bool → Option XdpMode → Bool → List Action → Bool
gives_back false none false [] = true
gives_back false none false (open_object ∷ rest) = gives_back true none false rest
gives_back true none false (close_object ∷ rest) = gives_back false none false rest
gives_back true none false (detach mode ∷ rest) = gives_back true none false rest
gives_back true none false (attach mode ∷ rest) = gives_back true (some mode) false rest
gives_back true (some mode) false (new_ring ∷ rest) = gives_back true (some mode) true rest
gives_back true (some mode) true (free_ring ∷ rest) = gives_back true (some mode) false rest
gives_back true (some mode) true (start t ∷ rest) = gives_back true (some mode) true rest
gives_back true (some mode) true (join t ∷ rest) = gives_back true (some mode) true rest
gives_back true (some mode) false (detach m ∷ rest) =
    same_mode mode m && gives_back true none false rest
gives_back _ _ _ _ = false

-- Every call up to the polling loop has worked.
abbrev pub starts : Calls → Bool
starts c =
    c.interface_found
    && c.egress_found
    && c.own_mac_works
    && c.opened
    && c.loaded
    && c.program_found
    && c.session_map_found
    && c.ul_session_map_found
    && (not c.force_skb_mode && c.native_attach_works || c.generic_attach_works)
    && c.events_found
    && c.ring_works
    && c.thread_starts du_mac_thread
    && c.thread_starts upf_mac_thread
    && c.thread_starts f1ap_thread
    && c.thread_starts ngap_thread

abbrev pub joins : List Action → ℕ
joins [] = 0
joins (join t ∷ rest) = 1 + joins rest
joins (a ∷ rest) = joins rest

-- On every path through main: ring, attachment and object are given back, each iff it was taken, in
-- order, and the mode of the attachment is kept; the exit status is 0 exactly if every call up to the
-- polling loop has worked. Exactly then main waits, for its four threads; `stop`, which ends them, is
-- set then exactly if no round of the loop has failed.
pub main-gives_back :
    (c : Calls)
    → (gives_back false none false (main c).actions ≡ true)
      × (((main c).exit_status == 0) ≡ starts c)
      × (joins (main c).actions ≡ (if starts c then 4 else 0))
      × ((main c).stopped ≡ (starts c && poll_ring c.rounds))
unfolding main
main-gives_back c = ground arith
