-- ===== src/Stage2/Startup.antt =====
-- main of artifact/stage_2/construct_and_forward/xdp_gtp_inner_parser_user.c: which resources it
-- takes and gives back, by what its calls return. The label cleanup and the polling loop are those
-- of stage 4; there are one map and two threads. A call that only reads or prints is left out.
use cu_ebpf.Base.{
  ◌≡◌, ◌==◌, Bool, true, false, not, ◌&&◌, ◌||◌, none, some, List, [], ◌∷◌, if◌then◌else◌, arith,
}
use cu_ebpf.Startup.{
  XdpMode, drv_mode, skb_mode, PollResult, du_mac_thread, f1ap_thread, open_object, new_ring,
  attach, detach, start, join, Ended, before, poll_ring, cleanup,
}
use cu_ebpf.Startup.Cleanup.{gives_back, joins}

-- What the calls give; `rounds` are the rounds of the polling loop until `stop` is set.
pub record Calls : Type 0 where
  pub interface_found : Bool
  pub egress_found : Bool
  pub own_mac_works : Bool
  pub opened : Bool
  pub loaded : Bool
  pub program_found : Bool
  pub session_map_found : Bool
  pub force_skb_mode : Bool
  pub native_attach_works : Bool
  pub generic_attach_works : Bool
  pub events_found : Bool
  pub ring_works : Bool
  pub du_mac_starts : Bool
  pub f1ap_starts : Bool
  pub rounds : List PollResult

-- From the first pthread_create on; every error is overwritten by `error = 0` behind the loop.
unfoldable pub start_threads : Calls → XdpMode → Ended
unfolding cleanup poll_ring
start_threads c mode =
    if not c.du_mac_starts
    then cleanup true (some mode) true 1 false
    else before (start du_mac_thread ∷ []) (
        if not c.f1ap_starts
        then cleanup true (some mode) true 1 false
        else before (start f1ap_thread ∷ join f1ap_thread ∷ join du_mac_thread ∷ [])
            (cleanup true (some mode) true 0 (poll_ring c.rounds)))

-- Behind a successful attach.
unfoldable pub with_program : Calls → XdpMode → Ended
unfolding start_threads
with_program c mode = before (attach mode ∷ []) (
    if not c.events_found
    then cleanup false (some mode) true 1 false
    else if not c.ring_works
    then cleanup false (some mode) true 1 false
    else before (new_ring ∷ []) (start_threads c mode))

-- Both modes are detached first, for a clean slate; then native mode is tried, unless
-- FORCE_SKB_MODE is set, and generic mode if that does not work.
unfoldable pub attach_program : Calls → Ended
unfolding with_program
attach_program c = before (detach drv_mode ∷ detach skb_mode ∷ []) (
    if not c.force_skb_mode && c.native_attach_works
    then with_program c drv_mode
    else if c.generic_attach_works
    then with_program c skb_mode
    else cleanup false none true 1 false)

unfoldable pub main : Calls → Ended
unfolding attach_program
main c =
    if not c.interface_found
    then record { actions = []; exit_status = 1; stopped = false }
    else if not c.egress_found
    then record { actions = []; exit_status = 1; stopped = false }
    else if not c.own_mac_works
    then record { actions = []; exit_status = 1; stopped = false }
    else if not c.opened
    then cleanup false none false 1 false
    else before (open_object ∷ []) (
        if not c.loaded
        then cleanup false none true 1 false
        else if not c.program_found
        then cleanup false none true 1 false
        else if not c.session_map_found
        then cleanup false none true 1 false
        else attach_program c)

-- Every call up to the polling loop has worked.
abbrev pub starts : Calls → Bool
starts c =
    c.interface_found
    && c.egress_found
    && c.own_mac_works
    && c.opened
    && c.loaded
    && c.program_found
    && c.session_map_found
    && (not c.force_skb_mode && c.native_attach_works || c.generic_attach_works)
    && c.events_found
    && c.ring_works
    && c.du_mac_starts
    && c.f1ap_starts

-- On every path through main of stage 2 the ring is freed, the program is detached in the mode in
-- which it was attached, and the object is closed, in this order, each if and only if it was taken.
-- If every call up to the polling loop has worked, the exit status is 0, main waits for its two
-- threads, and `stop` is set then exactly if no round of the loop has failed; otherwise the exit
-- status is not 0 and main waits for no thread.
pub main-ends :
    (c : Calls)
    → (gives_back false none false (main c).actions ≡ true)
      × (((main c).exit_status == 0) ≡ starts c)
      × (joins (main c).actions ≡ (if starts c then 2 else 0))
      × ((main c).stopped ≡ (starts c && poll_ring c.rounds))
unfolding main
main-ends c = ground arith
