-- ===== src/Startup.antt =====
-- Start and clean-up in main of artifact/stage_4/xdp_gtp_inner_parser_user.c: which resources it
-- takes and gives back, by what its calls return. A call that only reads or prints is left out.
pub mod Cleanup
use cu_ebpf.Base.{
  ℕ, Bool, true, false, not, ◌&&◌, Option, none, some, List, [], ◌∷◌, ◌++◌, if◌then◌else◌,
}

-- XDP_FLAGS_DRV_MODE and XDP_FLAGS_SKB_MODE
pub data XdpMode : Type 0 where
  drv_mode skb_mode : XdpMode

pub data Thread : Type 0 where
  du_mac_thread upf_mac_thread f1ap_thread ngap_thread : Thread

-- What ring_buffer__poll gives in a round of the loop: events or nothing, -EINTR, another error.
pub data PollResult : Type 0 where
  polled interrupted failed : PollResult

-- What the calls give; `rounds` are the rounds of the polling loop until `stop` is set.
pub record Calls : Type 0 where
  pub interface_found : Bool
  pub egress_found : Bool
  pub own_mac_works : Bool
  pub opened : Bool
  pub loaded : Bool
  pub program_found : Bool
  pub session_map_found : Bool
  pub ul_session_map_found : Bool
  pub force_skb_mode : Bool
  pub native_attach_works : Bool
  pub generic_attach_works : Bool
  pub events_found : Bool
  pub ring_works : Bool
  pub thread_starts : Thread → Bool
  pub rounds : List PollResult

-- What takes a resource, as it succeeds, and what gives one back, as it is called.
pub data Action : Type 0 where
  open_object close_object new_ring free_ring : Action
  attach detach : XdpMode → Action
  start join : Thread → Action

-- What is left at the end: the actions in their order, the exit status, and whether `stop` was set
-- when the polling loop was left (false if it was never entered).
pub record Ended : Type 0 where
  pub actions : List Action
  pub exit_status : ℕ
  pub stopped : Bool

abbrev pub before : List Action → Ended → Ended
before done r = record r { actions = done ++ r.actions }

-- Whether the polling loop is left because `stop` is set.
unfoldable pub poll_ring : List PollResult → Bool
poll_ring [] = true
poll_ring (polled ∷ rounds) = poll_ring rounds
poll_ring (interrupted ∷ rounds) = poll_ring rounds
poll_ring (failed ∷ rounds) = false

-- From the label cleanup on; freeing a null ring and closing a null object do nothing.
unfoldable pub cleanup : Bool → Option XdpMode → Bool → ℕ → Bool → Ended
cleanup ring attached object status stopped = record {
  actions =
      (if ring then free_ring ∷ [] else [])
      ++ ((elim attached [ none ↦ [] | some mode ↦ detach mode ∷ [] ])
          ++ (if object then close_object ∷ [] else []));
  exit_status = status;
  stopped = stopped;
}

-- From the first pthread_create on; every error is overwritten by `error = 0` behind the loop.
unfoldable pub start_threads : Calls → XdpMode → Ended
unfolding cleanup poll_ring
start_threads c mode =
    if not (c.thread_starts du_mac_thread)
    then cleanup true (some mode) true 1 false
    else before (start du_mac_thread ∷ []) (
        if not (c.thread_starts upf_mac_thread)
        then cleanup true (some mode) true 1 false
        else before (start upf_mac_thread ∷ []) (
            if not (c.thread_starts f1ap_thread)
            then cleanup true (some mode) true 1 false
            else before (start f1ap_thread ∷ []) (
                if not (c.thread_starts ngap_thread)
                then cleanup true (some mode) true 1 false
                else before
                    (start ngap_thread
                      ∷ join f1ap_thread
                      ∷ join ngap_thread
                      ∷ join du_mac_thread
                      ∷ join upf_mac_thread
                      ∷ [])
                    (cleanup true (some mode) true 0 (poll_ring c.rounds)))))

-- Behind a successful attach.
unfoldable pub with_program : Calls → XdpMode → Ended
unfolding start_threads
with_program c mode = before (attach mode ∷ []) (
    if not c.events_found
    then cleanup false (some mode) true 1 false
    else if not c.ring_works
    then cleanup false (some mode) true 1 false
    else before (new_ring ∷ []) (start_threads c mode))

-- Both modes are detached first, for a clean slate; then native mode is tried, unless
-- FORCE_SKB_MODE is set, and generic mode if that does not work.
unfoldable pub attach_program : Calls → Ended
unfolding with_program
attach_program c = before (detach drv_mode ∷ detach skb_mode ∷ []) (
    if not c.force_skb_mode && c.native_attach_works
    then with_program c drv_mode
    else if c.generic_attach_works
    then with_program c skb_mode
    else cleanup false none true 1 false)

unfoldable pub main : Calls → Ended
unfolding attach_program
main c =
    if not c.interface_found
    then record { actions = []; exit_status = 1; stopped = false }
    else if not c.egress_found
    then record { actions = []; exit_status = 1; stopped = false }
    else if not c.own_mac_works
    then record { actions = []; exit_status = 1; stopped = false }
    else if not c.opened
    then cleanup false none false 1 false
    else before (open_object ∷ []) (
        if not c.loaded
        then cleanup false none true 1 false
        else if not c.program_found
        then cleanup false none true 1 false
        else if not c.session_map_found
        then cleanup false none true 1 false
        else if not c.ul_session_map_found
        then cleanup false none true 1 false
        else attach_program c)
