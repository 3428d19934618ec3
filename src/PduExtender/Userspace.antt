-- ===== src/PduExtender/Userspace.antt =====
-- pdu-extender/xdp_gtp_inner_parser_user.c: what print_event prints, in the values of Report, and main
-- by what its calls return. The label cleanup is that of stage 4.
use cu_ebpf.Base.{
  ◌≡◌, ◌==◌, Bool, true, false, not, ◌&&◌, none, some, List, [], ◌∷◌, ◌++◌, ltb, if◌then◌else◌,
  arith,
}
use cu_ebpf.Event.{GtpEvent}
use cu_ebpf.Report.{
  Line, no_gtpu_header, outer_path, udp_non_gtp_count, gtpu_found, version, protocol_type,
  message_type, gtp_length, teid, flags, sequence_number, npdu_number, first_extension,
  extension_headers, pdu_type, pdu_type_name, qfi, blank, when, print_inner, print_extensions,
  at_most_max,
}
use cu_ebpf.Startup.{
  skb_mode, PollResult, open_object, new_ring, attach, Ended, before, poll_ring, cleanup,
}
use cu_ebpf.Startup.Cleanup.{gives_back}

-- The lines that depend on what the packet has.
unfoldable pub print_options : GtpEvent → List Line
unfolding print_extensions pdu_type_name
print_options e =
    when e.sequence_present (sequence_number e.sequence_number ∷ [])
    ++ (when e.npdu_present (npdu_number e.npdu_number ∷ [])
        ++ (when e.flag_e (first_extension e.first_extension_type ∷ [])
            ++ (when (ltb 0 e.extension_count) (
                  extension_headers e.extension_count
                  ∷ print_extensions 0 (at_most_max e.extension_count) e.extension_types)
                ++ (when e.pdu_type_present (pdu_type e.pdu_type (pdu_type_name e.pdu_type) ∷ [])
                    ++ when e.qfi_present (qfi e.qfi ∷ [])))))

unfoldable pub print_event : GtpEvent → List Line
unfolding print_inner print_options
print_event e =
    if not e.is_gtpu
    then no_gtpu_header
      ∷ outer_path e.outer_src_ip e.outer_src_port e.outer_dst_ip e.outer_dst_port
      ∷ udp_non_gtp_count e.udp_non_gtpu_count
      ∷ []
    else gtpu_found e.gtpu_count
      ∷ outer_path e.outer_src_ip e.outer_src_port e.outer_dst_ip e.outer_dst_port
      ∷ (print_inner e
          ++ (version e.version
              ∷ protocol_type e.protocol_type (not (e.protocol_type == 0))
              ∷ message_type e.message_type (e.message_type == 255)
              ∷ gtp_length e.gtp_length
              ∷ teid e.teid
              ∷ flags e.flag_e e.flag_s e.flag_pn
              ∷ (print_options e ++ (blank ∷ []))))

-- What the calls of main give; `rounds` are the rounds of the polling loop until `stop` is set.
pub record Calls : Type 0 where
  pub interface_found : Bool
  pub opened : Bool
  pub loaded : Bool
  pub program_found : Bool
  pub attach_works : Bool
  pub events_found : Bool
  pub ring_works : Bool
  pub rounds : List PollResult

-- Behind a successful attach. A failed round leaves the loop with its error.
unfoldable pub with_program : Calls → Ended
unfolding cleanup poll_ring
with_program c = before (attach skb_mode ∷ []) (
    if not c.events_found
    then cleanup false (some skb_mode) true 1 false
    else if not c.ring_works
    then cleanup false (some skb_mode) true 1 false
    else before (new_ring ∷ []) (
        if poll_ring c.rounds
        then cleanup true (some skb_mode) true 0 true
        else cleanup true (some skb_mode) true 1 false))

unfoldable pub main : Calls → Ended
unfolding with_program
main c =
    if not c.interface_found
    then record { actions = []; exit_status = 1; stopped = false }
    else if not c.opened
    then cleanup false none false 1 false
    else before (open_object ∷ []) (
        if not c.loaded
        then cleanup false none true 1 false
        else if not c.program_found
        then cleanup false none true 1 false
        else if not c.attach_works
        then cleanup false none true 1 false
        else with_program c)

-- On every path through main of the PDU extender the ring is freed, the program is detached, and the
-- object is closed, in this order, each if and only if it was taken; the exit status is 0 exactly if
-- every call has worked and no round of the polling loop has failed, and then `stop` was set.
pub main-returns :
    (c : Calls)
    → (gives_back false none false (main c).actions ≡ true)
      × (((main c).exit_status == 0) ≡ (
          c.interface_found
          && c.opened
          && c.loaded
          && c.program_found
          && c.attach_works
          && c.events_found
          && c.ring_works
          && poll_ring c.rounds))
      × ((main c).stopped ≡ ((main c).exit_status == 0))
unfolding main
main-returns c = ground arith
