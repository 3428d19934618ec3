-- ===== src/Report.antt =====
-- print_event of artifact/stage_4/xdp_gtp_inner_parser_user.c: what it prints of an event, a value for
-- each printf with the numbers that it formats. An address stands as the number that inet_ntop is
-- given; what the event does to session_map is Learner.print_event.
pub mod Fate
pub mod Select
use cu_ebpf.Base.{
  ℕ, ◌+◌, Bool, true, false, not, ◌&&◌, List, [], ◌∷◌, ◌++◌, ◌==◌, ltb, if◌then◌else◌, ℤ, suc, zero,
}
use cu_ebpf.Event.{GtpEvent}
use cu_ebpf.Parse.{max_extension_headers}

-- What ip_protocol_name and pdu_type_name give.
pub data ProtocolName : Type 0 where
  icmp tcp udp other_protocol : ProtocolName

pub data PduTypeName : Type 0 where
  dl_pdu_session_information ul_pdu_session_information other_reserved : PduTypeName

unfoldable pub ip_protocol_name : ℕ → ProtocolName
ip_protocol_name protocol =
    if protocol == 1
    then icmp
    else if protocol == 6
    then tcp
    else if protocol == 17
    then udp
    else other_protocol

unfoldable pub pdu_type_name : ℕ → PduTypeName
pdu_type_name pdu_type =
    if pdu_type == 0
    then dl_pdu_session_information
    else if pdu_type == 1
    then ul_pdu_session_information
    else other_reserved

-- "MISS", "HIT, READY" and "HIT, not ready (MAC/interface pending)"
pub data UlState : Type 0 where
  ul_miss ul_hit_ready ul_hit_not_ready : UlState

pub data Line : Type 0 where
  no_gtpu_header inner_unavailable offload_miss blank : Line
  outer_path : ℕ → ℕ → ℕ → ℕ → Line
  udp_non_gtp_count gtpu_found version gtp_length teid : ℕ → Line
  framing : Bool → Line
  inner_path : ℕ → ℕ → Line
  inner_protocol : ℕ → ProtocolName → Line
  protocol_type message_type : ℕ → Bool → Line
  flags : Bool → Bool → Bool → Line
  sequence_number npdu_number first_extension extension_headers pdcp_sn qfi : ℕ → Line
  extension : ℕ → ℕ → Line
  pdu_type : ℕ → PduTypeName → Line
  offload_hit : ℕ → ℕ → ℕ → Line
  debug_bytes : ℤ → ℤ → ℤ → Bool → Line
  debug_flags : ℕ → ℕ → Line
  ul_session_map_state : UlState → ℕ → Line

abbrev pub when : Bool → List Line → List Line
when b ls = if b then ls else []

-- The loop over the extension types, from index `i` on.
unfoldable pub print_extensions : ℕ → ℕ → List ℕ → List Line
print_extensions i zero types = []
print_extensions i (suc n) [] = []
print_extensions i (suc n) (t ∷ types) = extension i t ∷ print_extensions (i + 1) n types

abbrev pub at_most_max : ℕ → ℕ
at_most_max count = if ltb max_extension_headers count then max_extension_headers else count

unfoldable pub print_inner : GtpEvent → List Line
unfolding ip_protocol_name
print_inner e =
    if e.inner_ip_present
    then inner_path e.inner_src_ip e.inner_dst_ip
      ∷ inner_protocol e.inner_protocol (ip_protocol_name e.inner_protocol)
      ∷ []
    else inner_unavailable ∷ []

-- The lines that depend on what the packet has.
unfoldable pub print_optional : GtpEvent → List Line
unfolding print_extensions pdu_type_name
print_optional e =
    when e.sequence_present (sequence_number e.sequence_number ∷ [])
    ++ (when e.npdu_present (npdu_number e.npdu_number ∷ [])
        ++ (when e.flag_e (first_extension e.first_extension_type ∷ [])
            ++ (when (ltb 0 e.extension_count) (
                  extension_headers e.extension_count
                  ∷ print_extensions 0 (at_most_max e.extension_count) e.extension_types)
                ++ (when e.pdu_type_present (pdu_type e.pdu_type (pdu_type_name e.pdu_type) ∷ [])
                    ++ (when e.f1u_pdcp_sn_present (pdcp_sn e.f1u_pdcp_sn ∷ [])
                        ++ when e.qfi_present (qfi e.qfi ∷ []))))))

unfoldable pub print_header : GtpEvent → List Line
unfolding print_inner print_optional
print_header e =
    gtpu_found e.gtpu_count
    ∷ outer_path e.outer_src_ip e.outer_src_port e.outer_dst_ip e.outer_dst_port
    ∷ framing e.is_f1u
    ∷ (print_inner e
        ++ (version e.version
            ∷ protocol_type e.protocol_type (not (e.protocol_type == 0))
            ∷ message_type e.message_type (e.message_type == 255)
            ∷ gtp_length e.gtp_length
            ∷ teid e.teid
            ∷ flags e.flag_e e.flag_s e.flag_pn
            ∷ print_optional e))

-- What became of the packet in the fast path.
unfoldable pub print_offload : GtpEvent → List Line
print_offload e =
    when e.offload_attempted (
      (if e.offload_applied
        then offload_hit e.offload_new_teid e.offload_new_dst_ip e.offload_new_dst_port
        else offload_miss)
      ∷ debug_bytes e.debug_old_removed_bytes e.debug_move_len e.debug_delta e.debug_reached_rewrite
      ∷ when e.offload_applied
          (debug_flags e.debug_flags_right_after_write e.debug_flags_right_before_redirect ∷ []))
    ++ when (e.ul_map_lookup_attempted && not e.offload_applied) (
        ul_session_map_state
          (if not e.ul_map_lookup_hit
            then ul_miss
            else if e.ul_map_ready
            then ul_hit_ready
            else ul_hit_not_ready)
          e.teid
        ∷ [])

unfoldable pub print_lines : GtpEvent → List Line
unfolding print_header print_offload
print_lines e =
    if not e.is_gtpu
    then no_gtpu_header
      ∷ outer_path e.outer_src_ip e.outer_src_port e.outer_dst_ip e.outer_dst_port
      ∷ udp_non_gtp_count e.udp_non_gtpu_count
      ∷ []
    else print_header e ++ (print_offload e ++ (blank ∷ []))
