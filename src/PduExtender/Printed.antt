-- ===== src/PduExtender/Printed.antt =====
-- The output of the PDU extender and that of stage 4 for the same packet.
use cu_ebpf.Base.{
  pos, ℕ, zero, suc, ◌+◌, ◌≡◌, ◌∙◌, ap, sym, refl, Bool, true, false, not, inl, inr, Bool-cases,
  List, [], ◌∷◌, ◌++◌, ltb, ◌==◌, arith,
}
use cu_ebpf.Packet.{Packet}
use cu_ebpf.Event.{GtpEvent}
use cu_ebpf.Parse.{is_ipv4_udp, is_g_pdu}
use cu_ebpf.Xdp.{KernelState, Helpers, count_packet, counted, counter_gtpu}
use cu_ebpf.Downlink.{downlink}
use cu_ebpf.Uplink.{uplink}
use cu_ebpf.Program.{submit_gtpu}
use cu_ebpf.Program
use cu_ebpf.Program.Counting.{newest}
use cu_ebpf.Program.Redirect.{parsed}
use cu_ebpf.Report.{
  Line, framing, pdcp_sn, offload_hit, offload_miss, debug_bytes, debug_flags, ul_session_map_state,
  blank, print_extensions, print_inner, print_optional, print_header, print_offload, print_lines,
  at_most_max, extension_headers, qfi, gtpu_found, outer_path, version, protocol_type, message_type,
  gtp_length, teid, flags,
}
use cu_ebpf.Report.Select.{selected, selected-append, selected-when, selected_keeps, selected_drops}
use cu_ebpf.PduExtender.{parse_headers, report_non_gtpu}
use cu_ebpf.PduExtender
use cu_ebpf.PduExtender.Extends.{IsN3, parse_headers-parse_g_pdu, IsN3-is_f1u}
use cu_ebpf.PduExtender.Userspace.{print_event, print_options}

-- The lines that the extender has as well: neither the framing, nor the PDCP sequence number, nor
-- what is said of the offload.
abbrev pub extender_has : Line → Bool
extender_has (framing f) = false
extender_has (pdcp_sn sn) = false
extender_has (offload_hit new_teid ip port) = false
extender_has offload_miss = false
extender_has (debug_bytes removed moved delta reached) = false
extender_has (debug_flags written redirected) = false
extender_has (ul_session_map_state state key) = false
extender_has line = true

abbrev pub kept : List Line → List Line
kept = selected extender_has

kept-print_offload : (e : GtpEvent) → kept (print_offload e) ≡ []
unfolding print_offload
kept-print_offload e = ground arith

kept-print_extensions :
    (i n : ℕ) (types : List ℕ) → kept (print_extensions i n types) ≡ print_extensions i n types
unfolding print_extensions
kept-print_extensions i zero types = refl
kept-print_extensions i (suc n) [] = refl
kept-print_extensions i (suc n) (t ∷ types) = ground (arith, kept-print_extensions (i + 1) n types)

kept-print_inner : (e : GtpEvent) → kept (print_inner e) ≡ print_inner e
unfolding print_inner
kept-print_inner e = ground arith

kept-print_optional : (e : GtpEvent) → kept (print_optional e) ≡ print_options e
unfolding print_optional print_options
kept-print_optional e = selected_keeps extender_has e.sequence_present _ _ _ refl (
    selected_keeps extender_has e.npdu_present _ _ _ refl (
      selected_keeps extender_has e.flag_e _ _ _ refl (
        selected_keeps extender_has (ltb 0 e.extension_count) _ _ _
          (ap (λ (ls : List Line). extension_headers e.extension_count ∷ ls)
            (kept-print_extensions 0 (at_most_max e.extension_count) e.extension_types))
          (selected_keeps extender_has e.pdu_type_present _ _ _ refl (
            selected_drops extender_has e.f1u_pdcp_sn_present _ _ refl
            ∙ selected-when extender_has e.qfi_present (qfi e.qfi ∷ []) refl)))))

kept-print_header :
    (e : GtpEvent)
    → kept (print_header e)
      ≡ gtpu_found e.gtpu_count
        ∷ outer_path e.outer_src_ip e.outer_src_port e.outer_dst_ip e.outer_dst_port
        ∷ (print_inner e
            ++ (version e.version
                ∷ protocol_type e.protocol_type (not (e.protocol_type == 0))
                ∷ message_type e.message_type (e.message_type == 255)
                ∷ gtp_length e.gtp_length
                ∷ teid e.teid
                ∷ flags e.flag_e e.flag_s e.flag_pn
                ∷ print_options e))
unfolding print_header
kept-print_header e = ground (
  arith,
  selected-append extender_has (print_inner e) (
      version e.version
      ∷ protocol_type e.protocol_type (not (e.protocol_type == 0))
      ∷ message_type e.message_type (e.message_type == 255)
      ∷ gtp_length e.gtp_length
      ∷ teid e.teid
      ∷ flags e.flag_e e.flag_s e.flag_pn
      ∷ print_optional e),
  kept-print_inner e,
  kept-print_optional e,
)

-- The extender prints the lines of stage 4 that it has.
kept-print_lines : (e : GtpEvent) → kept (print_lines e) ≡ print_event e
unfolding print_lines print_event
kept-print_lines e = elim (Bool-cases e.is_gtpu) [
  | inr other ↦ ground (arith, other)
  | inl g ↦ ground (
    arith,
    g,
    selected-append extender_has (print_header e) (print_offload e ++ (blank ∷ [])),
    selected-append extender_has (print_offload e) (blank ∷ []),
    kept-print_offload e,
    kept-print_header e,
  )
]

-- An event without what the offload blocks write.
abbrev bare : GtpEvent → GtpEvent
bare e = record e {
  offload_attempted = false;
  offload_applied = false;
  offload_new_teid = 0;
  offload_new_dst_ip = 0;
  offload_new_dst_port = 0;
  debug_old_removed_bytes = pos 0;
  debug_move_len = pos 0;
  debug_delta = pos 0;
  debug_reached_rewrite = false;
  debug_flags_right_after_write = 0;
  debug_flags_right_before_redirect = 0;
  ul_map_lookup_attempted = false;
  ul_map_lookup_hit = false;
  ul_map_ready = false;
}

print_event-bare : (e : GtpEvent) → print_event (bare e) ≡ print_event e
unfolding print_event print_options print_inner
print_event-bare e = refl

downlink-bare :
    (h : Helpers) (s : KernelState) (p : Packet) (e : GtpEvent) (c : ℕ)
    → bare (newest (downlink h s p e c).state.events) ≡ bare e
unfolding downlink
downlink-bare h s p e c = ground arith

uplink-bare :
    (h : Helpers) (s : KernelState) (p : Packet) (e : GtpEvent) (c : ℕ)
    → bare (newest (uplink h s p e c).state.events) ≡ bare e
unfolding uplink
uplink-bare h s p e c = ground arith

submit_gtpu-bare :
    (h : Helpers) (s : KernelState) (p : Packet) (e : GtpEvent) (c : ℕ)
    → bare (newest (submit_gtpu h s p e c).state.events) ≡ bare e
unfolding submit_gtpu
submit_gtpu-bare h s p e c = ground (arith, downlink-bare h s p e c, uplink-bare h s p e c)

module _ (h : Helpers) (s : KernelState) (p : Packet) (udp : is_ipv4_udp p ≡ true)
    (room : h.reserve s.events ≡ true) where
  stage_4_event :
      is_g_pdu p ≡ true
      → bare (newest (Program.parse_gtpu h s p).state.events) ≡ bare (parsed s p).0
  unfolding Program.parse_gtpu
  stage_4_event g =
      rw (udp, room, g)
        (submit_gtpu-bare h (count_packet counter_gtpu s) p (parsed s p).0 (parsed s p).1)

  extender_event :
      is_g_pdu p ≡ true
      → newest (PduExtender.parse_gtpu h.reserve s p).state.events
        ≡ (parse_headers (counted counter_gtpu s) p).0
  unfolding PduExtender.parse_gtpu
  extender_event g = rw (udp, room, g) refl

  same_other :
      is_g_pdu p ≡ false
      → newest (PduExtender.parse_gtpu h.reserve s p).state.events
        ≡ newest (Program.parse_gtpu h s p).state.events
  unfolding PduExtender.parse_gtpu Program.parse_gtpu report_non_gtpu
  same_other other = ground (arith, udp, room, other)

  same_print : (d e : GtpEvent) → bare d ≡ bare e → print_event d ≡ print_event e
  same_print d e same = sym (print_event-bare d) ∙ ap print_event same ∙ print_event-bare e

  -- For a UDP packet between other ports than 2153 for which the ring buffer has room, the two
  -- programs of the PDU extender print what those of stage 4 print, without the lines on the framing,
  -- the PDCP sequence number and the offload, whatever the maps hold and the offload blocks do.
  pub output_extends :
      IsN3 p
      → print_event (newest (PduExtender.parse_gtpu h.reserve s p).state.events)
        ≡ kept (print_lines (newest (Program.parse_gtpu h s p).state.events))
  output_extends n3 =
      let e = newest (Program.parse_gtpu h s p).state.events in
      let count = counted counter_gtpu s in
      (elim (Bool-cases (is_g_pdu p)) [
        | inr other ↦ ap print_event (same_other other)
        | inl g ↦
            ap print_event (
              extender_event g
              ∙ ap (λ (r : GtpEvent × ℕ). r.0)
                  (parse_headers-parse_g_pdu count p (IsN3-is_f1u count p n3)))
            ∙ sym (same_print e (parsed s p).0 (stage_4_event g))
      ])
      ∙ sym (kept-print_lines e)
