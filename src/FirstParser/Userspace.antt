-- ===== src/FirstParser/Userspace.antt =====
-- ebpf-gtp-parser/xdp_gtp_inner_parser_user.c: what print_event prints, in the values of Report, and
-- that it is what the PDU extender prints of the same packet without the lines on extension headers.
-- The wording of a missing inner header differs between the two.
use cu_ebpf.Base.{
  ℕ, zero, suc, ◌+◌, ◌≡◌, ◌∙◌, ap, sym, refl, Bool, true, false, not, ◌==◌, ltb, inl, inr,
  Bool-cases, Option, keep, List, [], ◌∷◌, ◌++◌, some, if◌then◌else◌, arith,
}
use cu_ebpf.Event
use cu_ebpf.Packet.{Packet}
use cu_ebpf.Parse.{is_ipv4_udp, is_g_pdu}
use cu_ebpf.Xdp.{KernelState, counter_gtpu, counter_udp_non_gtpu}
use cu_ebpf.Program.Counting.{newest, count_packet-events}
use cu_ebpf.Report.{
  Line, no_gtpu_header, inner_unavailable, outer_path, inner_path, inner_protocol, ip_protocol_name,
  udp_non_gtp_count, gtpu_found, version, protocol_type, message_type, gtp_length, teid, flags,
  sequence_number, npdu_number, first_extension, extension_headers, extension, pdu_type, qfi, blank,
  when, print_inner, print_extensions, at_most_max,
}
use cu_ebpf.Report.Select.{selected, selected-append, selected-when, selected_keeps, selected_drops}
use cu_ebpf.FirstParser.{GtpEvent}
use cu_ebpf.FirstParser
use cu_ebpf.FirstParser.Forgets.{forget, forget_all, parse_gtpu-Agrees}
use cu_ebpf.PduExtender.{report_non_gtpu}
use cu_ebpf.PduExtender
use cu_ebpf.PduExtender.Extends.{IsN3}
use cu_ebpf.PduExtender.Userspace

-- The lines that depend on what the packet has.
unfoldable pub print_options : GtpEvent → List Line
print_options e =
    when e.sequence_present (sequence_number e.sequence_number ∷ [])
    ++ (when e.npdu_present (npdu_number e.npdu_number ∷ [])
        ++ (when e.flag_e (first_extension e.first_extension_type ∷ [])
            ++ when e.qfi_present (qfi e.qfi ∷ [])))

unfoldable pub print_event : GtpEvent → List Line
unfolding ip_protocol_name print_options
print_event e =
    if not e.is_gtpu
    then no_gtpu_header
      ∷ outer_path e.outer_src_ip e.outer_src_port e.outer_dst_ip e.outer_dst_port
      ∷ udp_non_gtp_count e.udp_non_gtpu_count
      ∷ []
    else gtpu_found e.gtpu_count
      ∷ outer_path e.outer_src_ip e.outer_src_port e.outer_dst_ip e.outer_dst_port
      ∷ ((if e.inner_ip_present
            then inner_path e.inner_src_ip e.inner_dst_ip
              ∷ inner_protocol e.inner_protocol (ip_protocol_name e.inner_protocol)
              ∷ []
            else inner_unavailable ∷ [])
          ++ (version e.version
              ∷ protocol_type e.protocol_type (not (e.protocol_type == 0))
              ∷ message_type e.message_type (e.message_type == 255)
              ∷ gtp_length e.gtp_length
              ∷ teid e.teid
              ∷ flags e.flag_e e.flag_s e.flag_pn
              ∷ (print_options e ++ (blank ∷ []))))

-- The lines that the first parser has as well.
abbrev pub first_has : Line → Bool
first_has (extension_headers n) = false
first_has (extension i t) = false
first_has (pdu_type t n) = false
first_has line = true

abbrev pub without_extensions : List Line → List Line
without_extensions = selected first_has

without-print_extensions :
    (i n : ℕ) (types : List ℕ) → without_extensions (print_extensions i n types) ≡ []
unfolding print_extensions
without-print_extensions i zero types = refl
without-print_extensions i (suc n) [] = refl
without-print_extensions i (suc n) (t ∷ types) = without-print_extensions (i + 1) n types

without-options :
    (e : Event.GtpEvent) → without_extensions (Userspace.print_options e) ≡ print_options (forget e)
unfolding Userspace.print_options print_options
without-options e = selected_keeps first_has e.sequence_present _ _ _ refl (
    selected_keeps first_has e.npdu_present _ _ _ refl (
      selected_keeps first_has e.flag_e _ _ _ refl (
        selected_drops first_has (ltb 0 e.extension_count) _ _
          (without-print_extensions 0 (at_most_max e.extension_count) e.extension_types)
        ∙ selected_drops first_has e.pdu_type_present _ _ refl
        ∙ selected-when first_has e.qfi_present (qfi e.qfi ∷ []) refl)))

without-print_inner :
    (e : Event.GtpEvent)
    → without_extensions (print_inner e) ≡ (
        if e.inner_ip_present
        then inner_path e.inner_src_ip e.inner_dst_ip
          ∷ inner_protocol e.inner_protocol (ip_protocol_name e.inner_protocol)
          ∷ []
        else inner_unavailable ∷ [])
unfolding print_inner
without-print_inner e = ground arith

abbrev fields : Event.GtpEvent → List Line
fields e =
    version e.version
    ∷ protocol_type e.protocol_type (not (e.protocol_type == 0))
    ∷ message_type e.message_type (e.message_type == 255)
    ∷ gtp_length e.gtp_length
    ∷ teid e.teid
    ∷ flags e.flag_e e.flag_s e.flag_pn
    ∷ (Userspace.print_options e ++ (blank ∷ []))

print_event-forget :
    (e : Event.GtpEvent) → print_event (forget e) ≡ without_extensions (Userspace.print_event e)
unfolding print_event Userspace.print_event
print_event-forget e = ground (
  arith,
  selected-append first_has (print_inner e) (fields e),
  selected-append first_has (Userspace.print_options e) (blank ∷ []),
  without-print_inner e,
  without-options e,
)

-- The first event of a list, the latest one.
abbrev latest : GtpEvent → List GtpEvent → GtpEvent
latest d [] = d
latest d (e ∷ es) = e

reported :
    (reserve : List Event.GtpEvent → Bool) (s : KernelState) (p : Packet)
    → is_ipv4_udp p ≡ true
    → reserve s.events ≡ true
    → (PduExtender.parse_gtpu reserve s p).state.events
      ≡ newest (PduExtender.parse_gtpu reserve s p).state.events ∷ s.events
unfolding PduExtender.parse_gtpu report_non_gtpu
reported reserve s p udp room = elim (Bool-cases (is_g_pdu p)) [
  | inl g ↦ rw (udp, room, g, count_packet-events counter_gtpu s) refl
  | inr other ↦ rw (udp, room, other, count_packet-events counter_udp_non_gtpu s) refl
]

-- For a UDP packet between other ports than 2153 for which the ring buffer has room, the two programs
-- of the first parser print what those of the PDU extender print, without the lines on the types of
-- the extension headers and on the PDU type.
pub output_forgets :
    (reserve : List Event.GtpEvent → Bool) (s : KernelState) (p : Packet) (d : GtpEvent)
    → is_ipv4_udp p ≡ true
    → reserve s.events ≡ true
    → IsN3 p
    → (FirstParser.parse_gtpu (reserve s.events) s.packet_counts p).submitted ≡ some d
    → print_event d
      ≡ without_extensions
          (Userspace.print_event (newest (PduExtender.parse_gtpu reserve s p).state.events))
output_forgets reserve s p d udp room n3 went =
    let e = newest (PduExtender.parse_gtpu reserve s p).state.events in
    let agrees = (parse_gtpu-Agrees reserve s p n3).events in
    let same : d ≡ forget e =
      ap (λ (x : Option GtpEvent). latest d (keep x (forget_all s.events))) (sym went)
      ∙ ap (latest d) (sym agrees)
      ∙ ap (λ (es : List Event.GtpEvent). latest d (forget_all es))
          (reported reserve s p udp room) in
    ap print_event same ∙ print_event-forget e
