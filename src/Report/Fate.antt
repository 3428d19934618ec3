-- ===== src/Report/Fate.antt =====
-- What a reader of the output learns of the fate of a packet.
use cu_ebpf.Base.{
  ℕ, ◌+◌, ◌≡◌, ◌∙◌, ap, refl, Bool, true, false, ◌&&◌, inl, inr, Bool-cases, List, [], ◌∷◌, ◌++◌,
  Option, none, some, ltb, if◌then◌else◌, suc, zero, arith,
}
use cu_ebpf.Packet.{Packet}
use cu_ebpf.Session.{SessionCtx}
use cu_ebpf.Event.{GtpEvent}
use cu_ebpf.Parse.{is_ipv4_udp, is_g_pdu, header_event, outer_event}
use cu_ebpf.Parse.Bounds.{parse_g_pdu-Within}
use cu_ebpf.Xdp.{KernelState, Outcome, Helpers, count_packet, counted, counter_gtpu}
use cu_ebpf.Downlink.{downlink}
use cu_ebpf.Uplink.{uplink}
use cu_ebpf.Program.{parse_gtpu, submit_gtpu}
use cu_ebpf.Program.Counting.{newest, parse_gtpu-Reports}
use cu_ebpf.Program.Redirect.{parsed}
use cu_ebpf.Program.Safety.{count_packet-maps}
use cu_ebpf.Program.Sequence.{is_redirect}
use cu_ebpf.Report.{
  Line, blank, offload_hit, sequence_number, npdu_number, first_extension, extension_headers,
  pdu_type, pdu_type_name, pdcp_sn, qfi, print_extensions, print_inner, print_optional,
  print_header, print_offload, print_lines, when, at_most_max,
}

-- The TEID, address and port of the line that reports an offload.
abbrev pub hit_of : List Line → Option (ℕ × ℕ × ℕ)
hit_of [] = none
hit_of (offload_hit new_teid ip port ∷ ls) = some (new_teid, ip, port)
hit_of (l ∷ ls) = hit_of ls

-- A part of the output without such a line.
record NoHit (ls : List Line) : Type 0 where
  misses : hit_of ls ≡ none

hit_of-append : (a b : List Line) → hit_of a ≡ none → hit_of (a ++ b) ≡ hit_of b
hit_of-append [] b h = refl
hit_of-append (offload_hit new_teid ip port ∷ a) b h = absurd (cc h)
hit_of-append (l ∷ a) b h = hit_of-append a b h

NoHit-when : (b : Bool) (ls : List Line) → NoHit ls → NoHit (when b ls)
NoHit-when true ls h = h
NoHit-when false ls h = record { misses = refl }

in_front : (b : Bool) (ls rest : List Line) → NoHit ls → NoHit rest → NoHit (when b ls ++ rest)
in_front b ls rest h hr = record {
  misses = hit_of-append (when b ls) rest (NoHit-when b ls h).misses ∙ hr.misses;
}

print_extensions-NoHit : (i n : ℕ) (types : List ℕ) → NoHit (print_extensions i n types)
unfolding print_extensions
print_extensions-NoHit i zero types = record { misses = refl }
print_extensions-NoHit i (suc n) [] = record { misses = refl }
print_extensions-NoHit i (suc n) (t ∷ types) = record {
  misses = (print_extensions-NoHit (i + 1) n types).misses;
}

print_inner-NoHit : (e : GtpEvent) → NoHit (print_inner e)
unfolding print_inner
print_inner-NoHit e = record { misses = ground arith }

one : (l : Line) → hit_of (l ∷ []) ≡ none → NoHit (l ∷ [])
one l h = record { misses = h }

print_optional-NoHit : (e : GtpEvent) → NoHit (print_optional e)
unfolding print_optional
print_optional-NoHit e =
    let types = print_extensions-NoHit 0 (at_most_max e.extension_count) e.extension_types in
    let extensions : NoHit (
        extension_headers e.extension_count
        ∷ print_extensions 0 (at_most_max e.extension_count) e.extension_types) =
      record { misses = types.misses } in
    in_front e.sequence_present _ _ (one (sequence_number e.sequence_number) refl) (
      in_front e.npdu_present _ _ (one (npdu_number e.npdu_number) refl) (
        in_front e.flag_e _ _ (one (first_extension e.first_extension_type) refl) (
          in_front (ltb 0 e.extension_count) _ _ extensions (
            in_front e.pdu_type_present _ _
              (one (pdu_type e.pdu_type (pdu_type_name e.pdu_type)) refl)
              (in_front e.f1u_pdcp_sn_present _ _ (one (pdcp_sn e.f1u_pdcp_sn) refl)
                (NoHit-when e.qfi_present _ (one (qfi e.qfi) refl)))))))

print_header-hit : (e : GtpEvent) → hit_of (print_header e) ≡ none
unfolding print_header
print_header-hit e =
    hit_of-append (print_inner e) _ (print_inner-NoHit e).misses ∙ (print_optional-NoHit e).misses

print_offload-hit :
    (e : GtpEvent)
    → hit_of (print_offload e ++ (blank ∷ [])) ≡ (
        if e.offload_attempted && e.offload_applied
        then some (e.offload_new_teid, e.offload_new_dst_ip, e.offload_new_dst_port)
        else none)
unfolding print_offload
print_offload-hit e = ground arith

-- The output names an offload exactly if the event has been set so.
print_lines-hit :
    (e : GtpEvent)
    → hit_of (print_lines e) ≡ (
        if e.is_gtpu && (e.offload_attempted && e.offload_applied)
        then some (e.offload_new_teid, e.offload_new_dst_ip, e.offload_new_dst_port)
        else none)
unfolding print_lines
print_lines-hit e = ground (
  arith,
  hit_of-append (print_header e) (print_offload e ++ (blank ∷ [])) (print_header-hit e),
  print_offload-hit e,
)

-- What a session tells of a packet that is redirected under it.
abbrev pub hit_fields : Option SessionCtx → Option (ℕ × ℕ × ℕ)
hit_fields none = none
hit_fields (some sess) = some (sess.peer_teid, sess.dst_ip, sess.dst_port)

-- The offload that an event reports.
abbrev offload_of : GtpEvent → Option (ℕ × ℕ × ℕ)
offload_of e =
    if e.offload_attempted && e.offload_applied
    then some (e.offload_new_teid, e.offload_new_dst_ip, e.offload_new_dst_port)
    else none

downlink-offload_of :
    (h : Helpers) (s : KernelState) (p : Packet) (e : GtpEvent) (c : ℕ)
    → e.offload_applied ≡ false
    → offload_of (newest (downlink h s p e c).state.events) ≡ (
        if is_redirect (downlink h s p e c).verdict
        then hit_fields (s.session_map e.teid)
        else none)
unfolding downlink
downlink-offload_of h s p e c fresh = ground arith

uplink-offload_of :
    (h : Helpers) (s : KernelState) (p : Packet) (e : GtpEvent) (c : ℕ)
    → e.offload_applied ≡ false
    → offload_of (newest (uplink h s p e c).state.events) ≡ (
        if is_redirect (uplink h s p e c).verdict
        then hit_fields (s.ul_session_map e.teid)
        else none)
unfolding uplink
uplink-offload_of h s p e c fresh = ground arith

-- The session of a G-PDU, in the map of its direction.
abbrev pub session_of : KernelState → GtpEvent → Option SessionCtx
session_of s e = if e.is_f1u then s.ul_session_map e.teid else s.session_map e.teid

submit_gtpu-offload_of :
    (h : Helpers) (s : KernelState) (p : Packet) (e : GtpEvent) (c : ℕ)
    → e.offload_applied ≡ false
    → offload_of (newest (submit_gtpu h s p e c).state.events)
      ≡ (if is_redirect (submit_gtpu h s p e c).verdict then hit_fields (session_of s e) else none)
unfolding submit_gtpu
submit_gtpu-offload_of h s p e c fresh =
    ground (arith, downlink-offload_of h s p e c fresh, uplink-offload_of h s p e c fresh)

session_of-count_packet :
    (s : KernelState) (e : GtpEvent) → session_of (count_packet counter_gtpu s) e ≡ session_of s e
session_of-count_packet s e = ground (arith, count_packet-maps counter_gtpu s)

g_pdu-offload_of :
    (h : Helpers) (s : KernelState) (p : Packet)
    → is_ipv4_udp p ≡ true
    → h.reserve s.events ≡ true
    → is_g_pdu p ≡ true
    → offload_of (newest (parse_gtpu h s p).state.events) ≡ (
        if is_redirect (parse_gtpu h s p).verdict
        then hit_fields (session_of s (parsed s p).0)
        else none)
unfolding parse_gtpu header_event outer_event
g_pdu-offload_of h s p udp room g =
    let s' : KernelState = count_packet counter_gtpu s in
    let o : Outcome = submit_gtpu h s' p (parsed s p).0 (parsed s p).1 in
    rw (udp, room, g)
      (submit_gtpu-offload_of h s' p (parsed s p).0 (parsed s p).1
          (parse_g_pdu-Within (counted counter_gtpu s) p g).header.applied
        ∙ ap (λ (x : Option SessionCtx). if is_redirect o.verdict then hit_fields x else none)
            (session_of-count_packet s (parsed s p).0))

other_passes :
    (h : Helpers) (s : KernelState) (p : Packet)
    → is_g_pdu p ≡ false
    → is_redirect (parse_gtpu h s p).verdict ≡ false
unfolding parse_gtpu
other_passes h s p other = ground arith

-- What is printed of a UDP packet for which the ring buffer had room names an offload exactly if the
-- packet was redirected, with the TEID, address and port of the session under which it was.
pub printed_hit :
    (h : Helpers) (s : KernelState) (p : Packet)
    → is_ipv4_udp p ≡ true
    → h.reserve s.events ≡ true
    → hit_of (print_lines (newest (parse_gtpu h s p).state.events)) ≡ (
        if is_redirect (parse_gtpu h s p).verdict
        then hit_fields (session_of s (parsed s p).0)
        else none)
printed_hit h s p udp room =
    let class = (parse_gtpu-Reports h s p udp room).class in
    print_lines-hit (newest (parse_gtpu h s p).state.events) ∙ (elim (Bool-cases (is_g_pdu p)) [
      | inl g ↦ ground (arith, class, g, g_pdu-offload_of h s p udp room g)
      | inr other ↦ ground (arith, class, other, other_passes h s p other)
    ])
