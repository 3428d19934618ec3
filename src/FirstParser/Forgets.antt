-- ===== src/FirstParser/Forgets.antt =====
-- The first parser (ebpf-gtp-parser/xdp_gtp_inner_parser.bpf.c) reports what the PDU extender
-- (pdu-extender/xdp_gtp_inner_parser.bpf.c) reports, less the fields that it does not have.
use cu_ebpf.Base.{
  ℕ, zero, suc, ◌≡◌, ◌∙◌, refl, ap, true, false, Bool, not, ◌||◌, ◌==◌, keep, List, [], ◌∷◌, arith,
}
use cu_ebpf.Packet.{Packet}
use cu_ebpf.Event
use cu_ebpf.Parse.{
  Flow, submit, next, gtp_end, outer_event, is_g_pdu, parse_optional, walk_extension,
  walk_extensions, record_extension, skip_extension, container_event, parse_inner,
  max_extension_headers,
}
use cu_ebpf.Xdp.{KernelState, Outcome, count_packet, counted, counter_gtpu}
use cu_ebpf.PduExtender.{base_event, inner_stage, extension_stage, parse_headers, report_non_gtpu}
use cu_ebpf.PduExtender.Extends.{IsN3}
use cu_ebpf.PduExtender
use cu_ebpf.FirstParser.{
  GtpEvent, Stage, leave, go_on, is_plain_g_pdu, udp_event, gtp_event, optional_bytes, next_type,
  extension_round, extension_loop, inner_header, behind_loop, behind_optional, gtp_fields, add_one,
  fetched, Report,
}
use cu_ebpf.FirstParser

-- The fields that the first parser has.
abbrev pub forget : Event.GtpEvent → GtpEvent
forget e = record {
  outer_src_ip = e.outer_src_ip;
  outer_dst_ip = e.outer_dst_ip;
  inner_src_ip = e.inner_src_ip;
  inner_dst_ip = e.inner_dst_ip;
  teid = e.teid;
  outer_src_port = e.outer_src_port;
  outer_dst_port = e.outer_dst_port;
  gtp_length = e.gtp_length;
  version = e.version;
  protocol_type = e.protocol_type;
  message_type = e.message_type;
  flag_e = e.flag_e;
  flag_s = e.flag_s;
  flag_pn = e.flag_pn;
  sequence_present = e.sequence_present;
  npdu_present = e.npdu_present;
  sequence_number = e.sequence_number;
  npdu_number = e.npdu_number;
  first_extension_type = e.first_extension_type;
  qfi_present = e.qfi_present;
  qfi = e.qfi;
  inner_ip_present = e.inner_ip_present;
  inner_protocol = e.inner_protocol;
  is_gtpu = e.is_gtpu;
  gtpu_count = e.gtpu_count;
  udp_non_gtpu_count = e.udp_non_gtpu_count;
}

abbrev forget_flow : Flow → Stage
forget_flow (submit e c) = leave (forget e)
forget_flow (next e c n) = go_on (forget e) c n

gtp_event-forget : (count : ℕ) (p : Packet) → gtp_event count p ≡ forget (base_event count p)
unfolding gtp_event udp_event base_event outer_event
gtp_event-forget count p = refl

optional_bytes-forget :
    (p : Packet) (e : Event.GtpEvent) (c : ℕ)
    → optional_bytes p (forget e) c ≡ forget_flow (parse_optional p e c)
unfolding optional_bytes parse_optional
optional_bytes-forget p e c = ground arith

extension_round-forget :
    (p : Packet) (e : Event.GtpEvent) (c n : ℕ)
    → extension_round p (forget e) c n ≡ forget_flow (walk_extension p e c n)
unfolding extension_round next_type walk_extension record_extension skip_extension container_event
extension_round-forget p e c n = ground arith

extension_loop-forget :
    (rounds : ℕ) (p : Packet) (e : Event.GtpEvent) (c n : ℕ)
    → extension_loop rounds p (forget e) c n ≡ forget_flow (walk_extensions rounds p e c n)
unfolding extension_loop walk_extensions
extension_loop-forget zero p e c n = refl
extension_loop-forget (suc r) p e c n =
    step (extension_round p (forget e) c n) (walk_extension p e c n)
      (extension_round-forget p e c n) (extension_loop-forget r p)
  where
    step :
        (x : Stage) (f : Flow)
        → x ≡ forget_flow f
        → ((e' : Event.GtpEvent) (c' n' : ℕ)
            → extension_loop r p (forget e') c' n' ≡ forget_flow (walk_extensions r p e' c' n'))
        → elim (not e.flag_e || n == 0) [
          | true ↦ go_on (forget e) c n
          | false ↦ elim x [ leave e' ↦ leave e' | go_on e' c' n' ↦ extension_loop r p e' c' n' ]
        ]
          ≡ forget_flow (elim (not e.flag_e || n == 0) [
            | true ↦ next e c n
            | false ↦ elim f [
              | submit e' c' ↦ submit e' c'
              | next e' c' n' ↦ walk_extensions r p e' c' n'
            ]
          ])
    step x (submit e' c') same rest = ground (arith, same)
    step x (next e' c' n') same rest = ground (arith, same, rest e' c' n')

behind_loop-forget :
    (p : Packet) (f : Flow) → behind_loop p (forget_flow f) ≡ forget (inner_stage p f).0
unfolding behind_loop inner_header inner_stage parse_inner
behind_loop-forget p (submit e c) = refl
behind_loop-forget p (next e c n) = ground arith

behind_optional-forget :
    (p : Packet) (f : Flow) → behind_optional p (forget_flow f) ≡ forget (extension_stage p f).0
unfolding behind_optional extension_stage
behind_optional-forget p (submit e c) = refl
behind_optional-forget p (next e c n) =
    ap (behind_loop p) (extension_loop-forget max_extension_headers p e c n)
    ∙ behind_loop-forget p (walk_extensions max_extension_headers p e c n)

gtp_fields-forget : (count : ℕ) (p : Packet) → gtp_fields count p ≡ forget (parse_headers count p).0
unfolding gtp_fields parse_headers
gtp_fields-forget count p =
    ap (λ (e : GtpEvent). behind_optional p (optional_bytes p e (gtp_end p)))
      (gtp_event-forget count p)
    ∙ ap (behind_optional p) (optional_bytes-forget p (base_event count p) (gtp_end p))
    ∙ behind_optional-forget p (parse_optional p (base_event count p) (gtp_end p))

abbrev pub forget_all : List Event.GtpEvent → List GtpEvent
forget_all [] = []
forget_all (e ∷ es) = forget e ∷ forget_all es

is_g_pdu-plain : (p : Packet) → IsN3 p → is_g_pdu p ≡ is_plain_g_pdu p
unfolding is_g_pdu is_plain_g_pdu
is_g_pdu-plain p n3 = ground (arith, n3.source, n3.dest)

udp_event-forget : (p : Packet) → udp_event p ≡ forget (outer_event p)
unfolding udp_event outer_event
udp_event-forget p = refl

-- What the two programs have in common after a packet.
pub record Agrees (s : KernelState) (o : Outcome) (r : Report) : Type 0 where
  pub verdict : r.verdict ≡ o.verdict
  pub counts : r.packet_counts ≡ o.state.packet_counts
  pub events : forget_all o.state.events ≡ keep r.submitted (forget_all s.events)

-- On a packet between other ports than 2153, the first parser and the PDU extender give the same
-- verdict, count alike, and submit the same event up to the fields that the first parser lacks, or
-- both none.
pub parse_gtpu-Agrees :
    (reserve : List Event.GtpEvent → Bool) (s : KernelState) (p : Packet)
    → IsN3 p
    → Agrees s
        (PduExtender.parse_gtpu reserve s p)
        (FirstParser.parse_gtpu (reserve s.events) s.packet_counts p)
unfolding FirstParser.parse_gtpu PduExtender.parse_gtpu report_non_gtpu count_packet counted
parse_gtpu-Agrees reserve s p n3 = record {
  verdict = ground (arith, is_g_pdu-plain p n3);
  counts = ground (arith, is_g_pdu-plain p n3);
  events = ground (
    arith,
    is_g_pdu-plain p n3,
    gtp_fields-forget (counted counter_gtpu s) p,
    udp_event-forget p,
  );
}
