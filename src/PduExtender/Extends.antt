-- ===== src/PduExtender/Extends.antt =====
-- The parser of the PDU extender (pdu-extender/xdp_gtp_inner_parser.bpf.c) and that of stage 4.
use cu_ebpf.Base.{ℕ, ◌+◌, ◌≢◌, ◌≡◌, false, refl, arith, ◌∙◌, ap}
use cu_ebpf.Packet.{Packet, be16}
use cu_ebpf.Event.{GtpEvent}
use cu_ebpf.Parse.{
  Flow, submit, next, udp_offset, gtp_end, header_event, parse_optional, walk_extension,
  walk_extensions, record_extension, skip_extension, container_event, parse_f1u, after_f1u,
  after_walk, after_optional, parse_g_pdu, max_extension_headers,
}
use cu_ebpf.Parse.Loop.{FlowHas, walk_extensions-FlowHas}
use cu_ebpf.PduExtender.{base_event, inner_stage, extension_stage, parse_headers}

-- Neither port is the F1-U port.
pub record IsN3 (p : Packet) : Type 0 where
  pub source : be16 p.at (udp_offset p) ≢ 2153
  pub dest : be16 p.at (udp_offset p + 2) ≢ 2153

pub IsN3-is_f1u : (count : ℕ) (p : Packet) → IsN3 p → (header_event count p).is_f1u ≡ false
unfolding header_event
IsN3-is_f1u count p n3 = ground (arith, n3.source, n3.dest)

abbrev Plain : GtpEvent → Type 0
Plain e = e.is_f1u ≡ false

base_event-header_event :
    (count : ℕ) (p : Packet)
    → (header_event count p).is_f1u ≡ false
    → base_event count p ≡ header_event count p
unfolding base_event header_event
base_event-header_event count p n3 = ground (arith, n3)

walk_extension-Plain :
    (p : Packet) (e : GtpEvent) (c n : ℕ) → Plain e → FlowHas Plain (walk_extension p e c n)
unfolding walk_extension record_extension container_event skip_extension
walk_extension-Plain p e c n plain = ground arith

parse_optional-Plain :
    (p : Packet) (e : GtpEvent) (c : ℕ) → Plain e → FlowHas Plain (parse_optional p e c)
unfolding parse_optional
parse_optional-Plain p e c plain = ground arith

inner_stage-after_walk :
    (p : Packet) (f : Flow) → FlowHas Plain f → inner_stage p f ≡ after_walk p f
unfolding inner_stage after_walk parse_f1u after_f1u
inner_stage-after_walk p (submit e c) plain = refl
inner_stage-after_walk p (next e c n) plain = ground arith

extension_stage-after_optional :
    (p : Packet) (f : Flow) → FlowHas Plain f → extension_stage p f ≡ after_optional p f
unfolding extension_stage after_optional
extension_stage-after_optional p (submit e c) plain = refl
extension_stage-after_optional p (next e c n) plain =
    inner_stage-after_walk p (walk_extensions max_extension_headers p e c n)
      (walk_extensions-FlowHas Plain max_extension_headers p (walk_extension-Plain p) e c n plain)

-- On a packet without F1-U framing, stage 4 reports what the PDU extender reports, with the cursor at
-- the same place.
pub parse_headers-parse_g_pdu :
    (count : ℕ) (p : Packet)
    → (header_event count p).is_f1u ≡ false
    → parse_headers count p ≡ parse_g_pdu count p
unfolding parse_headers parse_g_pdu
parse_headers-parse_g_pdu count p n3 =
    ap (λ (e : GtpEvent). extension_stage p (parse_optional p e (gtp_end p)))
      (base_event-header_event count p n3)
    ∙ extension_stage-after_optional p (parse_optional p (header_event count p) (gtp_end p))
        (parse_optional-Plain p (header_event count p) (gtp_end p) n3)
