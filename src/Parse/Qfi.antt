-- ===== src/Parse/Qfi.antt =====
-- A QFI that the parser of parse_gtpu reports has six bits.
use cu_ebpf.Base.{ℕ, ◌<◌, arith}
use cu_ebpf.Packet.{Packet}
use cu_ebpf.Event.{GtpEvent}
use cu_ebpf.Parse.{
  Flow, submit, next, gtp_end, header_event, outer_event, parse_optional, walk_extension,
  walk_extensions, record_extension, skip_extension, container_event, parse_f1u, parse_inner,
  after_f1u, after_walk, after_optional, parse_g_pdu, max_extension_headers,
}
use cu_ebpf.Parse.Loop.{FlowHas, walk_extensions-FlowHas}

abbrev SmallQfi : GtpEvent → Type 0
SmallQfi e = e.qfi < 64

walk_extension-SmallQfi :
    (p : Packet) (e : GtpEvent) (c n : ℕ) → SmallQfi e → FlowHas SmallQfi (walk_extension p e c n)
unfolding walk_extension record_extension container_event skip_extension
walk_extension-SmallQfi p e c n small = ground arith

after_walk-SmallQfi : (p : Packet) (f : Flow) → FlowHas SmallQfi f → SmallQfi (after_walk p f).0
unfolding after_walk parse_f1u after_f1u parse_inner
after_walk-SmallQfi p (submit e c) small = small
after_walk-SmallQfi p (next e c n) small = ground arith

after_optional-SmallQfi :
    (p : Packet) (f : Flow) → FlowHas SmallQfi f → SmallQfi (after_optional p f).0
unfolding after_optional
after_optional-SmallQfi p (submit e c) small = small
after_optional-SmallQfi p (next e c n) small =
    after_walk-SmallQfi p (walk_extensions max_extension_headers p e c n) (
      walk_extensions-FlowHas SmallQfi max_extension_headers p (walk_extension-SmallQfi p) e c n
        small)

parse_optional-SmallQfi :
    (count : ℕ) (p : Packet)
    → FlowHas SmallQfi (parse_optional p (header_event count p) (gtp_end p))
unfolding parse_optional header_event outer_event
parse_optional-SmallQfi count p = ground arith

pub parse_g_pdu-SmallQfi : (count : ℕ) (p : Packet) → (parse_g_pdu count p).0.qfi < 64
unfolding parse_g_pdu
parse_g_pdu-SmallQfi count p =
    after_optional-SmallQfi p (parse_optional p (header_event count p) (gtp_end p))
      (parse_optional-SmallQfi count p)
