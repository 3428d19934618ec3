-- ===== src/Parse/Count.antt =====
-- The parser of parse_gtpu passes the counter's value on and does not look at it.
use cu_ebpf.Base.{ℕ, ◌≡◌, refl, ap, ◌∙◌, arith}
use cu_ebpf.Packet.{Packet}
use cu_ebpf.Event.{GtpEvent}
use cu_ebpf.Parse.Loop.{flow_map, FlowAbove, walk_extensions-flow_map}
use cu_ebpf.Parse.{
  Flow, submit, next, gtp_end, header_event, parse_optional, walk_extension, walk_extensions,
  record_extension, skip_extension, container_event, parse_f1u, parse_inner, after_f1u, after_walk,
  after_optional, parse_g_pdu, max_extension_headers,
}

abbrev pub set_gtpu_count : ℕ → GtpEvent → GtpEvent
set_gtpu_count k e = record e { gtpu_count = k }

abbrev pub pair_count : ℕ → GtpEvent × ℕ → GtpEvent × ℕ
pair_count k (e, c) = (set_gtpu_count k e, c)

walk_extension-set_gtpu_count :
    (k : ℕ) (p : Packet) (e : GtpEvent) (c n : ℕ)
    → walk_extension p (set_gtpu_count k e) c n
      ≡ flow_map (set_gtpu_count k) (walk_extension p e c n)
unfolding walk_extension record_extension skip_extension container_event
walk_extension-set_gtpu_count k p e c n = ground arith

walk_extensions-set_gtpu_count :
    (k rounds : ℕ) (p : Packet) (e : GtpEvent) (c n : ℕ)
    → walk_extensions rounds p (set_gtpu_count k e) c n
      ≡ flow_map (set_gtpu_count k) (walk_extensions rounds p e c n)
walk_extensions-set_gtpu_count k rounds p e c n =
    walk_extensions-flow_map (set_gtpu_count k) p p 0 (λ e. refl)
      (λ e c n low. walk_extension-set_gtpu_count k p e c n)
      (λ e c n low. anywhere (walk_extension p e c n)) rounds e c n (omega arith)
  where
    anywhere : (f : Flow) → FlowAbove 0 f
    anywhere (submit e c) = tt
    anywhere (next e c n) = omega arith

after_walk-set_gtpu_count :
    (k : ℕ) (p : Packet) (f : Flow)
    → after_walk p (flow_map (set_gtpu_count k) f) ≡ pair_count k (after_walk p f)
unfolding after_walk parse_f1u after_f1u parse_inner
after_walk-set_gtpu_count k p (submit e c) = refl
after_walk-set_gtpu_count k p (next e c n) = ground arith

parse_optional-set_gtpu_count :
    (k : ℕ) (p : Packet) (e : GtpEvent) (c : ℕ)
    → parse_optional p (set_gtpu_count k e) c ≡ flow_map (set_gtpu_count k) (parse_optional p e c)
unfolding parse_optional
parse_optional-set_gtpu_count k p e c = ground arith

after_optional-set_gtpu_count :
    (k : ℕ) (p : Packet) (f : Flow)
    → after_optional p (flow_map (set_gtpu_count k) f) ≡ pair_count k (after_optional p f)
unfolding after_optional
after_optional-set_gtpu_count k p (submit e c) = refl
after_optional-set_gtpu_count k p (next e c n) =
    rw (walk_extensions-set_gtpu_count k max_extension_headers p e c n)
      (after_walk-set_gtpu_count k p (walk_extensions max_extension_headers p e c n))

pub parse_g_pdu-count : (k j : ℕ) (p : Packet) → parse_g_pdu k p ≡ pair_count k (parse_g_pdu j p)
unfolding parse_g_pdu header_event
parse_g_pdu-count k j p =
    ap (after_optional p) (parse_optional-set_gtpu_count k p (header_event j p) (gtp_end p))
    ∙ after_optional-set_gtpu_count k p (parse_optional p (header_event j p) (gtp_end p))
