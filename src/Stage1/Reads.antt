-- ===== src/Stage1/Reads.antt =====
-- How a receiver with the program's own parser reads a packet that stage 1
-- (artifact/stage_1/xdp_gtp_inner_parser.bpf.c) has relayed.
use cu_ebpf.Base.{
  ℕ, ◌+◌, ◌-◌, ◌*◌, ◌≤◌, ◌≡◌, ◌∙◌, refl, sym, ap, true, not, ◌&&◌, ◌==◌, if◌then◌else◌, arith,
}
use cu_ebpf.Packet.{Packet}
use cu_ebpf.Event.{GtpEvent}
use cu_ebpf.Parse.{
  Flow, submit, next, outer_ihl, gtp_end, outer_event, parse_optional, walk_extension,
  walk_extensions, record_extension, skip_extension, container_event, parse_inner,
  max_extension_headers,
}
use cu_ebpf.Parse.Loop.{flow_map, FlowAbove, walk_extensions-FlowAbove, walk_extensions-flow_map}
use cu_ebpf.PduExtender.{base_event, inner_stage, extension_stage, parse_headers}
use cu_ebpf.Stage1.{SessionCtx}
use cu_ebpf.Stage1.Relayed.{Relayed, is_left_alone}

-- An event with the destination and the TEID of a session.
abbrev pub set_route : SessionCtx → GtpEvent → GtpEvent
set_route sess e = record e {
  outer_dst_ip = sess.dst_ip;
  outer_dst_port = sess.dst_port;
  teid = sess.peer_teid;
}

abbrev pub pair_route : SessionCtx → GtpEvent × ℕ → GtpEvent × ℕ
pair_route sess (e, c) = (set_route sess e, c)

module _ (sess : SessionCtx) (p q : Packet) (len : q.len ≡ p.len)
    (tail : (j : ℕ) → 50 ≤ j → q.at j ≡ p.at j) where
  walk_extension-set_route :
      (e : GtpEvent) (c n : ℕ)
      → 50 ≤ c
      → walk_extension q (set_route sess e) c n ≡ flow_map (set_route sess) (walk_extension p e c n)
  unfolding walk_extension record_extension skip_extension container_event
  walk_extension-set_route e c n h = ground (
    arith,
    len,
    tail c h,
    tail (c + 1) (omega arith),
    tail (c + 2) (omega arith),
    tail (c + p.at c * 4 - 1),
  )

  walk_extension-FlowAbove :
      (e : GtpEvent) (c n : ℕ) → 50 ≤ c → FlowAbove 50 (walk_extension p e c n)
  unfolding walk_extension skip_extension
  walk_extension-FlowAbove e c n h = ground arith

  parse_inner-set_route :
      (e : GtpEvent) (c : ℕ)
      → 50 ≤ c
      → parse_inner q (set_route sess e) c ≡ set_route sess (parse_inner p e c)
  unfolding parse_inner
  parse_inner-set_route e c h = ground (
    arith,
    len,
    tail c h,
    tail (c + 9) (omega arith),
    tail (c + 12) (omega arith),
    tail (c + 13) (omega arith),
    tail (c + 14) (omega arith),
    tail (c + 15) (omega arith),
    tail (c + 16) (omega arith),
    tail (c + 17) (omega arith),
    tail (c + 18) (omega arith),
    tail (c + 19) (omega arith),
  )

  inner_stage-set_route :
      (f : Flow)
      → FlowAbove 50 f
      → inner_stage q (flow_map (set_route sess) f) ≡ pair_route sess (inner_stage p f)
  unfolding inner_stage parse_inner
  inner_stage-set_route (submit e c) above = refl
  inner_stage-set_route (next e c n) above =
      ap (λ (x : GtpEvent). if e.flag_e && not (n == 0) then (set_route sess e, c) else (x, c))
        (parse_inner-set_route e c above)
      ∙ ground arith

  extension_stage-set_route :
      (f : Flow)
      → FlowAbove 50 f
      → extension_stage q (flow_map (set_route sess) f) ≡ pair_route sess (extension_stage p f)
  unfolding extension_stage
  extension_stage-set_route (submit e c) above = refl
  extension_stage-set_route (next e c n) above =
      ap (inner_stage q) (
        walk_extensions-flow_map (set_route sess) p q 50 (λ x. refl) walk_extension-set_route
          walk_extension-FlowAbove max_extension_headers e c n above)
      ∙ inner_stage-set_route (walk_extensions max_extension_headers p e c n) (
          walk_extensions-FlowAbove p 50 max_extension_headers walk_extension-FlowAbove e c n above)

module _ (sess : SessionCtx) (p q : Packet) (len : q.len ≡ p.len) (ihl : outer_ihl p ≡ 20)
    (relayed : Relayed sess p.at q.at) where
  same : (j : ℕ) → is_left_alone j ≡ true → q.at j ≡ p.at j
  same = relayed.kept

  base_event-set_route : (count : ℕ) → base_event count q ≡ set_route sess (base_event count p)
  unfolding base_event outer_event
  base_event-set_route count = ground (
    arith,
    ihl,
    relayed.dst_ip,
    relayed.dst_port,
    relayed.teid,
    same 14 refl,
    same 26 refl,
    same 27 refl,
    same 28 refl,
    same 29 refl,
    same 34 refl,
    same 35 refl,
    same 42 refl,
    same 43 refl,
    same 44 refl,
    same 45 refl,
  )

  parse_optional-set_route :
      (e : GtpEvent)
      → parse_optional q (set_route sess e) 50 ≡ flow_map (set_route sess) (parse_optional p e 50)
  unfolding parse_optional
  parse_optional-set_route e = ground (
    arith,
    len,
    ihl,
    same 14 refl,
    same 42 refl,
    same 50 refl,
    same 51 refl,
    same 52 refl,
    same 53 refl,
  )

  parse_optional-FlowAbove : (e : GtpEvent) → FlowAbove 50 (parse_optional p e 50)
  unfolding parse_optional
  parse_optional-FlowAbove e = ground arith

  ends : (gtp_end p ≡ 50) × (gtp_end q ≡ 50)
  ends = (ground (arith, ihl), ground (arith, ihl, same 14 refl))

  -- The parser reads a relayed packet as the packet that came in, but for the destination and the
  -- TEID of the session: sequence number, extension headers, QFI, inner addresses and cursor are
  -- the same.
  pub parse_headers-pair_route :
      (count : ℕ) → parse_headers count q ≡ pair_route sess (parse_headers count p)
  unfolding parse_headers
  parse_headers-pair_route count =
      ap (λ (c : ℕ). extension_stage q (parse_optional q (base_event count q) c)) ends.1
      ∙ ap (λ (e : GtpEvent). extension_stage q (parse_optional q e 50))
          (base_event-set_route count)
      ∙ ap (extension_stage q) (parse_optional-set_route (base_event count p))
      ∙ extension_stage-set_route sess p q len (λ j h. same j (ground (arith, h)))
          (parse_optional p (base_event count p) 50) (parse_optional-FlowAbove (base_event count p))
      ∙ ap
          (λ (c : ℕ). pair_route sess (extension_stage p (parse_optional p (base_event count p) c)))
          (sym ends.0)
