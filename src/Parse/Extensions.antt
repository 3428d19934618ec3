-- ===== src/Parse/Extensions.antt =====
-- The extension headers of a G-PDU as a whole, for parse_g_pdu.
use cu_ebpf.Base.{
  ℕ, ◌+◌, ◌/◌, ◌%◌, ◌≤◌, ◌≡◌, refl, sym, ap, Bool, true, false, ◌==◌, List, length, take, arith,
}
use cu_ebpf.Packet.{Packet}
use cu_ebpf.Event.{GtpEvent}
use cu_ebpf.Parse.{
  Flow, submit, next, walk_extension, record_extension, skip_extension, container_event,
  header_event, outer_event, gtp_offset, gtp_end, parse_optional, walk_extensions, after_walk,
  after_optional, after_f1u, parse_f1u, parse_inner, parse_g_pdu, max_extension_headers,
}
use cu_ebpf.Parse.Loop.{FlowHas, walk_extensions-FlowHas}
use cu_ebpf.Parse.Chain.{Chain, Records, walk_extensions-follows, walk_extensions-Chain}

-- The E flag of the mandatory header.
abbrev pub has_extensions : Packet → Bool
has_extensions p = p.at (gtp_offset p) / 4 % 2 == 1

-- The event behind the optional bytes.
optional_event : ℕ → Packet → GtpEvent
optional_event count p = elim (parse_optional p (header_event count p) (gtp_end p)) [
  | submit e c ↦ e
  | next e c n ↦ e
]

record Ready (e : GtpEvent) : Type 0 where
  flag : e.flag_e ≡ true
  none_yet : e.extension_count ≡ 0
  room : length e.extension_types ≡ 4
  no_inner : e.inner_ip_present ≡ false

optional_event-Ready :
    (count : ℕ) (p : Packet) → has_extensions p ≡ true → Ready (optional_event count p)
unfolding optional_event parse_optional header_event outer_event
optional_event-Ready count p e_flag = ground arith

optional_lem :
    (count : ℕ) (p : Packet)
    → has_extensions p ≡ true
    → gtp_end p + 4 ≤ p.len
    → parse_optional p (header_event count p) (gtp_end p)
      ≡ next (optional_event count p) (gtp_end p + 4) (p.at (gtp_end p + 3))
unfolding optional_event parse_optional
optional_lem count p e_flag room = ground arith

-- The event of a stage has the E flag and the lack of an inner packet that `e` has.
record Kept (e e' : GtpEvent) : Type 0 where
  flag : e'.flag_e ≡ e.flag_e
  inner : e'.inner_ip_present ≡ e.inner_ip_present

walk_extension-Kept :
    (p : Packet) (e e' : GtpEvent) (c n : ℕ)
    → Kept e e'
    → FlowHas (Kept e) (walk_extension p e' c n)
unfolding walk_extension record_extension container_event skip_extension
walk_extension-Kept p e e' c n kept = ground arith

walk_extensions-Kept :
    (rounds : ℕ) (p : Packet) (e : GtpEvent) (c n : ℕ)
    → FlowHas (Kept e) (walk_extensions rounds p e c n)
walk_extensions-Kept rounds p e c n =
    walk_extensions-FlowHas (Kept e) rounds p (walk_extension-Kept p e) e c n
      (record { flag = refl; inner = refl })

-- What the parser leaves of a packet whose extension headers have the types `ts`.
pub record Walked (r : GtpEvent × ℕ) (ts : List ℕ) (c : ℕ) : Type 0 where
  pub cursor : r.1 ≡ c
  pub count : r.0.extension_count ≡ length ts
  pub types : take (length ts) r.0.extension_types ≡ ts

after_walk-Walked :
    (p : Packet) (e e' : GtpEvent) (ts : List ℕ) (c : ℕ)
    → Ready e
    → Records e ts e'
    → Walked (after_walk p (next e' c 0)) ts c
unfolding after_walk parse_f1u after_f1u parse_inner
after_walk-Walked p e e' ts c ready recorded =
    ground (arith, recorded.types, recorded.count, recorded.flag, ready.flag, ready.none_yet)

-- The inner header is looked at behind the end of the extension loop only.
after_walk-ended :
    (p : Packet) (e : GtpEvent) (f : Flow)
    → Ready e
    → FlowHas (Kept e) f
    → (after_walk p f).0.inner_ip_present ≡ true
    → (e' : GtpEvent) × (f ≡ next e' (after_walk p f).1 0)
unfolding after_walk parse_f1u after_f1u parse_inner
after_walk-ended p e (submit e' c) ready kept seen =
    ground (arith, ready.no_inner, kept.inner, seen)
after_walk-ended p e (next e' c n) ready kept seen =
    (e', ground (arith, ready.flag, ready.no_inner, kept.inner, kept.flag, seen))

module _ (count : ℕ) (p : Packet) (e_flag : has_extensions p ≡ true)
    (room : gtp_end p + 4 ≤ p.len) where
  parse_g_pdu-walks :
      parse_g_pdu count p
      ≡ after_walk p (
          walk_extensions max_extension_headers p
            (optional_event count p)
            (gtp_end p + 4)
            (p.at (gtp_end p + 3)))
  unfolding parse_g_pdu after_optional
  parse_g_pdu-walks = ap (after_optional p) (optional_lem count p e_flag room)

  -- A packet whose E flag is set and whose four optional bytes are there, and in which a chain of at
  -- most four extension headers of the types `ts`, each of 1 to 64 units of four bytes, stands behind
  -- these, is parsed with the cursor at the end of the chain, and its event has recorded exactly
  -- these types in this order.
  pub parse_g_pdu-Walked :
      (ts : List ℕ) (c : ℕ)
      → length ts ≤ max_extension_headers
      → Chain p (gtp_end p + 4) (p.at (gtp_end p + 3)) ts c
      → Walked (parse_g_pdu count p) ts c
  parse_g_pdu-Walked ts c few chain =
      let ready = optional_event-Ready count p e_flag in
      let (e', went, recorded) =
        walk_extensions-follows max_extension_headers p (optional_event count p) _ _ ts c ready.flag
          ready.room (ground (arith, ready.none_yet)) few chain in
      rw (parse_g_pdu-walks, went)
        (after_walk-Walked p (optional_event count p) e' ts c ready recorded)

  -- Conversely, if the event of a packet whose E flag is set and whose four optional bytes are there
  -- reports an inner IPv4 header, then a chain of at most four extension headers, each of 1 to 64
  -- units of four bytes, stands behind the optional bytes, and the cursor is at its end.
  pub parse_g_pdu-Chain :
      (parse_g_pdu count p).0.inner_ip_present ≡ true
      → (ts : List ℕ) × (length ts ≤ max_extension_headers)
        × Chain p (gtp_end p + 4) (p.at (gtp_end p + 3)) ts (parse_g_pdu count p).1
  parse_g_pdu-Chain seen =
      let ready = optional_event-Ready count p e_flag in
      let f : Flow =
        walk_extensions max_extension_headers p (optional_event count p) (gtp_end p + 4)
          (p.at (gtp_end p + 3)) in
      let (e', went) =
        after_walk-ended p (optional_event count p) f ready
          (walk_extensions-Kept max_extension_headers p _ _ _) (rw (sym parse_g_pdu-walks) seen) in
      rw parse_g_pdu-walks (
        walk_extensions-Chain max_extension_headers p (optional_event count p) _ _ e' _ ready.flag
          went)
