-- ===== src/Program/Malformed.antt =====
-- The downlink offload block does not ask whether the parser came to the inner packet.
use cu_ebpf.Base.{ℕ, suc, ◌+◌, ◌≤◌, ◌≡◌, ◌≢◌, ◌∙◌, ap, refl, true, false, some, arith}
use mathlib.Core.Path.{subst}
use cu_ebpf.Packet.{Packet, be16, be32}
use cu_ebpf.Session.{SessionCtx, SessionMap}
use cu_ebpf.Event.{GtpEvent}
use cu_ebpf.Parse.{
  is_ipv4_udp, is_g_pdu, outer_event, header_event, parse_g_pdu, parse_optional, after_optional,
  after_walk, walk_extension, walk_extensions, submit, next, gtp_end,
}
use cu_ebpf.Parse.Shapes.{PlainUdp}
use cu_ebpf.Xdp.{
  KernelState, Helpers, IsAdjustTail, CanResize, redirect, count_packet, counter_gtpu,
}
use cu_ebpf.Downlink.{headers_fit, dl_skips, dl_rewrite}
use cu_ebpf.Downlink.Offload.{dl_rewrite-redirects}
use cu_ebpf.Downlink.Payload.{CarriesInner, dl_rewrite-DlRedirect, dl_rewrite-CarriesInner}
use cu_ebpf.Program.{parse_gtpu}
use cu_ebpf.Program.Safety.{count_packet-maps}
use cu_ebpf.Program.Redirect.{parsed, dl_event, to_downlink, downlink-hit}

-- An N3 G-PDU that announces an extension header whose length byte is 0.
pub record BadExtension (p : Packet) : Type 0 where
  pub plain : PlainUdp p
  pub source : be16 p.at 34 ≢ 2153
  pub port : be16 p.at 36 ≡ 2152
  pub flags : p.at 42 ≡ 0x34
  pub kind : p.at 43 ≡ 255
  pub announced : p.at 53 ≢ 0
  pub zero_length : p.at 54 ≡ 0
  pub room : 55 ≤ p.len
  pub small : p.len ≤ 566

-- The parser gives up in front of the extension header.
record GivesUp (p : Packet) (r : GtpEvent × ℕ) : Type 0 where
  cursor : r.1 ≡ 54
  teid : r.0.teid ≡ be32 p.at 46
  n3 : r.0.is_f1u ≡ false
  no_inner : r.0.inner_ip_present ≡ false

extension_refused :
    (p : Packet) (e : GtpEvent) (c n : ℕ)
    → p.at c ≡ 0
    → c + 1 ≤ p.len
    → walk_extension p e c n ≡ submit e c
unfolding walk_extension
extension_refused p e c n zero room = ground (arith, zero)

walk_refused :
    (rounds : ℕ) (p : Packet) (e : GtpEvent) (c n : ℕ)
    → e.flag_e ≡ true
    → n ≢ 0
    → walk_extension p e c n ≡ submit e c
    → walk_extensions (suc rounds) p e c n ≡ submit e c
unfolding walk_extensions
walk_refused rounds p e c n flag announced refused = ground (arith, flag, refused)

after_optional_lem :
    (p : Packet) (e : GtpEvent) (c n : ℕ)
    → after_optional p (next e c n) ≡ after_walk p (walk_extensions 4 p e c n)
unfolding after_optional
after_optional_lem p e c n = refl

after_walk_lem : (p : Packet) (e : GtpEvent) (c : ℕ) → after_walk p (submit e c) ≡ (e, c)
unfolding after_walk
after_walk_lem p e c = refl

stops_at :
    (p : Packet) (e : GtpEvent) (c n : ℕ)
    → e.flag_e ≡ true
    → n ≢ 0
    → p.at c ≡ 0
    → c + 1 ≤ p.len
    → after_optional p (next e c n) ≡ (e, c)
stops_at p e c n flag announced zero room =
    after_optional_lem p e c n
    ∙ ap (after_walk p)
        (walk_refused 3 p e c n flag announced (extension_refused p e c n zero room))
    ∙ after_walk_lem p e c

-- The four optional bytes are read, the extension header is not.
abbrev optional_event : ℕ → Packet → GtpEvent
optional_event count p = record (header_event count p) { first_extension_type = p.at 53 }

optional_read :
    (count : ℕ) (p : Packet)
    → BadExtension p
    → parse_optional p (header_event count p) (gtp_end p)
      ≡ next (optional_event count p) 54 (p.at 53)
unfolding parse_optional header_event outer_event
optional_read count p b = ground arith

read_flags :
    (count : ℕ) (p : Packet)
    → BadExtension p
    → ((optional_event count p).flag_e ≡ true)
      × ((optional_event count p).is_f1u ≡ false)
      × ((optional_event count p).teid ≡ be32 p.at 46)
      × ((optional_event count p).inner_ip_present ≡ false)
unfolding header_event outer_event
read_flags count p b = ground arith

parse_g_pdu_lem :
    (count : ℕ) (p : Packet)
    → parse_g_pdu count p ≡ after_optional p (parse_optional p (header_event count p) (gtp_end p))
unfolding parse_g_pdu
parse_g_pdu_lem count p = refl

BadExtension-GivesUp : {p : Packet} (count : ℕ) → BadExtension p → GivesUp p (parse_g_pdu count p)
BadExtension-GivesUp {p} count b =
    let f = read_flags count p b in
    let e : parse_g_pdu count p ≡ (optional_event count p, 54) =
      parse_g_pdu_lem count p
      ∙ ap (after_optional p) (optional_read count p b)
      ∙ stops_at p (optional_event count p) 54 (p.at 53) f.0 b.announced b.zero_length
          (omega (arith, b.room)) in
    rw e (record { cursor = refl; teid = f.2; n3 = f.1; no_inner = f.3 })

BadExtension-is_g_pdu : {p : Packet} → BadExtension p → (is_ipv4_udp p ≡ true) × (is_g_pdu p ≡ true)
unfolding is_ipv4_udp is_g_pdu
BadExtension-is_g_pdu b = ground arith

BadExtension-fits :
    {p : Packet} (c : ℕ) → BadExtension p → c ≡ 54 → (headers_fit p ≡ true) × (dl_skips p c ≡ false)
unfolding dl_skips
BadExtension-fits c b e = ground arith

-- An N3 packet of at most 566 bytes whose first announced extension header has length byte 0, and
-- whose TEID has a session, is redirected, although the parser has not come to an inner packet
-- (inner_ip_present stays 0): the malformed extension header and what follows it leave in the place
-- of the inner packet.
-- Assumed: the ring buffer has room, bpf_xdp_adjust_tail keeps its word and has four spare bytes.
pub malformed_redirected :
    (h : Helpers) (s : KernelState) (p : Packet) (sess : SessionCtx)
    → IsAdjustTail h.adjust_tail
    → CanResize h.adjust_tail 4
    → h.reserve s.events ≡ true
    → BadExtension p
    → s.session_map (be32 p.at 46) ≡ some sess
    → ((parse_gtpu h s p).verdict ≡ redirect sess.egress_ifindex)
      × ((parsed s p).0.inner_ip_present ≡ false)
      × CarriesInner p 54 (parse_gtpu h s p).packet 54
malformed_redirected h s p sess ok tailroom room b found = (
  rw ran goes,
  g.no_inner,
  subst (λ (c : ℕ). CarriesInner p c (parse_gtpu h s p).packet 54) g.cursor carried,
)
  where
    g : GivesUp p (parsed s p)
    g = BadExtension-GivesUp _ b

    fits : (headers_fit p ≡ true) × (dl_skips p (parsed s p).1 ≡ false)
    fits = BadExtension-fits _ b g.cursor

    ran :
        parse_gtpu h s p
        ≡ dl_rewrite h (count_packet counter_gtpu s) p (dl_event (parsed s p).0) (parsed s p).1 sess
    ran =
        to_downlink h s p (BadExtension-is_g_pdu b).0 room (BadExtension-is_g_pdu b).1 g.n3
        ∙ downlink-hit h _ p _ _ sess
            (ap (λ (m : SessionMap). m (parsed s p).0.teid) (count_packet-maps counter_gtpu s).0
              ∙ ap s.session_map g.teid
              ∙ found)
            fits.0

    goes :
        (dl_rewrite h
          (count_packet counter_gtpu s)
          p
          (dl_event (parsed s p).0)
          (parsed s p).1
          sess).verdict
        ≡ redirect sess.egress_ifindex
    goes = dl_rewrite-redirects h ok tailroom _ p _ _ sess fits.0 fits.1

    carries :
        CarriesInner p
          (parsed s p).1
          (dl_rewrite h
            (count_packet counter_gtpu s)
            p
            (dl_event (parsed s p).0)
            (parsed s p).1
            sess).packet
          54
    carries =
        dl_rewrite-CarriesInner h _ p _ _ sess ok
          (dl_rewrite-DlRedirect h _ p _ _ sess sess.egress_ifindex fits.0 goes)

    carried : CarriesInner p (parsed s p).1 (parse_gtpu h s p).packet 54
    carried = rw ran carries
