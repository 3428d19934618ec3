-- ===== src/Stage2/Delivery.antt =====
-- What stage 2 (artifact/stage_2/construct_and_forward/xdp_gtp_inner_parser.bpf.c) hands on when it
-- redirects, for payloads of up to 1400 bytes.
use cu_ebpf.Base.{
  ℕ, ◌+◌, ◌-◌, ◌≤◌, ◌<◌, ◌≡◌, ◌≢◌, ◌∙◌, ap, sym, refl, true, false, inl, inr, Bool-cases,
  Option-cases, none, some, arith,
}
use cu_ebpf.Packet.{Packet, IsBytes}
use cu_ebpf.Packet.Copy.{copy_forward_moves, copy_forward_outside}
use cu_ebpf.Session.{SessionCtx, SessionFits, ServesF1u}
use cu_ebpf.Event.{GtpEvent}
use cu_ebpf.Parse.{is_ipv4_udp, is_g_pdu, parse_g_pdu, outer_ihl}
use cu_ebpf.Parse.Shapes.{F1uParsed, F1uShape-F1uParsed, F1uShape-is_ipv4_udp, F1uShape-is_g_pdu}
use cu_ebpf.Xdp.{
  KernelState, Outcome, Helpers, IsAdjustTail, pass, redirect, count_packet, counted, counter_gtpu,
}
use cu_ebpf.Downlink.{
  removed_bytes, move_len, dl_delta, headers_fit, debug_event, qfi_to_write, dl_bytes, dl_write,
}
use cu_ebpf.Downlink.Framing.{F1uPacket, dl_bytes-F1uPacket}
use cu_ebpf.Downlink.Payload.{CarriesInner, dl_bytes-payload, dl_write-packet}
use cu_ebpf.Program.Delivery.{DeliversF1u, plain_udp}
use cu_ebpf.Program.Safety.{count_packet-maps}
use cu_ebpf.PduExtender.{parse_headers, report_non_gtpu}
use cu_ebpf.Stage2.{offload_skips, compact, offload_rewrite, offload, parse_gtpu}

-- The sizes that a rewrite meets.
record Sizes (p : Packet) (cursor : ℕ) : Type 0 where
  ihl : outer_ihl p ≡ 20
  head : 50 ≤ p.len
  removed_low : 54 ≤ cursor
  removed_high : cursor ≤ 114
  payload_low : cursor ≤ p.len
  payload_high : p.len ≤ cursor + 1400

offload_skips-Sizes :
    (p : Packet) (c : ℕ) → headers_fit p ≡ true → offload_skips p c ≡ false → Sizes p c
unfolding offload_skips
offload_skips-Sizes p c fit no_skip = ground arith

len-compact : (p : Packet) (c : ℕ) → (compact p c).len ≡ p.len
unfolding compact
len-compact p c = refl

compact-payload :
    (p : Packet) (c k : ℕ) → Sizes p c → k < p.len - c → (compact p c).at (54 + k) ≡ p.at (c + k)
unfolding compact
compact-payload p c k z h =
    ground (arith, z, copy_forward_moves 1400 0 (p.len - c) c 54 p.len k p.at)

compact-header : (p : Packet) (c i : ℕ) → Sizes p c → i < 54 → (compact p c).at i ≡ p.at i
unfolding compact
compact-header p c i z h =
    ground (arith, z, copy_forward_outside 1400 0 (p.len - c) c 54 p.len i p.at)

-- What a rewrite that ends in a redirect has gone through.
record Rewritten (h : Helpers) (p : Packet) (e : GtpEvent) (c : ℕ) (sess : SessionCtx) (o : Outcome)
    : Type 0 where
  sizes : Sizes p c
  cut : Packet
  resized : h.adjust_tail (compact p c) (dl_delta p c) ≡ some cut
  room : 54 ≤ cut.len
  wrote :
      o.packet ≡ record { at = dl_bytes 20 (qfi_to_write e) (p.len - c) sess cut.at; len = cut.len }

module _ (h : Helpers) (s : KernelState) (p : Packet) (e : GtpEvent) (c : ℕ) (sess : SessionCtx)
    (i : ℕ) (fit : headers_fit p ≡ true)
    (v : (offload_rewrite h s p e c sess).verdict ≡ redirect i) where
  no_skip : offload_skips p c ≡ false
  unfolding offload_rewrite
  no_skip = ground (arith, v)

  tail_cut : h.adjust_tail (compact p c) (dl_delta p c) ≢ none
  unfolding offload_rewrite
  tail_cut n = ground (arith, v, n)

  abbrev debugged : GtpEvent
  debugged = debug_event e (removed_bytes p c) (move_len p c) (dl_delta p c)

  dl_write-redirect :
      (q : Packet)
      → (dl_write s 20 debugged e.teid (p.len - c) sess q).verdict ≡ redirect i
      → 54 ≤ q.len
  unfolding dl_write
  dl_write-redirect q w = ground (arith, w)

  offload_rewrite-eq :
      (q : Packet)
      → h.adjust_tail (compact p c) (dl_delta p c) ≡ some q
      → offload_rewrite h s p e c sess ≡ dl_write s 20 debugged e.teid (p.len - c) sess q
  unfolding offload_rewrite
  offload_rewrite-eq q r =
      let z = offload_skips-Sizes p c fit no_skip in ground (arith, z, no_skip, r)

  offload_rewrite-Rewritten : Rewritten h p e c sess (offload_rewrite h s p e c sess)
  offload_rewrite-Rewritten = elim (Option-cases (h.adjust_tail (compact p c) (dl_delta p c))) [
    | inl n ↦ absurd (tail_cut n)
    | inr (q, r) ↦
        let w = offload_rewrite-eq q r in
        let room = dl_write-redirect q (ap (λ (o : Outcome). o.verdict) (sym w) ∙ v) in
        record {
          sizes = offload_skips-Sizes p c fit no_skip;
          cut = q;
          resized = r;
          room = room;
          wrote =
              ap (λ (o : Outcome). o.packet) w
              ∙ dl_write-packet s debugged e.teid (p.len - c) sess q room;
        }
  ]

-- A rewrite that has gone through delivers.
module _ (h : Helpers) (p : Packet) (e : GtpEvent) (c : ℕ) (sess : SessionCtx) (o : Outcome)
    (ok : IsAdjustTail h.adjust_tail) (bytes : IsBytes p.at) (fits : SessionFits sess)
    (port : sess.dst_port ≡ 2153) (udp : is_ipv4_udp p ≡ true) (fit : headers_fit p ≡ true)
    (d : Rewritten h p e c sess o) where
  cut_size : d.cut.len ≡ 54 + (p.len - c)
  cut_size =
      let z = d.sizes in
      let r = ok.resized (compact p c) d.cut (dl_delta p c) d.resized in
      ground (arith, z, len-compact p c, r)

  header_kept : (i : ℕ) → i < 54 → d.cut.at i ≡ p.at i
  header_kept i hi =
      ok.kept (compact p c) d.cut (dl_delta p c) d.resized i
        (omega (arith, len-compact p c, d.sizes)) (omega (arith, d.room))
      ∙ compact-header p c i d.sizes hi

  packet : F1uPacket sess (qfi_to_write e) o.packet
  packet = rw d.wrote (
      dl_bytes-F1uPacket p d.cut (qfi_to_write e) (p.len - c) sess bytes (plain_udp p udp fit) fits
        port (omega (arith, d.sizes)) cut_size header_kept)

  inner : CarriesInner p c o.packet 54
  inner = rw d.wrote (record {
    ends = cut_size;
    same = λ k hk.
        dl_bytes-payload (qfi_to_write e) (p.len - c) (54 + k) sess d.cut.at (omega arith)
        ∙ ok.kept (compact p c) d.cut (dl_delta p c) d.resized (54 + k)
            (omega (arith, len-compact p c, d.sizes)) (omega (arith, cut_size))
        ∙ compact-payload p c k d.sizes hk;
  })

  Rewritten-DeliversF1u : DeliversF1u sess p (e, c) o.packet
  Rewritten-DeliversF1u = record {
    packet = packet;
    inner = inner;
    udp = F1uShape-is_ipv4_udp packet.shape;
    g_pdu = F1uShape-is_g_pdu packet.shape;
  }

-- The parse of a G-PDU.
abbrev pub headers_of : KernelState → Packet → GtpEvent × ℕ
headers_of s p = parse_headers (counted counter_gtpu s) p

abbrev attempted : KernelState → Packet → GtpEvent
attempted s p = record (headers_of s p).0 { offload_attempted = true }

-- The program has come to the rewrite.
record Run (h : Helpers) (s : KernelState) (p : Packet) (sess : SessionCtx) : Type 0 where
  udp : is_ipv4_udp p ≡ true
  found : s.session_map (headers_of s p).0.teid ≡ some sess
  fit : headers_fit p ≡ true
  ran :
      parse_gtpu h s p
      ≡ offload_rewrite h (count_packet counter_gtpu s) p (attempted s p) (headers_of s p).1 sess

report_passes : (s : KernelState) (p : Packet) → (report_non_gtpu s p).verdict ≡ pass
unfolding report_non_gtpu
report_passes s p = refl

module _ (h : Helpers) (s : KernelState) (p : Packet) (i : ℕ)
    (v : (parse_gtpu h s p).verdict ≡ redirect i) where
  comes :
      (is_ipv4_udp p ≡ true)
      × (is_g_pdu p ≡ true)
      × (parse_gtpu h s p
          ≡ offload h (count_packet counter_gtpu s) p (headers_of s p).0 (headers_of s p).1)
  unfolding parse_gtpu
  comes = ground (arith, v, report_passes s p)

  redirect-Run : (sess : SessionCtx) × Run h s p sess
  unfolding offload
  redirect-Run =
      let (udp, g, e) = comes in
      let maps = count_packet-maps counter_gtpu s in
      let w = ap (λ (o : Outcome). o.verdict) (sym e) ∙ v in
      elim (Option-cases (s.session_map (headers_of s p).0.teid)) [
        | inl n ↦ absurd (ground (arith, n, maps, w))
        | inr (sess, f) ↦ elim (Bool-cases (headers_fit p)) [
          | inr no_fit ↦ absurd (ground (arith, f, maps, no_fit, w))
          | inl fit ↦ (
            sess,
            record { udp = udp; found = f; fit = fit; ran = e ∙ ground (arith, f, maps, fit) },
          )
        ]
      ]

  -- A packet that stage 2 redirects has a session under its TEID, and leaves as a correct F1-U packet
  -- for it, with the bytes from the parser's cursor on, up to 1400 of them, unchanged at its end; the
  -- parser of stage 4 reads it back as such. Assumed: the packet's cells are bytes,
  -- bpf_xdp_adjust_tail keeps its word, and the entries of session_map are machine words for port
  -- 2153.
  pub redirect-Delivers :
      IsAdjustTail h.adjust_tail
      → IsBytes p.at
      → ServesF1u s.session_map
      → (count : ℕ)
      → (sess : SessionCtx) × (s.session_map (headers_of s p).0.teid ≡ some sess)
        × DeliversF1u sess p (headers_of s p) (parse_gtpu h s p).packet
        × F1uParsed (parse_gtpu h s p).packet (parse_g_pdu count (parse_gtpu h s p).packet)
  redirect-Delivers ok bytes serves count =
      let (sess, d) = redirect-Run in
      let fits = serves (headers_of s p).0.teid sess d.found in
      let w = ap (λ (o : Outcome). o.verdict) (sym d.ran) ∙ v in
      let s' : KernelState = count_packet counter_gtpu s in
      let went =
        offload_rewrite-Rewritten h s' p (attempted s p) (headers_of s p).1 sess i d.fit w in
      let delivers =
        Rewritten-DeliversF1u h p (attempted s p) (headers_of s p).1 sess _ ok bytes fits.0 fits.1
          d.udp d.fit went in
      (
        sess,
        d.found,
        rw d.ran (record {
          packet = delivers.packet;
          inner = delivers.inner;
          udp = delivers.udp;
          g_pdu = delivers.g_pdu;
        }),
        rw d.ran (F1uShape-F1uParsed count delivers.packet.shape),
      )
