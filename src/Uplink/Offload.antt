-- ===== src/Uplink/Offload.antt =====
-- When the uplink offload block rewrites, and that a rewrite ends in a redirect.
use cu_ebpf.Base.{
  ℕ, ◌+◌, ◌≤◌, ◌-◌, ◌≡◌, ◌≢◌, ◌∙◌, ap, sym, true, false, Option-cases, inl, inr, none, some, pos,
  neg_part, pos_part, arith,
}
use cu_ebpf.Packet.{Packet}
use cu_ebpf.Session.{SessionCtx}
use cu_ebpf.Event.{GtpEvent}
use cu_ebpf.Parse.{outer_ihl}
use cu_ebpf.Xdp.{KernelState, Outcome, Helpers, IsAdjustTail, CanResize, redirect}
use cu_ebpf.Downlink.{headers_fit, debug_event, removed_bytes, move_len}
use cu_ebpf.Uplink.{ul_skips, ul_delta, ul_write, ul_rewrite}

-- The sizes that a rewrite meets: exactly the four PDCP and SDAP bytes are replaced, in front of at
-- most 512 bytes of payload.
pub record UlSizes (p : Packet) (cursor : ℕ) : Type 0 where
  pub ihl : outer_ihl p ≡ 20
  pub head : 50 ≤ p.len
  pub removed : cursor ≡ 54
  pub payload_low : 54 ≤ p.len
  pub payload_high : p.len ≤ 566
  pub delta : ul_delta p cursor ≡ pos 4

pub ul_skips-UlSizes :
    (p : Packet) (cursor : ℕ) → headers_fit p ≡ true → ul_skips p cursor ≡ false → UlSizes p cursor
unfolding ul_skips
ul_skips-UlSizes p cursor fit no_skip = ground arith

-- What a rewrite that ends in a redirect has gone through: `grown` is the packet behind
-- bpf_xdp_adjust_tail.
pub record UlRedirect (h : Helpers) (s : KernelState) (p : Packet) (e : GtpEvent) (c : ℕ)
    (sess : SessionCtx) : Type 0 where
  pub sizes : UlSizes p c
  pub grown : Packet
  pub resized : h.adjust_tail p (ul_delta p c) ≡ some grown
  pub room : 58 ≤ grown.len
  pub wrote :
      ul_rewrite h s p e c sess
      ≡ ul_write s 20
          (debug_event e (removed_bytes p c) (move_len p c) (ul_delta p c))
          (p.len - c)
          sess
          grown

module _ (h : Helpers) (s : KernelState) (p : Packet) (e : GtpEvent) (c : ℕ)
    (sess : SessionCtx) where
  abbrev debugged : GtpEvent
  debugged = debug_event e (removed_bytes p c) (move_len p c) (ul_delta p c)

  ul_write-redirect :
      (q : Packet) (i : ℕ)
      → (ul_write s 20 debugged (p.len - c) sess q).verdict ≡ redirect i
      → 58 ≤ q.len
  unfolding ul_write
  ul_write-redirect q i v = ground arith

  no_skip : (i : ℕ) → (ul_rewrite h s p e c sess).verdict ≡ redirect i → ul_skips p c ≡ false
  unfolding ul_rewrite
  no_skip i v = ground arith

  tail_grown :
      (i : ℕ)
      → (ul_rewrite h s p e c sess).verdict ≡ redirect i
      → h.adjust_tail p (ul_delta p c) ≢ none
  unfolding ul_rewrite
  tail_grown i v = ground arith

  ul_rewrite-eq :
      UlSizes p c
      → ul_skips p c ≡ false
      → (q : Packet) → h.adjust_tail p (ul_delta p c) ≡ some q
      → ul_rewrite h s p e c sess ≡ ul_write s 20 debugged (p.len - c) sess q
  unfolding ul_rewrite
  ul_rewrite-eq z n q r = ground (arith, z, r)

  pub ul_rewrite-UlRedirect :
      (i : ℕ)
      → headers_fit p ≡ true
      → (ul_rewrite h s p e c sess).verdict ≡ redirect i
      → UlRedirect h s p e c sess
  ul_rewrite-UlRedirect i fit v = elim (Option-cases (h.adjust_tail p (ul_delta p c))) [
    | inl n ↦ absurd (tail_grown i v n)
    | inr (q, r) ↦
        let z : UlSizes p c = ul_skips-UlSizes p c fit (no_skip i v) in
        let w = ul_rewrite-eq z (no_skip i v) q r in
        record {
          sizes = z;
          grown = q;
          resized = r;
          room = ul_write-redirect q i (ap (λ (o : Outcome). o.verdict) (sym w) ∙ v);
          wrote = w;
        }
  ]

module _ (h : Helpers) (ok : IsAdjustTail h.adjust_tail) (room : CanResize h.adjust_tail 4) where
  pub ul_rewrite-redirects :
      (s : KernelState) (p : Packet) (e : GtpEvent) (c : ℕ) (sess : SessionCtx)
      → headers_fit p ≡ true
      → ul_skips p c ≡ false
      → (ul_rewrite h s p e c sess).verdict ≡ redirect sess.egress_ifindex
  unfolding ul_rewrite
  ul_rewrite-redirects s p e c sess fit no_skip =
      let z : UlSizes p c = ul_skips-UlSizes p c fit no_skip in
      let (q, grown) = room p (ul_delta p c) (ground (arith, z)) (ground (arith, z)) in
      let size : q.len + neg_part (ul_delta p c) ≡ p.len + pos_part (ul_delta p c) =
        ok.resized p q (ul_delta p c) grown in
      ground (arith, z, grown, size)
