-- ===== src/Downlink/Offload.antt =====
-- When the downlink offload block rewrites, and that a rewrite ends in a redirect.
use cu_ebpf.Base.{
  ℕ, ◌+◌, ◌-◌, ◌≤◌, ◌≡◌, ◌∙◌, ap, refl, true, false, some, pos_part, neg_part, arith,
}
use cu_ebpf.Packet.{Packet}
use cu_ebpf.Session.{SessionCtx}
use cu_ebpf.Event.{GtpEvent}
use cu_ebpf.Parse.{outer_ihl}
use cu_ebpf.Xdp.{KernelState, Outcome, Helpers, IsAdjustTail, CanResize, redirect}
use cu_ebpf.Downlink.{
  removed_bytes, move_len, debug_event, dl_delta, headers_fit, dl_skips, dl_compact, dl_write,
  dl_rewrite,
}

-- The sizes that a rewrite meets: `removed` bytes of optional fields and extensions are replaced by
-- four, in front of at most 512 bytes of payload.
pub record DlSizes (p : Packet) (cursor : ℕ) : Type 0 where
  pub ihl : outer_ihl p ≡ 20
  pub head : 50 ≤ p.len
  pub removed_low : 54 ≤ cursor
  pub removed_high : cursor ≤ 114
  pub payload_low : cursor ≤ p.len
  pub payload_high : p.len ≤ cursor + 512

-- A rewrite is made exactly at such sizes.
pub dl_skips-DlSizes :
    (p : Packet) (cursor : ℕ) → headers_fit p ≡ true → dl_skips p cursor ≡ false → DlSizes p cursor
unfolding dl_skips
dl_skips-DlSizes p cursor fit no_skip = ground arith

-- A rewrite cuts what stands between the four new bytes and the payload.
dl_delta-parts :
    (p : Packet) (c : ℕ)
    → DlSizes p c
    → (pos_part (dl_delta p c) ≡ 0) × (neg_part (dl_delta p c) ≡ c - 54)
dl_delta-parts p c z = ground (arith, z)

dl_compact-len : (p : Packet) (c : ℕ) → (dl_compact p c).len ≡ p.len
unfolding dl_compact
dl_compact-len p c = refl

dl_write-redirects :
    (s : KernelState) (e : GtpEvent) (teid len : ℕ) (sess : SessionCtx) (q : Packet)
    → 54 ≤ q.len
    → (dl_write s 20 e teid len sess q).verdict ≡ redirect sess.egress_ifindex
unfolding dl_write
dl_write-redirects s e teid len sess q h = ground arith

-- Where the block does not skip and the tail is cut, what is left is dl_write.
pub dl_rewrite-eq :
    (h : Helpers) (s : KernelState) (p : Packet) (e : GtpEvent) (c : ℕ) (sess : SessionCtx)
    → DlSizes p c
    → dl_skips p c ≡ false
    → (q : Packet) → h.adjust_tail (dl_compact p c) (dl_delta p c) ≡ some q
    → dl_rewrite h s p e c sess
      ≡ dl_write s 20
          (debug_event e (removed_bytes p c) (move_len p c) (dl_delta p c))
          e.teid
          (p.len - c)
          sess
          q
unfolding dl_rewrite
dl_rewrite-eq h s p e c sess z n q r = ground (arith, z, r)

module _ (h : Helpers) (ok : IsAdjustTail h.adjust_tail) (room : CanResize h.adjust_tail 4) where
  pub dl_rewrite-redirects :
      (s : KernelState) (p : Packet) (e : GtpEvent) (c : ℕ) (sess : SessionCtx)
      → headers_fit p ≡ true
      → dl_skips p c ≡ false
      → (dl_rewrite h s p e c sess).verdict ≡ redirect sess.egress_ifindex
  dl_rewrite-redirects s p e c sess fit no_skip =
      let z : DlSizes p c = dl_skips-DlSizes p c fit no_skip in
      let d = dl_delta-parts p c z in
      let same = dl_compact-len p c in
      let (q, cut) =
        room (dl_compact p c) (dl_delta p c)
          (rw (same, d.0, d.1) (omega (arith, z.payload_low, z.removed_low, z.head)))
          (rw d.0 (omega arith)) in
      let size = ok.resized (dl_compact p c) q (dl_delta p c) cut in
      ap (λ (o : Outcome). o.verdict) (dl_rewrite-eq h s p e c sess z no_skip q cut)
      ∙ dl_write-redirects s _ e.teid _ sess q
          (enough q.len _ _ _ size same d.0 d.1 z.removed_low z.payload_low)
    where
      enough :
          (n neg len plus : ℕ)
          → n + neg ≡ len + plus
          → len ≡ p.len
          → plus ≡ 0
          → neg ≡ c - 54
          → 54 ≤ c
          → c ≤ p.len
          → 54 ≤ n
      enough n neg len plus size e0 e1 e2 low fits = omega arith
