-- ===== src/Downlink/Payload.antt =====
-- What a redirected downlink packet carries: the inner packet, moved down to offset 54.
use cu_ebpf.Base.{
  ℕ, ◌+◌, ◌-◌, ◌≤◌, ◌<◌, ◌≡◌, ◌∙◌, sym, ap, ◌≢◌, refl, true, false, inl, inr, Option-cases, none,
  some, pos_part, neg_part, arith,
}
use cu_ebpf.Packet.{Mem, Packet}
use cu_ebpf.Packet.Copy.{copy_forward_moves}
use cu_ebpf.Session.{SessionCtx}
use cu_ebpf.Event.{GtpEvent}
use cu_ebpf.Rewrite.Outside.{write_headers-outside, write_pdcp_sdap-outside}
use cu_ebpf.Xdp.{KernelState, Outcome, Helpers, IsAdjustTail, redirect}
use cu_ebpf.Downlink.{
  removed_bytes, move_len, dl_delta, headers_fit, dl_skips, dl_compact, dl_framing, dl_bytes,
  dl_write, dl_rewrite, debug_event, qfi_to_write,
}
use cu_ebpf.Downlink.Offload.{DlSizes, dl_skips-DlSizes, dl_rewrite-eq}

pub dl_bytes-payload :
    (qfi len j : ℕ) (sess : SessionCtx) (m : Mem) → 54 ≤ j → dl_bytes 20 qfi len sess m j ≡ m j
unfolding dl_bytes
dl_bytes-payload qfi len j sess m h =
    write_headers-outside 0x30 4 len j sess (dl_framing 20 qfi sess m) (omega arith)
    ∙ write_pdcp_sdap-outside 50 _ qfi j m h

-- The compaction moves the inner packet to offset 54, and changes nothing in front of it.
dl_compact-payload :
    (p : Packet) (c k : ℕ)
    → DlSizes p c
    → k < p.len - c
    → (dl_compact p c).at (54 + k) ≡ p.at (c + k)
unfolding dl_compact
dl_compact-payload p c k z h =
    ground (arith, z, copy_forward_moves 512 0 (p.len - c) c 54 p.len k p.at)

-- What a rewrite that ends in a redirect has gone through: `cut` is the packet behind
-- bpf_xdp_adjust_tail.
pub record DlRedirect (h : Helpers) (s : KernelState) (p : Packet) (e : GtpEvent) (c : ℕ)
    (sess : SessionCtx) : Type 0 where
  pub sizes : DlSizes p c
  pub cut : Packet
  pub resized : h.adjust_tail (dl_compact p c) (dl_delta p c) ≡ some cut
  pub room : 54 ≤ cut.len
  pub wrote :
      dl_rewrite h s p e c sess
      ≡ dl_write s 20
          (debug_event e (removed_bytes p c) (move_len p c) (dl_delta p c))
          e.teid
          (p.len - c)
          sess
          cut

module _ (h : Helpers) (s : KernelState) (p : Packet) (e : GtpEvent) (c : ℕ)
    (sess : SessionCtx) where
  abbrev debugged : GtpEvent
  debugged = debug_event e (removed_bytes p c) (move_len p c) (dl_delta p c)

  dl_write-redirect :
      (q : Packet) (i : ℕ)
      → (dl_write s 20 debugged e.teid (p.len - c) sess q).verdict ≡ redirect i
      → 54 ≤ q.len
  unfolding dl_write
  dl_write-redirect q i v = ground arith

  no_skip : (i : ℕ) → (dl_rewrite h s p e c sess).verdict ≡ redirect i → dl_skips p c ≡ false
  unfolding dl_rewrite
  no_skip i v = ground arith

  tail_cut :
      (i : ℕ)
      → (dl_rewrite h s p e c sess).verdict ≡ redirect i
      → h.adjust_tail (dl_compact p c) (dl_delta p c) ≢ none
  unfolding dl_rewrite
  tail_cut i v = ground arith

  pub dl_rewrite-DlRedirect :
      (i : ℕ)
      → headers_fit p ≡ true
      → (dl_rewrite h s p e c sess).verdict ≡ redirect i
      → DlRedirect h s p e c sess
  dl_rewrite-DlRedirect i fit v =
      elim (Option-cases (h.adjust_tail (dl_compact p c) (dl_delta p c))) [
        | inl n ↦ absurd (tail_cut i v n)
        | inr (q, r) ↦
            let z : DlSizes p c = dl_skips-DlSizes p c fit (no_skip i v) in
            let w = dl_rewrite-eq h s p e c sess z (no_skip i v) q r in
            record {
              sizes = z;
              cut = q;
              resized = r;
              room = dl_write-redirect q i (ap (λ (o : Outcome). o.verdict) (sym w) ∙ v);
              wrote = w;
            }
      ]

-- The inner packet of a redirected downlink packet: the packet ends with it, it stands behind the
-- four PDCP and SDAP bytes, and every byte of it arrives.
pub record CarriesInner (p : Packet) (cursor : ℕ) (q : Packet) (offset : ℕ) : Type 0 where
  pub ends : q.len ≡ offset + (p.len - cursor)
  pub same : (k : ℕ) → k < p.len - cursor → q.at (offset + k) ≡ p.at (cursor + k)

-- Behind a shortened packet that holds the new headers, every test passes.
pub dl_write-packet :
    (s : KernelState) (e : GtpEvent) (teid len : ℕ) (sess : SessionCtx) (q : Packet)
    → 54 ≤ q.len
    → (dl_write s 20 e teid len sess q).packet
      ≡ record { at = dl_bytes 20 (qfi_to_write e) len sess q.at; len = q.len }
unfolding dl_write
dl_write-packet s e teid len sess q h = ground arith

pub len-dl_compact : (p : Packet) (c : ℕ) → (dl_compact p c).len ≡ p.len
unfolding dl_compact
len-dl_compact p c = refl

pub cut_len :
    (p q : Packet) (c : ℕ)
    → DlSizes p c
    → q.len + neg_part (dl_delta p c) ≡ (dl_compact p c).len + pos_part (dl_delta p c)
    → q.len ≡ 54 + (p.len - c)
cut_len p q c z r = ground (arith, z, len-dl_compact p c)

pub dl_rewrite-CarriesInner :
    (h : Helpers) (s : KernelState) (p : Packet) (e : GtpEvent) (c : ℕ) (sess : SessionCtx)
    → IsAdjustTail h.adjust_tail
    → DlRedirect h s p e c sess
    → CarriesInner p c (dl_rewrite h s p e c sess).packet 54
dl_rewrite-CarriesInner h s p e c sess ok d =
    rw (d.wrote, dl_write-packet s _ e.teid (p.len - c) sess d.cut d.room)
      (record {
        ends = omega (arith, size, d.sizes);
        same = λ k hk.
            dl_bytes-payload _ _ (54 + k) sess d.cut.at (omega arith)
            ∙ ok.kept (dl_compact p c) d.cut (dl_delta p c) d.resized (54 + k) (in_old k hk)
                (in_cut k hk)
            ∙ dl_compact-payload p c k d.sizes hk;
      })
  where
    size : d.cut.len ≡ 54 + (p.len - c)
    size = cut_len p d.cut c d.sizes (ok.resized (dl_compact p c) d.cut (dl_delta p c) d.resized)

    in_old : (k : ℕ) → k < p.len - c → 54 + k < (dl_compact p c).len
    in_old k hk = omega (arith, len-dl_compact p c, d.sizes)

    in_cut : (k : ℕ) → k < p.len - c → 54 + k < d.cut.len
    in_cut k hk = omega (arith, size)
