-- ===== src/Uplink/Payload.antt =====
-- What a redirected uplink packet carries: the inner packet, moved up to offset 58.
use cu_ebpf.Base.{ℕ, ◌+◌, ◌-◌, ◌≤◌, ◌<◌, ◌≡◌, ◌∙◌, ap, sym, pos_part, neg_part, arith}
use cu_ebpf.Packet.{Mem, Packet}
use cu_ebpf.Packet.Copy.{copy_backward_moves}
use cu_ebpf.Session.{SessionCtx}
use cu_ebpf.Event.{GtpEvent}
use cu_ebpf.Rewrite.Outside.{write_headers-outside, write_container-outside}
use cu_ebpf.Xdp.{KernelState, Helpers, IsAdjustTail}
use cu_ebpf.Downlink.{qfi_to_write}
use cu_ebpf.Downlink.Payload.{CarriesInner}
use cu_ebpf.Uplink.{ul_delta, ul_shift, ul_framing, ul_bytes, ul_write, ul_rewrite}
use cu_ebpf.Uplink.Offload.{UlSizes, UlRedirect}

ul_bytes-payload :
    (qfi len limit j : ℕ) (sess : SessionCtx) (m : Mem)
    → 58 ≤ j
    → ul_bytes 20 qfi len sess limit m j ≡ ul_shift 20 len limit m j
unfolding ul_bytes
ul_bytes-payload qfi len limit j sess m h =
    write_headers-outside 0x34 8 len j sess (ul_framing 20 qfi len limit m) (omega arith)
    ∙ write_container-outside 50 qfi j (ul_shift 20 len limit m) h

ul_shift-payload :
    (len limit k : ℕ) (m : Mem)
    → len ≤ 512
    → 58 + len ≤ limit
    → k < len
    → ul_shift 20 len limit m (58 + k) ≡ m (54 + k)
unfolding ul_shift
ul_shift-payload len limit k m h room hk =
    copy_backward_moves 512 0 len 54 58 limit k m (omega arith) room (omega arith) (omega arith)

-- Behind a grown packet that holds the new headers, every test passes.
pub ul_write-packet :
    (s : KernelState) (e : GtpEvent) (len : ℕ) (sess : SessionCtx) (q : Packet)
    → 58 ≤ q.len
    → (ul_write s 20 e len sess q).packet
      ≡ record { at = ul_bytes 20 (qfi_to_write e) len sess q.len q.at; len = q.len }
unfolding ul_write
ul_write-packet s e len sess q h = ground arith

pub grown_len :
    (p q : Packet) (c : ℕ)
    → UlSizes p c
    → q.len + neg_part (ul_delta p c) ≡ p.len + pos_part (ul_delta p c)
    → q.len ≡ p.len + 4
grown_len p q c z r = ground (arith, z)

pub ul_rewrite-CarriesInner :
    (h : Helpers) (s : KernelState) (p : Packet) (e : GtpEvent) (c : ℕ) (sess : SessionCtx)
    → IsAdjustTail h.adjust_tail
    → UlRedirect h s p e c sess
    → CarriesInner p c (ul_rewrite h s p e c sess).packet 58
ul_rewrite-CarriesInner h s p e c sess ok d =
    rw (d.wrote, ul_write-packet s _ (p.len - c) sess d.grown d.room)
      (record {
        ends = omega (arith, size, d.sizes);
        same = λ k hk.
            ul_bytes-payload _ _ _ (58 + k) sess d.grown.at (omega arith)
            ∙ ul_shift-payload (p.len - c) d.grown.len k d.grown.at (omega (arith, d.sizes))
                (omega (arith, size, d.sizes)) hk
            ∙ ok.kept p d.grown (ul_delta p c) d.resized (54 + k) (omega (arith, d.sizes))
                (omega (arith, size, d.sizes))
            ∙ ap (λ (i : ℕ). p.at (i + k)) (sym d.sizes.removed);
      })
  where
    size : d.grown.len ≡ p.len + 4
    size = grown_len p d.grown c d.sizes (ok.resized p d.grown (ul_delta p c) d.resized)
