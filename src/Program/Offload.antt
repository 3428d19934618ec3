-- ===== src/Program/Offload.antt =====
-- What decides between redirect, drop and pass.
use cu_ebpf.Base.{ℕ, ◌≡◌, ap, inl, inr, true, arith}
use cu_ebpf.Packet.{Packet}
use cu_ebpf.Session.{SessionCtx, SessionMap, empty_map}
use cu_ebpf.Event.{GtpEvent}
use cu_ebpf.Xdp.{KernelState, Helpers, pass}
use cu_ebpf.Downlink.{dl_rewrite, dl_skips}
use cu_ebpf.Uplink.{ul_rewrite, ul_skips}
use cu_ebpf.Program.{parse_gtpu}
use cu_ebpf.Program.Redirect.{parsed, parse_gtpu-Runs}

pub dl_rewrite-pass :
    (h : Helpers) (s : KernelState) (p : Packet) (e : GtpEvent) (c : ℕ) (sess : SessionCtx)
    → dl_skips p c ≡ true
    → (dl_rewrite h s p e c sess).verdict ≡ pass
unfolding dl_rewrite
dl_rewrite-pass h s p e c sess y = ground arith

pub ul_rewrite-pass :
    (h : Helpers) (s : KernelState) (p : Packet) (e : GtpEvent) (c : ℕ) (sess : SessionCtx)
    → ul_skips p c ≡ true
    → (ul_rewrite h s p e c sess).verdict ≡ pass
unfolding ul_rewrite
ul_rewrite-pass h s p e c sess y = ground arith

-- With both session tables empty every packet passes.
pub pass_of_empty :
    (h : Helpers) (s : KernelState) (p : Packet)
    → s.session_map ≡ empty_map
    → s.ul_session_map ≡ empty_map
    → (parse_gtpu h s p).verdict ≡ pass
pass_of_empty h s p dl ul = elim (parse_gtpu-Runs h s p) [
  | inl passes ↦ passes
  | inr (inl (sess, d)) ↦ absurd (cc (ap (λ (m : SessionMap). m (parsed s p).0.teid) dl, d.found))
  | inr (inr (sess, d)) ↦ absurd (cc (ap (λ (m : SessionMap). m (parsed s p).0.teid) ul, d.found))
]
