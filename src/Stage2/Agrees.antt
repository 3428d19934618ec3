-- ===== src/Stage2/Agrees.antt =====
-- Stage 2 (artifact/stage_2/construct_and_forward/xdp_gtp_inner_parser.bpf.c) and stage 4 on downlink
-- packets.
use cu_ebpf.Base.{
  Bool, ℕ, zero, suc, ◌+◌, ◌≤◌, ◌≡◌, refl, ap, ◌∙◌, inl, inr, true, false, Bool-cases,
  if◌then◌else◌, pos_part, arith, Option-cases, none, some,
}
use cu_ebpf.Packet.{Mem, Packet, write}
use cu_ebpf.Packet.Copy.{copy_forward}
use cu_ebpf.Session.{SessionCtx}
use cu_ebpf.Event.{GtpEvent}
use cu_ebpf.Parse.{is_g_pdu, outer_ihl, gtp_end, f1u_new_hdr_bytes}
use cu_ebpf.Parse.Bounds.{parse_g_pdu-Within}
use cu_ebpf.Program.Redirect.{parsed}
use cu_ebpf.Xdp.{
  pass, drop, finish, KernelState, Outcome, Helpers, count_packet, counted, counter_gtpu,
}
use cu_ebpf.Downlink.{
  move_len, dl_skips, dl_compact, dl_rewrite, downlink, debug_event, removed_bytes, dl_delta,
  dl_write,
}
use cu_ebpf.Program.{submit_non_gtpu, submit_gtpu}
use cu_ebpf.Program
use cu_ebpf.PduExtender.{report_non_gtpu, parse_headers}
use cu_ebpf.PduExtender.Extends.{IsN3, IsN3-is_f1u, parse_headers-parse_g_pdu}
use cu_ebpf.Stage2.{max_inner_move_bytes, offload_skips, compact, offload_rewrite, offload}
use cu_ebpf.Stage2

-- Rounds beyond the payload do nothing.
pub copy_forward_enough :
    (rounds rounds' i move_len old new limit : ℕ) (m : Mem)
    → move_len ≤ i + rounds
    → move_len ≤ i + rounds'
    → copy_forward rounds i move_len old new limit m
      ≡ copy_forward rounds' i move_len old new limit m
unfolding copy_forward
copy_forward_enough zero zero i move_len old new limit m h h' = refl
copy_forward_enough zero (suc r') i move_len old new limit m h h' = ground arith
copy_forward_enough (suc r) zero i move_len old new limit m h h' = ground arith
copy_forward_enough (suc r) (suc r') i move_len old new limit m h h' = ground (
  arith,
  copy_forward_enough r r' (i + 1) move_len old new limit (write (new + i) (m (old + i)) m),
)

compact-dl_compact : (p : Packet) (c : ℕ) → p.len ≤ c + 512 → compact p c ≡ dl_compact p c
unfolding compact dl_compact
compact-dl_compact p c small =
    ap (λ (m : Mem). record p { at = m })
      (copy_forward_enough max_inner_move_bytes 512 0 (pos_part (move_len p c)) c
        (gtp_end p + f1u_new_hdr_bytes) p.len p.at (ground arith) (ground arith))

offload_skips-dl_skips : (p : Packet) (c : ℕ) → p.len ≤ c + 512 → offload_skips p c ≡ dl_skips p c
unfolding offload_skips dl_skips
offload_skips-dl_skips p c small = ground arith

-- The block of both stages, with its size tests and its compacted packet as arguments.
abbrev rewrite_by :
    Bool → Packet → Helpers → KernelState → Packet → GtpEvent → ℕ → SessionCtx → Outcome
rewrite_by skips compacted h s p e c sess =
    let e' = debug_event e (removed_bytes p c) (move_len p c) (dl_delta p c) in
    if skips then finish pass p e' s else elim (h.adjust_tail compacted (dl_delta p c)) [
      | none ↦ finish drop compacted (record e' { debug_reached_rewrite = true }) s
      | some q ↦ dl_write s (outer_ihl p) e' e.teid (pos_part (move_len p c)) sess q
    ]

offload_rewrite-dl_rewrite :
    (h : Helpers) (s : KernelState) (p : Packet) (e : GtpEvent) (c : ℕ) (sess : SessionCtx)
    → p.len ≤ c + 512
    → offload_rewrite h s p e c sess ≡ dl_rewrite h s p e c sess
unfolding offload_rewrite dl_rewrite
offload_rewrite-dl_rewrite h s p e c sess small =
    ap (λ (b : Bool). rewrite_by b (compact p c) h s p e c sess) (offload_skips-dl_skips p c small)
    ∙ ap (λ (q : Packet). rewrite_by (dl_skips p c) q h s p e c sess) (compact-dl_compact p c small)

offload-downlink :
    (h : Helpers) (s : KernelState) (p : Packet) (e : GtpEvent) (c : ℕ)
    → p.len ≤ c + 512
    → offload h s p e c ≡ downlink h s p e c
unfolding offload downlink
offload-downlink h s p e c small = elim (Option-cases (s.session_map e.teid)) [
  | inl missing ↦ rw (missing, offload, downlink) refl
  | inr (sess, found) ↦ ground (
    arith,
    found,
    offload_rewrite-dl_rewrite h s p (record e { offload_attempted = true }) c sess small,
  )
]

report_non_gtpu-submit_non_gtpu :
    (s : KernelState) (p : Packet) → report_non_gtpu s p ≡ submit_non_gtpu s p
unfolding report_non_gtpu submit_non_gtpu
report_non_gtpu-submit_non_gtpu s p = refl

offload-submit_gtpu :
    (h : Helpers) (s : KernelState) (p : Packet)
    → IsN3 p
    → is_g_pdu p ≡ true
    → p.len ≤ (parsed s p).1 + 512
    → offload h
        (count_packet counter_gtpu s)
        p
        (parse_headers (counted counter_gtpu s) p).0
        (parse_headers (counted counter_gtpu s) p).1
      ≡ submit_gtpu h (count_packet counter_gtpu s) p (parsed s p).0 (parsed s p).1
unfolding submit_gtpu
offload-submit_gtpu h s p n3 g small =
    let n : (parsed s p).0.is_f1u ≡ false =
      (parse_g_pdu-Within (counted counter_gtpu s) p g).header.is_f1u
      ∙ IsN3-is_f1u (counted counter_gtpu s) p n3 in
    ap (λ (r : GtpEvent × ℕ). offload h (count_packet counter_gtpu s) p r.0 r.1)
      (parse_headers-parse_g_pdu (counted counter_gtpu s) p
        (IsN3-is_f1u (counted counter_gtpu s) p n3))
    ∙ offload-downlink h (count_packet counter_gtpu s) p (parsed s p).0 (parsed s p).1 small
    ∙ rw n refl

-- On packets between other ports than the F1-U port, with a payload of at most 512 bytes, stage 2
-- and stage 4 do the same: the verdict, the packet, the event and the tables are equal, whatever the
-- kernel's helpers do.
pub parse_gtpu-parse_gtpu :
    (h : Helpers) (s : KernelState) (p : Packet)
    → IsN3 p
    → p.len ≤ (parsed s p).1 + 512
    → Stage2.parse_gtpu h s p ≡ Program.parse_gtpu h s p
unfolding Stage2.parse_gtpu Program.parse_gtpu
parse_gtpu-parse_gtpu h s p n3 small = elim (Bool-cases (is_g_pdu p)) [
  | inl g ↦ rw g (ground (arith, offload-submit_gtpu h s p n3 g small))
  | inr no_g ↦ rw no_g (ground (arith, report_non_gtpu-submit_non_gtpu s p))
]
