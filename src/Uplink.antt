-- ===== src/Uplink.antt =====
-- The uplink offload block of parse_gtpu (artifact/stage_4/xdp_gtp_inner_parser.bpf.c): an
-- F1-U-shaped packet becomes an N3-shaped one.
pub mod Offload
pub mod Payload
pub mod Framing
use cu_ebpf.Base.{
  ℕ, ◌+◌, Bool, true, not, ◌&&◌, ◌||◌, none, some, ltb, if◌then◌else◌, ℤ, pos, pos_part, ◌-ℤ◌,
  ltb_ℤ,
}
use cu_ebpf.Packet.{Mem, Packet}
use cu_ebpf.Packet.Copy.{copy_backward}
use cu_ebpf.Session.{SessionCtx}
use cu_ebpf.Event.{GtpEvent}
use cu_ebpf.Parse.{outer_ihl, f1u_new_hdr_bytes}
use cu_ebpf.Xdp.{KernelState, Outcome, Helpers, pass, drop, redirect, finish}
use cu_ebpf.Rewrite.{write_route, write_headers, write_container}
use cu_ebpf.Downlink.{
  max_inner_move_bytes, removed_bytes, move_len, headers_fit, debug_event, qfi_to_write,
  applied_event,
}

-- Four optional bytes and a PDU Session Container of four.
abbrev pub new_hdr_bytes : ℕ
new_hdr_bytes = 4 + 4

abbrev pub ul_delta : Packet → ℕ → ℤ
ul_delta p cursor = pos new_hdr_bytes -ℤ removed_bytes p cursor

abbrev pub is_four : ℤ → Bool
is_four d = not (ltb_ℤ d (pos f1u_new_hdr_bytes)) && not (ltb_ℤ (pos f1u_new_hdr_bytes) d)

unfoldable pub ul_skips : Packet → ℕ → Bool
ul_skips p cursor =
    not (is_four (removed_bytes p cursor))
    || ltb_ℤ (move_len p cursor) (pos 0)
    || ltb_ℤ (pos max_inner_move_bytes) (move_len p cursor)
    || not (ltb_ℤ (pos 0) (ul_delta p cursor))
    || ltb_ℤ (pos 64) (ul_delta p cursor)

-- The inner payload shifted right; `m` is the memory behind bpf_xdp_adjust_tail, `limit` its
-- data_end.
unfoldable pub ul_shift : ℕ → ℕ → ℕ → Mem → Mem
ul_shift ihl len limit m =
    copy_backward max_inner_move_bytes 0 len (14 + ihl + 16 + f1u_new_hdr_bytes)
      (14 + ihl + 16 + new_hdr_bytes) limit m

-- The optional bytes and the container in the room that the shift made.
unfoldable pub ul_framing : ℕ → ℕ → ℕ → ℕ → Mem → Mem
unfolding ul_shift
ul_framing ihl qfi len limit m = write_container (14 + ihl + 16) qfi (ul_shift ihl len limit m)

-- All the rewritten bytes.
unfoldable pub ul_bytes : ℕ → ℕ → ℕ → SessionCtx → ℕ → Mem → Mem
unfolding ul_framing
ul_bytes ihl qfi len sess limit m =
    write_headers ihl 0x34 new_hdr_bytes len sess (ul_framing ihl qfi len limit m)

-- Behind bpf_xdp_adjust_tail: the tests on the fresh pointers, the shift, the writes, the redirect.
-- The last test comes behind the shift, as in the code.
unfoldable pub ul_write : KernelState → ℕ → GtpEvent → ℕ → SessionCtx → Packet → Outcome
unfolding ul_bytes
ul_write s ihl e len sess q =
    if ltb q.len 14 || ltb q.len 34 || ltb q.len (14 + ihl + 8) || ltb q.len (14 + ihl + 16)
    then finish drop q (record e { debug_reached_rewrite = true }) s
    else if ltb q.len (14 + ihl + 16 + new_hdr_bytes)
    then finish drop (record q { at = ul_shift ihl len q.len q.at })
        (record e { debug_reached_rewrite = true }) s
    else let m = ul_bytes ihl (qfi_to_write e) len sess q.len q.at in
      finish (redirect sess.egress_ifindex) (record q { at = m })
        (applied_event e sess
          (write_route ihl 0x34 sess (ul_framing ihl (qfi_to_write e) len q.len q.at)
            (14 + ihl + 8))
          (m (14 + ihl + 8)))
        s

unfoldable pub ul_rewrite : Helpers → KernelState → Packet → GtpEvent → ℕ → SessionCtx → Outcome
unfolding ul_write ul_skips
ul_rewrite h s p e cursor sess =
    let e' = debug_event e (removed_bytes p cursor) (move_len p cursor) (ul_delta p cursor) in
    if ul_skips p cursor then finish pass p e' s else elim (h.adjust_tail p (ul_delta p cursor)) [
      | none ↦ finish drop p (record e' { debug_reached_rewrite = true }) s
      | some q ↦ ul_write s (outer_ihl p) e' (pos_part (move_len p cursor)) sess q
    ]

-- The whole block, entered for a G-PDU with F1-U framing.
unfoldable pub uplink : Helpers → KernelState → Packet → GtpEvent → ℕ → Outcome
unfolding ul_rewrite
uplink h s p e cursor =
    let e' = record e { ul_map_lookup_attempted = true; offload_attempted = true } in
    elim (s.ul_session_map e.teid) [
      | none ↦ finish pass p e' s
      | some sess ↦
          let e'' = record e' { ul_map_lookup_hit = true; ul_map_ready = sess.ready } in
          if sess.ready && headers_fit p
          then ul_rewrite h s p e'' cursor sess
          else finish pass p e'' s
    ]
