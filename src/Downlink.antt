-- ===== src/Downlink.antt =====
-- The downlink offload block of parse_gtpu (artifact/stage_4/xdp_gtp_inner_parser.bpf.c): an
-- N3-shaped packet becomes an F1-U-shaped one. Distances are C `long`s; packets are shorter than
-- 2^31, so the casts to int keep them.
pub mod Offload
pub mod Payload
pub mod Framing
use cu_ebpf.Base.{
  ℕ, ◌+◌, ◌%◌, ◌^◌, Bool, true, ◌&&◌, ◌||◌, none, some, ltb, leb, ◌==◌, if◌then◌else◌, ℤ, pos,
  pos_part, ◌-ℤ◌, sub_ℕ, ltb_ℤ,
}
use cu_ebpf.Packet.{Mem, Packet}
use cu_ebpf.Packet.Copy.{copy_forward}
use cu_ebpf.Session.{SessionCtx, insert}
use cu_ebpf.Event.{GtpEvent}
use cu_ebpf.Parse.{outer_ihl, udp_offset, gtp_end, f1u_new_hdr_bytes}
use cu_ebpf.Xdp.{KernelState, Outcome, Helpers, pass, drop, redirect, finish}
use cu_ebpf.Rewrite.{write_route, write_headers, write_pdcp_sdap}

abbrev pub max_inner_move_bytes : ℕ
max_inner_move_bytes = 512

abbrev pub pdcp_sn_max : ℕ
pdcp_sn_max = 0x3ffff

-- old_removed_bytes, move_len and delta
abbrev pub removed_bytes : Packet → ℕ → ℤ
removed_bytes p cursor = sub_ℕ cursor (gtp_end p)

abbrev pub move_len : Packet → ℕ → ℤ
move_len p cursor = sub_ℕ p.len cursor

abbrev pub dl_delta : Packet → ℕ → ℤ
dl_delta p cursor = pos f1u_new_hdr_bytes -ℤ removed_bytes p cursor

-- The header tests that come with the map lookup.
abbrev pub headers_fit : Packet → Bool
headers_fit p =
    outer_ihl p == 20
    && leb 14 p.len
    && leb 34 p.len
    && leb (udp_offset p + 8) p.len
    && leb (gtp_end p) p.len

-- What makes the block skip the rewrite.
unfoldable pub dl_skips : Packet → ℕ → Bool
dl_skips p cursor =
    ltb_ℤ (removed_bytes p cursor) (pos 0)
    || ltb_ℤ (pos 64) (removed_bytes p cursor)
    || ltb_ℤ (move_len p cursor) (pos 0)
    || ltb_ℤ (pos max_inner_move_bytes) (move_len p cursor)
    || ltb_ℤ (pos 0) (dl_delta p cursor)

abbrev pub debug_event : GtpEvent → ℤ → ℤ → ℤ → GtpEvent
debug_event e removed len delta = record e {
  debug_old_removed_bytes = removed;
  debug_move_len = len;
  debug_delta = delta;
}

-- The packet with its payload compacted, before its tail is cut.
unfoldable pub dl_compact : Packet → ℕ → Packet
dl_compact p cursor = record p {
  at =
      copy_forward max_inner_move_bytes 0 (pos_part (move_len p cursor)) cursor
        (gtp_end p + f1u_new_hdr_bytes) p.len p.at;
}

-- __sync_fetch_and_add on a __u32; the sequence number is what is read back, cut to 18 bits.
abbrev pub bump_sn : SessionCtx → SessionCtx
bump_sn sess = record sess { next_dl_pdcp_sn = (sess.next_dl_pdcp_sn + 1) % 2 ^ 32 }

abbrev pub qfi_to_write : GtpEvent → ℕ
qfi_to_write e = if e.qfi_present then e.qfi else 0

-- The PDCP and SDAP bytes; `m` is the memory behind bpf_xdp_adjust_tail.
unfoldable pub dl_framing : ℕ → ℕ → SessionCtx → Mem → Mem
dl_framing ihl qfi sess m =
    write_pdcp_sdap (14 + ihl + 16) ((bump_sn sess).next_dl_pdcp_sn % (pdcp_sn_max + 1)) qfi m

-- All the rewritten bytes.
unfoldable pub dl_bytes : ℕ → ℕ → ℕ → SessionCtx → Mem → Mem
unfolding dl_framing
dl_bytes ihl qfi len sess m =
    write_headers ihl 0x30 f1u_new_hdr_bytes len sess (dl_framing ihl qfi sess m)

-- What the event reports of an applied rewrite; `flags` and `last_flags` are the flags
-- byte as it is read back behind its store and before the redirect.
abbrev pub applied_event : GtpEvent → SessionCtx → ℕ → ℕ → GtpEvent
applied_event e sess flags last_flags = record e {
  debug_reached_rewrite = true;
  debug_flags_right_after_write = flags;
  offload_applied = true;
  offload_new_teid = sess.peer_teid;
  offload_new_dst_ip = sess.dst_ip;
  offload_new_dst_port = sess.dst_port;
  debug_flags_right_before_redirect = last_flags;
}

-- Behind bpf_xdp_adjust_tail: the tests on the fresh pointers, the writes, the redirect.
unfoldable pub dl_write : KernelState → ℕ → GtpEvent → ℕ → ℕ → SessionCtx → Packet → Outcome
unfolding dl_bytes
dl_write s ihl e teid len sess q =
    if ltb q.len 14
      || ltb q.len 34
      || ltb q.len (14 + ihl + 8)
      || ltb q.len (14 + ihl + 16)
      || ltb q.len (14 + ihl + 16 + f1u_new_hdr_bytes)
    then finish drop q (record e { debug_reached_rewrite = true }) s
    else let m = dl_bytes ihl (qfi_to_write e) len sess q.at in
      finish (redirect sess.egress_ifindex) (record q { at = m })
        (applied_event e sess
          (write_route ihl 0x30 sess (dl_framing ihl (qfi_to_write e) sess q.at) (14 + ihl + 8))
          (m (14 + ihl + 8)))
        (record s { session_map = insert teid (bump_sn sess) s.session_map })

-- The block for a packet whose TEID has a session.
unfoldable pub dl_rewrite : Helpers → KernelState → Packet → GtpEvent → ℕ → SessionCtx → Outcome
unfolding dl_write dl_skips dl_compact
dl_rewrite h s p e cursor sess =
    let e' = debug_event e (removed_bytes p cursor) (move_len p cursor) (dl_delta p cursor) in
    if dl_skips p cursor
    then finish pass p e' s
    else elim (h.adjust_tail (dl_compact p cursor) (dl_delta p cursor)) [
      | none ↦ finish drop (dl_compact p cursor) (record e' { debug_reached_rewrite = true }) s
      | some q ↦ dl_write s (outer_ihl p) e' e.teid (pos_part (move_len p cursor)) sess q
    ]

-- The whole block, entered for a G-PDU without F1-U framing.
unfoldable pub downlink : Helpers → KernelState → Packet → GtpEvent → ℕ → Outcome
unfolding dl_rewrite
downlink h s p e cursor =
    let e' = record e { offload_attempted = true } in
    elim (s.session_map e.teid) [
      | none ↦ finish pass p e' s
      | some sess ↦ if headers_fit p then dl_rewrite h s p e' cursor sess else finish pass p e' s
    ]
