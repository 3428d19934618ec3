-- ===== src/Event.antt =====
-- struct gtp_event of artifact/stage_4/xdp_gtp_inner_parser.bpf.c: what the kernel program reports
-- through the ring buffer. A field that holds only 0 or 1 is a Bool; the padding is left out.
use cu_ebpf.Base.{ℕ, Bool, false, List, [], ◌∷◌, ℤ, pos}

pub record GtpEvent : Type 0 where
  pub outer_src_ip : ℕ
  pub outer_dst_ip : ℕ
  pub inner_src_ip : ℕ
  pub inner_dst_ip : ℕ
  pub teid : ℕ
  pub outer_src_port : ℕ
  pub outer_dst_port : ℕ
  pub gtp_length : ℕ
  pub version : ℕ
  pub protocol_type : ℕ
  pub message_type : ℕ
  pub flag_e : Bool
  pub flag_s : Bool
  pub flag_pn : Bool
  pub sequence_present : Bool
  pub npdu_present : Bool
  pub sequence_number : ℕ
  pub npdu_number : ℕ
  pub first_extension_type : ℕ
  pub extension_count : ℕ
  pub extension_types : List ℕ
  pub pdu_type_present : Bool
  pub pdu_type : ℕ
  pub qfi_present : Bool
  pub qfi : ℕ
  pub inner_ip_present : Bool
  pub inner_protocol : ℕ
  pub is_gtpu : Bool
  pub offload_attempted : Bool
  pub offload_applied : Bool
  pub offload_new_teid : ℕ
  pub offload_new_dst_ip : ℕ
  pub offload_new_dst_port : ℕ
  pub debug_old_removed_bytes : ℤ
  pub debug_move_len : ℤ
  pub debug_delta : ℤ
  pub debug_reached_rewrite : Bool
  pub debug_flags_right_after_write : ℕ
  pub debug_flags_right_before_redirect : ℕ
  pub is_f1u : Bool
  pub f1u_pdcp_sn_present : Bool
  pub f1u_pdcp_sn : ℕ
  pub ul_map_lookup_attempted : Bool
  pub ul_map_lookup_hit : Bool
  pub ul_map_ready : Bool
  pub gtpu_count : ℕ
  pub udp_non_gtpu_count : ℕ

-- __builtin_memset(event, 0, sizeof(*event))
abbrev pub zero_event : GtpEvent
zero_event = record {
  outer_src_ip = 0;
  outer_dst_ip = 0;
  inner_src_ip = 0;
  inner_dst_ip = 0;
  teid = 0;
  outer_src_port = 0;
  outer_dst_port = 0;
  gtp_length = 0;
  version = 0;
  protocol_type = 0;
  message_type = 0;
  flag_e = false;
  flag_s = false;
  flag_pn = false;
  sequence_present = false;
  npdu_present = false;
  sequence_number = 0;
  npdu_number = 0;
  first_extension_type = 0;
  extension_count = 0;
  extension_types = 0 ∷ 0 ∷ 0 ∷ 0 ∷ [];
  pdu_type_present = false;
  pdu_type = 0;
  qfi_present = false;
  qfi = 0;
  inner_ip_present = false;
  inner_protocol = 0;
  is_gtpu = false;
  offload_attempted = false;
  offload_applied = false;
  offload_new_teid = 0;
  offload_new_dst_ip = 0;
  offload_new_dst_port = 0;
  debug_old_removed_bytes = pos 0;
  debug_move_len = pos 0;
  debug_delta = pos 0;
  debug_reached_rewrite = false;
  debug_flags_right_after_write = 0;
  debug_flags_right_before_redirect = 0;
  is_f1u = false;
  f1u_pdcp_sn_present = false;
  f1u_pdcp_sn = 0;
  ul_map_lookup_attempted = false;
  ul_map_lookup_hit = false;
  ul_map_ready = false;
  gtpu_count = 0;
  udp_non_gtpu_count = 0;
}
