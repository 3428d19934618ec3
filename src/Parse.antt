-- ===== src/Parse.antt =====
-- The parsing half of parse_gtpu (artifact/stage_4/xdp_gtp_inner_parser.bpf.c): from the Ethernet
-- header to the inner IPv4 header. Offsets count from ctx->data, and a pointer test against data_end
-- is a test against the packet's length.
pub mod Bounds
pub mod Chain
pub mod Qfi
pub mod Loop
pub mod Count
pub mod Extensions
pub mod Shapes
use cu_ebpf.Base.{
  ℕ, zero, suc, ◌+◌, ◌-◌, ◌*◌, ◌/◌, ◌%◌, Bool, true, false, not, ◌&&◌, ◌||◌, ltb, leb, ◌==◌,
  if◌then◌else◌, set,
}
use cu_ebpf.Packet.{Packet, be16, be32}
use cu_ebpf.Event.{GtpEvent, zero_event}

abbrev pub gtpu_port : ℕ
gtpu_port = 2152

abbrev pub gtpu_port_alt : ℕ
gtpu_port_alt = 2153

abbrev pub gtpu_g_pdu : ℕ
gtpu_g_pdu = 255

abbrev pub gtp_ext_pdu_session_container : ℕ
gtp_ext_pdu_session_container = 0x85

abbrev pub max_extension_headers : ℕ
max_extension_headers = 4

abbrev pub f1u_new_hdr_bytes : ℕ
f1u_new_hdr_bytes = 4

-- sizeof(struct ethhdr), and the offset of the outer IP header.
abbrev pub eth_len : ℕ
eth_len = 14

-- outer_ip->ihl * 4
abbrev pub outer_ihl : Packet → ℕ
outer_ihl p = p.at 14 % 16 * 4

-- The offset of the UDP header; the GTP-U header stands 8 bytes on.
abbrev pub udp_offset : Packet → ℕ
udp_offset p = eth_len + outer_ihl p

abbrev pub gtp_offset : Packet → ℕ
gtp_offset p = udp_offset p + 8

-- The offset behind the mandatory GTP-U header, `gtp + 1`.
abbrev pub gtp_end : Packet → ℕ
gtp_end p = udp_offset p + 16

-- The tests before the event is reserved: a complete Ethernet, IPv4 and UDP header.
unfoldable pub is_ipv4_udp : Packet → Bool
is_ipv4_udp p =
    not (ltb p.len 14)
    && be16 p.at 12 == 0x0800
    && not (ltb p.len 34)
    && p.at 23 == 17
    && not (ltb (outer_ihl p) 20)
    && not (ltb p.len (udp_offset p + 8))

-- Source or destination is one of the two GTP-U ports, the base header is complete, and it is a
-- GTPv1-U G-PDU.
unfoldable pub is_g_pdu : Packet → Bool
is_g_pdu p =
    (be16 p.at (udp_offset p) == gtpu_port
      || be16 p.at (udp_offset p + 2) == gtpu_port
      || be16 p.at (udp_offset p) == gtpu_port_alt
      || be16 p.at (udp_offset p + 2) == gtpu_port_alt)
    && not (ltb p.len (gtp_end p))
    && p.at (gtp_offset p) / 32 == 1
    && not (p.at (gtp_offset p) / 16 % 2 == 0)
    && p.at (gtp_offset p + 1) == gtpu_g_pdu

-- The event as it stands before the classification.
unfoldable pub outer_event : Packet → GtpEvent
outer_event p = record zero_event {
  outer_src_ip = be32 p.at 26;
  outer_dst_ip = be32 p.at 30;
  outer_src_port = be16 p.at (udp_offset p);
  outer_dst_port = be16 p.at (udp_offset p + 2);
}

-- The fields of the mandatory header; `count` is what the counter gave for gtpu_count.
unfoldable pub header_event : ℕ → Packet → GtpEvent
unfolding outer_event
header_event count p = record (outer_event p) {
  is_gtpu = true;
  is_f1u =
      be16 p.at (udp_offset p) == gtpu_port_alt || be16 p.at (udp_offset p + 2) == gtpu_port_alt;
  gtpu_count = count;
  version = p.at (gtp_offset p) / 32;
  protocol_type = p.at (gtp_offset p) / 16 % 2;
  flag_e = p.at (gtp_offset p) / 4 % 2 == 1;
  flag_s = p.at (gtp_offset p) / 2 % 2 == 1;
  flag_pn = p.at (gtp_offset p) % 2 == 1;
  message_type = p.at (gtp_offset p + 1);
  gtp_length = be16 p.at (gtp_offset p + 2);
  teid = be32 p.at (gtp_offset p + 4);
}

-- Where a stage of the parser leaves: `goto submit`, or the next stage with the type of the next
-- extension. Each has the event and the cursor as they stand then.
pub data Flow : Type 0 where
  submit : GtpEvent → ℕ → Flow
  next : GtpEvent → ℕ → ℕ → Flow

-- The four optional bytes, present if any of E, S and PN is set.
unfoldable pub parse_optional : Packet → GtpEvent → ℕ → Flow
parse_optional p e cursor =
    if p.at (gtp_offset p) % 8 == 0
    then next e cursor 0
    else if ltb p.len (cursor + 4)
    then submit e cursor
    else next
        (record e {
          sequence_number = if e.flag_s then be16 p.at cursor else e.sequence_number;
          sequence_present = e.flag_s || e.sequence_present;
          npdu_number = if e.flag_pn then p.at (cursor + 2) else e.npdu_number;
          npdu_present = e.flag_pn || e.npdu_present;
          first_extension_type = p.at (cursor + 3);
        })
        (cursor + 4) (p.at (cursor + 3))

-- The type of an extension, recorded while there is room.
unfoldable pub record_extension : GtpEvent → ℕ → GtpEvent
record_extension e type =
    if ltb e.extension_count max_extension_headers
    then record e {
      extension_types = set e.extension_types e.extension_count type;
      extension_count = e.extension_count + 1;
    }
    else e

-- Behind the extension at `cursor`, of `bytes` bytes.
unfoldable pub skip_extension : Packet → GtpEvent → ℕ → ℕ → Flow
skip_extension p e cursor bytes =
    if ltb p.len (cursor + bytes)
    then submit e cursor
    else if ltb p.len (cursor + bytes - 1 + 1)
    then submit e cursor
    else next e (cursor + bytes) (p.at (cursor + bytes - 1))

-- PDU type and QFI of a PDU Session Container at `cursor`.
unfoldable pub container_event : Packet → GtpEvent → ℕ → GtpEvent
container_event p e cursor = record e {
  pdu_type = p.at (cursor + 1) / 16 % 16;
  pdu_type_present = true;
  qfi = p.at (cursor + 2) % 64;
  qfi_present = true;
}

-- One round of the extension loop, behind its break test.
unfoldable pub walk_extension : Packet → GtpEvent → ℕ → ℕ → Flow
unfolding record_extension skip_extension container_event
walk_extension p e cursor next_extension =
    if ltb p.len (cursor + 1)
    then submit e cursor
    else if ltb (p.at cursor * 4) 2 || ltb 256 (p.at cursor * 4)
    then submit e cursor
    else if next_extension == gtp_ext_pdu_session_container && leb 4 (p.at cursor * 4)
    then (if ltb p.len (cursor + 3)
        then submit (record_extension e next_extension) cursor
        else skip_extension p (container_event p (record_extension e next_extension) cursor) cursor
            (p.at cursor * 4))
    else skip_extension p (record_extension e next_extension) cursor (p.at cursor * 4)

-- The extension loop, with the rounds that are left.
unfoldable pub walk_extensions : ℕ → Packet → GtpEvent → ℕ → ℕ → Flow
walk_extensions zero p e cursor next_extension = next e cursor next_extension
walk_extensions (suc rounds) p e cursor next_extension =
    elim (not e.flag_e || next_extension == 0) [
      | true ↦ next e cursor next_extension
      | false ↦ elim (walk_extension p e cursor next_extension) [
        | submit e' c ↦ submit e' c
        | next e' c n ↦ walk_extensions rounds p e' c n
      ]
    ]

-- The PDCP and SDAP bytes of F1-U framing.
unfoldable pub parse_f1u : Packet → GtpEvent → ℕ → Flow
parse_f1u p e cursor =
    if e.is_f1u && not e.flag_e
    then (if ltb p.len (cursor + f1u_new_hdr_bytes)
        then submit e cursor
        else next
            (record e {
              f1u_pdcp_sn = p.at cursor % 4 * 65536 + p.at (cursor + 1) * 256 + p.at (cursor + 2);
              f1u_pdcp_sn_present = true;
              qfi = p.at (cursor + 3) % 64;
              qfi_present = true;
            })
            (cursor + f1u_new_hdr_bytes) 0)
    else next e cursor 0

-- The inner IPv4 header; the cursor stays in front of it.
unfoldable pub parse_inner : Packet → GtpEvent → ℕ → GtpEvent
parse_inner p e cursor =
    if ltb p.len (cursor + 20)
    then e
    else if not (p.at cursor / 16 == 4)
    then e
    else if ltb (p.at cursor % 16 * 4) 20 || ltb p.len (cursor + p.at cursor % 16 * 4)
    then e
    else record e {
      inner_src_ip = be32 p.at (cursor + 12);
      inner_dst_ip = be32 p.at (cursor + 16);
      inner_protocol = p.at (cursor + 9);
      inner_ip_present = true;
    }

-- From `submit` on the event and the cursor are all that is left of a stage.
unfoldable pub after_f1u : Packet → Flow → GtpEvent × ℕ
unfolding parse_inner
after_f1u p (submit e cursor) = (e, cursor)
after_f1u p (next e cursor n) = (parse_inner p e cursor, cursor)

unfoldable pub after_walk : Packet → Flow → GtpEvent × ℕ
unfolding parse_f1u after_f1u
after_walk p (submit e cursor) = (e, cursor)
after_walk p (next e cursor n) =
    if e.flag_e && not (n == 0) then (e, cursor) else after_f1u p (parse_f1u p e cursor)

unfoldable pub after_optional : Packet → Flow → GtpEvent × ℕ
unfolding walk_extensions walk_extension after_walk
after_optional p (submit e cursor) = (e, cursor)
after_optional p (next e cursor n) =
    after_walk p (walk_extensions max_extension_headers p e cursor n)

-- The parser behind the classification, up to `submit`: the event and the cursor.
unfoldable pub parse_g_pdu : ℕ → Packet → GtpEvent × ℕ
unfolding header_event parse_optional after_optional
parse_g_pdu count p = after_optional p (parse_optional p (header_event count p) (gtp_end p))
