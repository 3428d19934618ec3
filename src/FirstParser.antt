-- ===== src/FirstParser.antt =====
-- ebpf-gtp-parser/xdp_gtp_inner_parser.bpf.c: the first parser, which knows port 2152 only and reports
-- neither the types of the extension headers nor the PDU type. Its state is the two counters; an
-- event is submitted at most once, and every packet passes.
pub mod Forgets
pub mod Userspace
use cu_ebpf.Base.{
  ℕ, zero, suc, ◌+◌, ◌-◌, ◌*◌, ◌/◌, ◌%◌, ◌^◌, Bool, true, false, not, ◌&&◌, ◌||◌, Option, none,
  some, ltb, leb, ◌==◌, if◌then◌else◌,
}
use cu_ebpf.Packet.{Packet, be16, be32}
use cu_ebpf.Parse.{
  udp_offset, gtp_offset, gtp_end, is_ipv4_udp, gtpu_port, gtpu_g_pdu,
  gtp_ext_pdu_session_container,
}
use cu_ebpf.Xdp.{CounterIndex, counter_gtpu, counter_udp_non_gtpu, set_count, Verdict, pass}

pub record GtpEvent : Type 0 where
  pub outer_src_ip : ℕ
  pub outer_dst_ip : ℕ
  pub inner_src_ip : ℕ
  pub inner_dst_ip : ℕ
  pub teid : ℕ
  pub outer_src_port : ℕ
  pub outer_dst_port : ℕ
  pub gtp_length : ℕ
  pub version : ℕ
  pub protocol_type : ℕ
  pub message_type : ℕ
  pub flag_e : Bool
  pub flag_s : Bool
  pub flag_pn : Bool
  pub sequence_present : Bool
  pub npdu_present : Bool
  pub sequence_number : ℕ
  pub npdu_number : ℕ
  pub first_extension_type : ℕ
  pub qfi_present : Bool
  pub qfi : ℕ
  pub inner_ip_present : Bool
  pub inner_protocol : ℕ
  pub is_gtpu : Bool
  pub gtpu_count : ℕ
  pub udp_non_gtpu_count : ℕ

-- The tests that lead to submit_non_gtpu, negated.
unfoldable pub is_plain_g_pdu : Packet → Bool
is_plain_g_pdu p =
    (be16 p.at (udp_offset p) == gtpu_port || be16 p.at (udp_offset p + 2) == gtpu_port)
    && not (ltb p.len (gtp_end p))
    && p.at (gtp_offset p) / 32 == 1
    && not (p.at (gtp_offset p) / 16 % 2 == 0)
    && p.at (gtp_offset p + 1) == gtpu_g_pdu

-- The zeroed event with the outer addresses and ports.
unfoldable pub udp_event : Packet → GtpEvent
udp_event p = record {
  outer_src_ip = be32 p.at 26;
  outer_dst_ip = be32 p.at 30;
  inner_src_ip = 0;
  inner_dst_ip = 0;
  teid = 0;
  outer_src_port = be16 p.at (udp_offset p);
  outer_dst_port = be16 p.at (udp_offset p + 2);
  gtp_length = 0;
  version = 0;
  protocol_type = 0;
  message_type = 0;
  flag_e = false;
  flag_s = false;
  flag_pn = false;
  sequence_present = false;
  npdu_present = false;
  sequence_number = 0;
  npdu_number = 0;
  first_extension_type = 0;
  qfi_present = false;
  qfi = 0;
  inner_ip_present = false;
  inner_protocol = 0;
  is_gtpu = false;
  gtpu_count = 0;
  udp_non_gtpu_count = 0;
}

-- And the fields of the mandatory header.
unfoldable pub gtp_event : ℕ → Packet → GtpEvent
unfolding udp_event
gtp_event count p = record (udp_event p) {
  is_gtpu = true;
  gtpu_count = count;
  version = p.at (gtp_offset p) / 32;
  protocol_type = p.at (gtp_offset p) / 16 % 2;
  flag_e = p.at (gtp_offset p) / 4 % 2 == 1;
  flag_s = p.at (gtp_offset p) / 2 % 2 == 1;
  flag_pn = p.at (gtp_offset p) % 2 == 1;
  message_type = p.at (gtp_offset p + 1);
  gtp_length = be16 p.at (gtp_offset p + 2);
  teid = be32 p.at (gtp_offset p + 4);
}

-- `goto submit` with the event as it stands, or the next stage with the cursor and the type of the
-- next extension.
pub data Stage : Type 0 where
  leave : GtpEvent → Stage
  go_on : GtpEvent → ℕ → ℕ → Stage

unfoldable pub optional_bytes : Packet → GtpEvent → ℕ → Stage
optional_bytes p e cursor =
    if p.at (gtp_offset p) % 8 == 0
    then go_on e cursor 0
    else if ltb p.len (cursor + 4)
    then leave e
    else go_on
        (record e {
          sequence_number = if e.flag_s then be16 p.at cursor else e.sequence_number;
          sequence_present = e.flag_s || e.sequence_present;
          npdu_number = if e.flag_pn then p.at (cursor + 2) else e.npdu_number;
          npdu_present = e.flag_pn || e.npdu_present;
          first_extension_type = p.at (cursor + 3);
        })
        (cursor + 4) (p.at (cursor + 3))

unfoldable pub next_type : Packet → GtpEvent → ℕ → ℕ → Stage
next_type p e cursor bytes =
    if ltb p.len (cursor + bytes)
    then leave e
    else if ltb p.len (cursor + bytes - 1 + 1)
    then leave e
    else go_on e (cursor + bytes) (p.at (cursor + bytes - 1))

-- One round of the extension loop, behind its break test.
unfoldable pub extension_round : Packet → GtpEvent → ℕ → ℕ → Stage
unfolding next_type
extension_round p e cursor next_extension =
    if ltb p.len (cursor + 1)
    then leave e
    else if ltb (p.at cursor * 4) 2 || ltb 256 (p.at cursor * 4)
    then leave e
    else if next_extension == gtp_ext_pdu_session_container && leb 4 (p.at cursor * 4)
    then (if ltb p.len (cursor + 3)
        then leave e
        else next_type p (record e { qfi = p.at (cursor + 2) % 64; qfi_present = true }) cursor
            (p.at cursor * 4))
    else next_type p e cursor (p.at cursor * 4)

-- The extension loop, with the rounds that are left; the code has four.
unfoldable pub extension_loop : ℕ → Packet → GtpEvent → ℕ → ℕ → Stage
extension_loop zero p e cursor next_extension = go_on e cursor next_extension
extension_loop (suc rounds) p e cursor next_extension = elim (not e.flag_e || next_extension == 0) [
  | true ↦ go_on e cursor next_extension
  | false ↦ elim (extension_round p e cursor next_extension) [
    | leave e' ↦ leave e'
    | go_on e' c n ↦ extension_loop rounds p e' c n
  ]
]

unfoldable pub inner_header : Packet → GtpEvent → ℕ → GtpEvent
inner_header p e cursor =
    if ltb p.len (cursor + 20)
    then e
    else if not (p.at cursor / 16 == 4)
    then e
    else if ltb (p.at cursor % 16 * 4) 20 || ltb p.len (cursor + p.at cursor % 16 * 4)
    then e
    else record e {
      inner_src_ip = be32 p.at (cursor + 12);
      inner_dst_ip = be32 p.at (cursor + 16);
      inner_protocol = p.at (cursor + 9);
      inner_ip_present = true;
    }

unfoldable pub behind_loop : Packet → Stage → GtpEvent
unfolding inner_header
behind_loop p (leave e) = e
behind_loop p (go_on e cursor n) = if e.flag_e && not (n == 0) then e else inner_header p e cursor

unfoldable pub behind_optional : Packet → Stage → GtpEvent
unfolding extension_loop extension_round behind_loop
behind_optional p (leave e) = e
behind_optional p (go_on e cursor n) = behind_loop p (extension_loop 4 p e cursor n)

-- From the G-PDU header to `submit`.
unfoldable pub gtp_fields : ℕ → Packet → GtpEvent
unfolding gtp_event optional_bytes behind_optional
gtp_fields count p = behind_optional p (optional_bytes p (gtp_event count p) (gtp_end p))

abbrev pub PacketCounts : Type 0
PacketCounts = CounterIndex → Option ℕ

-- __sync_fetch_and_add on a counter that the lookup found, and what is stored of it in the event.
abbrev pub add_one : CounterIndex → PacketCounts → PacketCounts
add_one i counts = elim (counts i) [
  | none ↦ counts
  | some n ↦ set_count i ((n + 1) % 2 ^ 64) counts
]

abbrev pub fetched : CounterIndex → PacketCounts → ℕ
fetched i counts = elim (counts i) [ none ↦ 0 | some n ↦ (n + 1) % 2 ^ 64 ]

-- What a run leaves: the verdict, the event that it submits, and the counters.
pub record Report : Type 0 where
  pub verdict : Verdict
  pub submitted : Option GtpEvent
  pub packet_counts : PacketCounts

-- `room` is what bpf_ringbuf_reserve finds.
unfoldable pub parse_gtpu : Bool → PacketCounts → Packet → Report
parse_gtpu room counts p =
    if not (is_ipv4_udp p) || not room
    then record { verdict = pass; submitted = none; packet_counts = counts }
    else if not (is_plain_g_pdu p)
    then record {
      verdict = pass;
      submitted =
          some (record (udp_event p) { udp_non_gtpu_count = fetched counter_udp_non_gtpu counts });
      packet_counts = add_one counter_udp_non_gtpu counts;
    }
    else record {
      verdict = pass;
      submitted = some (gtp_fields (fetched counter_gtpu counts) p);
      packet_counts = add_one counter_gtpu counts;
    }
