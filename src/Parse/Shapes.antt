-- ===== src/Parse/Shapes.antt =====
-- The parser of parse_gtpu on the two header shapes that the offload blocks write.
use cu_ebpf.Base.{ℕ, ◌+◌, ◌*◌, ◌/◌, ◌%◌, ◌≤◌, ◌≡◌, ◌≢◌, true, false, arith}
use cu_ebpf.Packet.{Packet, be16, be32}
use cu_ebpf.Event.{GtpEvent}
use cu_ebpf.Parse.{
  outer_ihl, is_ipv4_udp, is_g_pdu, outer_event, header_event, parse_g_pdu, parse_inner,
}

-- Ethernet, IPv4 without options, UDP.
pub record PlainUdp (p : Packet) : Type 0 where
  pub proto : be16 p.at 12 ≡ 0x0800
  pub ihl : outer_ihl p ≡ 20
  pub udp : p.at 23 ≡ 17

-- F1-U framing: a GTP-U header without optional bytes, to the F1-U port.
pub record F1uShape (p : Packet) : Type 0 where
  pub plain : PlainUdp p
  pub room : 54 ≤ p.len
  pub port : be16 p.at 36 ≡ 2153
  pub flags : p.at 42 ≡ 0x30
  pub kind : p.at 43 ≡ 255

pub F1uShape-is_ipv4_udp : {p : Packet} → F1uShape p → is_ipv4_udp p ≡ true
unfolding is_ipv4_udp
F1uShape-is_ipv4_udp f = ground arith

pub F1uShape-is_g_pdu : {p : Packet} → F1uShape p → is_g_pdu p ≡ true
unfolding is_g_pdu
F1uShape-is_g_pdu f = ground arith

-- What the parser reads off such a packet.
pub record F1uParsed (p : Packet) (r : GtpEvent × ℕ) : Type 0 where
  pub cursor : r.1 ≡ 54
  pub is_f1u : r.0.is_f1u ≡ true
  pub teid : r.0.teid ≡ be32 p.at 46
  pub sn_present : r.0.f1u_pdcp_sn_present ≡ true
  pub sn : r.0.f1u_pdcp_sn ≡ p.at 50 % 4 * 65536 + p.at 51 * 256 + p.at 52
  pub qfi_present : r.0.qfi_present ≡ true
  pub qfi : r.0.qfi ≡ p.at 53 % 64

pub F1uShape-F1uParsed : {p : Packet} (count : ℕ) → F1uShape p → F1uParsed p (parse_g_pdu count p)
unfolding parse_g_pdu header_event outer_event
F1uShape-F1uParsed {p} count f = ground arith

-- N3 framing as the uplink block writes it: E alone is set, and one PDU Session Container of type UL
-- stands between the GTP-U header and the inner packet.
pub record N3Shape (p : Packet) : Type 0 where
  pub plain : PlainUdp p
  pub room : 58 ≤ p.len
  pub source : be16 p.at 34 ≢ 2153
  pub port : be16 p.at 36 ≡ 2152
  pub flags : p.at 42 ≡ 0x34
  pub kind : p.at 43 ≡ 255
  pub next_type : p.at 53 ≡ 0x85
  pub units : p.at 54 ≡ 1
  pub last_type : p.at 57 ≡ 0

pub N3Shape-is_g_pdu : {p : Packet} → N3Shape p → (is_ipv4_udp p ≡ true) × (is_g_pdu p ≡ true)
unfolding is_g_pdu is_ipv4_udp
N3Shape-is_g_pdu f = ground arith

pub record N3Parsed (p : Packet) (r : GtpEvent × ℕ) : Type 0 where
  pub cursor : r.1 ≡ 58
  pub is_f1u : r.0.is_f1u ≡ false
  pub teid : r.0.teid ≡ be32 p.at 46
  pub pdu_type_present : r.0.pdu_type_present ≡ true
  pub pdu_type : r.0.pdu_type ≡ p.at 55 / 16 % 16
  pub qfi_present : r.0.qfi_present ≡ true
  pub qfi : r.0.qfi ≡ p.at 56 % 64
  pub one_extension : r.0.extension_count ≡ 1

pub N3Shape-N3Parsed : {p : Packet} (count : ℕ) → N3Shape p → N3Parsed p (parse_g_pdu count p)
unfolding parse_g_pdu header_event outer_event parse_inner
N3Shape-N3Parsed {p} count f = ground arith
