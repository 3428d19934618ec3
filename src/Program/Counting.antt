-- ===== src/Program/Counting.antt =====
-- What parse_gtpu reports and counts: one event and one count for each UDP packet.
use cu_ebpf.Base.{
  ℕ, ◌≡◌, true, false, ◌&&◌, List, [], ◌∷◌, if◌then◌else◌, arith, Bool-cases, inl, inr,
}
use cu_ebpf.Packet.{Packet}
use cu_ebpf.Event.{GtpEvent, zero_event}
use cu_ebpf.Parse.{is_ipv4_udp, is_g_pdu, header_event, outer_event, parse_g_pdu}
use cu_ebpf.Parse.Bounds.{parse_g_pdu-Within}
use cu_ebpf.Xdp.{
  KernelState, Outcome, Helpers, count_packet, counted, CounterIndex, counter_gtpu,
  counter_udp_non_gtpu,
}
use cu_ebpf.Downlink.{downlink}
use cu_ebpf.Uplink.{uplink}
use cu_ebpf.Program.{parse_gtpu}

-- The event that was submitted last.
abbrev pub newest : List GtpEvent → GtpEvent
newest [] = zero_event
newest (e ∷ es) = e

-- One event was submitted; it keeps the classification and the counters of `e`.
record Submitted (s : KernelState) (e : GtpEvent) (o : Outcome) : Type 0 where
  one : o.state.events ≡ newest o.state.events ∷ s.events
  counts : o.state.packet_counts ≡ s.packet_counts
  gtpu : (newest o.state.events).is_gtpu ≡ e.is_gtpu
  gtpu_count : (newest o.state.events).gtpu_count ≡ e.gtpu_count
  udp_count : (newest o.state.events).udp_non_gtpu_count ≡ e.udp_non_gtpu_count

downlink-Submitted :
    (h : Helpers) (s : KernelState) (p : Packet) (e : GtpEvent) (c : ℕ)
    → Submitted s e (downlink h s p e c)
unfolding downlink
downlink-Submitted h s p e c = ground arith

uplink-Submitted :
    (h : Helpers) (s : KernelState) (p : Packet) (e : GtpEvent) (c : ℕ)
    → Submitted s e (uplink h s p e c)
unfolding uplink
uplink-Submitted h s p e c = ground arith

-- The counter that a UDP packet is counted by.
abbrev pub index_of : Packet → CounterIndex
index_of p = if is_g_pdu p then counter_gtpu else counter_udp_non_gtpu

-- What the report of a UDP packet says: its class, and the count of that class.
pub record Reports (s : KernelState) (p : Packet) (o : Outcome) : Type 0 where
  pub one : o.state.events ≡ newest o.state.events ∷ s.events
  pub counts : o.state.packet_counts ≡ (count_packet (index_of p) s).packet_counts
  pub class : (newest o.state.events).is_gtpu ≡ is_g_pdu p
  pub gtpu_count :
      (newest o.state.events).gtpu_count ≡ (if is_g_pdu p then counted counter_gtpu s else 0)
  pub udp_count :
      (newest o.state.events).udp_non_gtpu_count
      ≡ (if is_g_pdu p then 0 else counted counter_udp_non_gtpu s)

pub count_packet-events :
    (i : CounterIndex) (s : KernelState) → (count_packet i s).events ≡ s.events
unfolding count_packet
count_packet-events i s = ground arith

g_pdu-Reports :
    (h : Helpers) (s : KernelState) (p : Packet)
    → is_ipv4_udp p ≡ true
    → h.reserve s.events ≡ true
    → is_g_pdu p ≡ true
    → Reports s p (parse_gtpu h s p)
unfolding parse_gtpu header_event outer_event
g_pdu-Reports h s p udp room g =
    let s' : KernelState = count_packet counter_gtpu s in
    let count : ℕ = counted counter_gtpu s in
    ground (
      arith,
      parse_g_pdu-Within count p g,
      count_packet-events counter_gtpu s,
      downlink-Submitted h s' p (parse_g_pdu count p).0 (parse_g_pdu count p).1,
      uplink-Submitted h s' p (parse_g_pdu count p).0 (parse_g_pdu count p).1,
    )

other-Reports :
    (h : Helpers) (s : KernelState) (p : Packet)
    → is_ipv4_udp p ≡ true
    → h.reserve s.events ≡ true
    → is_g_pdu p ≡ false
    → Reports s p (parse_gtpu h s p)
unfolding parse_gtpu outer_event
other-Reports h s p udp room g = ground (arith, count_packet-events counter_udp_non_gtpu s)

-- A complete IPv4 UDP packet for which the ring buffer has room is reported by exactly one event and
-- counted by exactly one counter: a G-PDU by the GTP-U counter, any other by the other one. The event
-- says which class it is, and carries that counter's new value.
pub parse_gtpu-Reports :
    (h : Helpers) (s : KernelState) (p : Packet)
    → is_ipv4_udp p ≡ true
    → h.reserve s.events ≡ true
    → Reports s p (parse_gtpu h s p)
parse_gtpu-Reports h s p udp room = elim (Bool-cases (is_g_pdu p)) [
  | inl g ↦ g_pdu-Reports h s p udp room g
  | inr g ↦ other-Reports h s p udp room g
]

-- Any other packet leaves the state as it is.
pub silent :
    (h : Helpers) (s : KernelState) (p : Packet)
    → (is_ipv4_udp p && h.reserve s.events) ≡ false
    → (parse_gtpu h s p).state ≡ s
unfolding parse_gtpu
silent h s p e = ground arith
