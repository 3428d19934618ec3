-- ===== src/Program/Safety.antt =====
-- What parse_gtpu may do to a packet and to the maps, whatever the packet holds.
use cu_ebpf.Base.{ℕ, ◌≡◌, arith}
use cu_ebpf.Packet.{Packet}
use cu_ebpf.Event.{GtpEvent}
use cu_ebpf.Parse.{parse_g_pdu}
use cu_ebpf.Xdp.{
  KernelState, Outcome, Helpers, pass, count_packet, counted, CounterIndex, counter_gtpu,
  counter_udp_non_gtpu,
}
use cu_ebpf.Downlink.{downlink}
use cu_ebpf.Uplink.{uplink}
use cu_ebpf.Program.{parse_gtpu}

-- What a packet that passes has in common with the packet that came in, and the tables.
abbrev pub Untouched : KernelState → Packet → Outcome → Type 0
Untouched s p o =
    (o.packet ≡ p)
    × (o.state.session_map ≡ s.session_map)
    × (o.state.ul_session_map ≡ s.ul_session_map)

downlink-pass :
    (h : Helpers) (s : KernelState) (p : Packet) (e : GtpEvent) (c : ℕ)
    → (downlink h s p e c).verdict ≡ pass
    → Untouched s p (downlink h s p e c)
unfolding downlink
downlink-pass h s p e c v = ground arith

uplink-pass :
    (h : Helpers) (s : KernelState) (p : Packet) (e : GtpEvent) (c : ℕ)
    → (uplink h s p e c).verdict ≡ pass
    → Untouched s p (uplink h s p e c)
unfolding uplink
uplink-pass h s p e c v = ground arith

pub count_packet-maps :
    (i : CounterIndex) (s : KernelState)
    → ((count_packet i s).session_map ≡ s.session_map)
      × ((count_packet i s).ul_session_map ≡ s.ul_session_map)
unfolding count_packet
count_packet-maps i s = ground arith

-- A packet that the program passes on to the CU is the packet that came in, and neither session
-- table has changed.
pub pass-Untouched :
    (h : Helpers) (s : KernelState) (p : Packet)
    → (parse_gtpu h s p).verdict ≡ pass
    → Untouched s p (parse_gtpu h s p)
unfolding parse_gtpu
pass-Untouched h s p v = ground (
  arith,
  downlink-pass h (count_packet counter_gtpu s) p (parse_g_pdu (counted counter_gtpu s) p).0
      (parse_g_pdu (counted counter_gtpu s) p).1,
  uplink-pass h (count_packet counter_gtpu s) p (parse_g_pdu (counted counter_gtpu s) p).0
      (parse_g_pdu (counted counter_gtpu s) p).1,
  count_packet-maps counter_gtpu s,
  count_packet-maps counter_udp_non_gtpu s,
)
