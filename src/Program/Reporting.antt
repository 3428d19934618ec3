-- ===== src/Program/Reporting.antt =====
-- What the event of a G-PDU tells the userspace program of the packet: the fields from which it
-- learns a session.
use cu_ebpf.Base.{ℕ, ◌≡◌, true, arith}
use cu_ebpf.Packet.{Packet}
use cu_ebpf.Event.{GtpEvent}
use cu_ebpf.Parse.{is_ipv4_udp, is_g_pdu}
use cu_ebpf.Xdp.{KernelState, Helpers, count_packet, counter_gtpu}
use cu_ebpf.Downlink.{downlink}
use cu_ebpf.Uplink.{uplink}
use cu_ebpf.Program.{parse_gtpu, submit_gtpu}
use cu_ebpf.Program.Counting.{newest}
use cu_ebpf.Program.Redirect.{parsed}

-- The two events agree in what print_event looks at before it learns.
pub record SameReport (d e : GtpEvent) : Type 0 where
  pub gtpu : d.is_gtpu ≡ e.is_gtpu
  pub teid : d.teid ≡ e.teid
  pub inner : d.inner_ip_present ≡ e.inner_ip_present
  pub f1u : d.is_f1u ≡ e.is_f1u

downlink-SameReport :
    (h : Helpers) (s : KernelState) (p : Packet) (e : GtpEvent) (c : ℕ)
    → SameReport (newest (downlink h s p e c).state.events) e
unfolding downlink
downlink-SameReport h s p e c = ground arith

uplink-SameReport :
    (h : Helpers) (s : KernelState) (p : Packet) (e : GtpEvent) (c : ℕ)
    → SameReport (newest (uplink h s p e c).state.events) e
unfolding uplink
uplink-SameReport h s p e c = ground arith

submit_gtpu-SameReport :
    (h : Helpers) (s : KernelState) (p : Packet) (e : GtpEvent) (c : ℕ)
    → SameReport (newest (submit_gtpu h s p e c).state.events) e
unfolding submit_gtpu
submit_gtpu-SameReport h s p e c =
    ground (arith, downlink-SameReport h s p e c, uplink-SameReport h s p e c)

-- The event of a G-PDU, redirected or not, has the TEID and the classification that the parser found.
pub parse_gtpu-SameReport :
    (h : Helpers) (s : KernelState) (p : Packet)
    → is_ipv4_udp p ≡ true
    → h.reserve s.events ≡ true
    → is_g_pdu p ≡ true
    → SameReport (newest (parse_gtpu h s p).state.events) (parsed s p).0
unfolding parse_gtpu
parse_gtpu-SameReport h s p udp room g =
    rw (udp, room, g)
      (submit_gtpu-SameReport h (count_packet counter_gtpu s) p (parsed s p).0 (parsed s p).1)
