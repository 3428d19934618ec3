-- ===== src/System/Accounts.antt =====
-- The two counters and the ring buffer while the two programs run.
use cu_ebpf.Base.{ℕ, ◌+◌, Bool, true, false, ◌&&◌, if◌then◌else◌}
use cu_ebpf.Packet.{Packet}
use cu_ebpf.Parse.{is_ipv4_udp}
use cu_ebpf.Xdp.{KernelState, Helpers, CounterIndex, same_index}
use cu_ebpf.Program.Counting.{index_of}
use cu_ebpf.System.{
  Platform, System, Step, receive, poll, f1ap, ngap, du_mac, upf_mac, seed, Reach, here, after,
}

-- The packet is a UDP packet for which the ring buffer has room.
abbrev pub is_reported : Helpers → KernelState → Packet → Bool
is_reported h s p = is_ipv4_udp p && h.reserve s.events

-- The step is such a packet of the class.
abbrev step_reports : {pl : Platform} {s t : System} → CounterIndex → Step pl s t → Bool
step_reports {pl} i (receive s p) = is_reported pl.helpers s.kernel p && same_index (index_of p) i
step_reports i (poll s e es taken) = false
step_reports i (f1ap s line) = false
step_reports i (ngap s line) = false
step_reports i (du_mac s found) = false
step_reports i (upf_mac s arp) = false
step_reports i (seed s variable addr fits reads) = false

abbrev step_polls : {pl : Platform} {s t : System} → Step pl s t → Bool
step_polls (receive s p) = false
step_polls (poll s e es taken) = true
step_polls (f1ap s line) = false
step_polls (ngap s line) = false
step_polls (du_mac s found) = false
step_polls (upf_mac s arp) = false
step_polls (seed s variable addr fits reads) = false

-- How many packets of a class were reported on the way.
unfoldable pub count_reported : {pl : Platform} {s t : System} → CounterIndex → Reach pl s t → ℕ
count_reported i here = 0
count_reported i (after r st) = count_reported i r + (if step_reports i st then 1 else 0)

-- How many events were taken off the ring buffer on the way.
unfoldable pub count_polled : {pl : Platform} {s t : System} → Reach pl s t → ℕ
count_polled here = 0
count_polled (after r st) = count_polled r + (if step_polls st then 1 else 0)
