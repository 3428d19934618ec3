-- ===== src/Switch/Views.antt =====
-- The switch and the datagrams that the maps and packets of
-- artifact/stage_4/xdp_gtp_inner_parser.bpf.c stand for.
use cu_ebpf.Base.{
  ℕ, zero, suc, ◌+◌, ◌-◌, ◌<◌, ◌≡◌, refl, true, false, Bool, ◌&&◌, List, [], ◌∷◌, Option, none,
  some, if◌then◌else◌, arith,
}
use cu_ebpf.Packet.{Mem, Packet}
use cu_ebpf.Session.{SessionCtx}
use cu_ebpf.Event.{GtpEvent}
use cu_ebpf.Parse.{is_ipv4_udp, is_g_pdu, parse_g_pdu}
use cu_ebpf.Xdp.{KernelState, Outcome, pass, drop, redirect}
use cu_ebpf.Downlink.{qfi_to_write}
use cu_ebpf.Program.Verdicts.{dl_fits, ul_fits}
use cu_ebpf.Switch.{Side, upf_side, du_side, Datagram, Route, Switch}

-- `n` bytes from `i` on
abbrev pub bytes : Mem → ℕ → ℕ → List ℕ
bytes m i zero = []
bytes m i (suc n) = m i ∷ bytes m (i + 1) n

pub bytes-same :
    (m m' : Mem) (i i' n : ℕ)
    → ((k : ℕ) → k < n → m' (i' + k) ≡ m (i + k))
    → bytes m' i' n ≡ bytes m i n
bytes-same m m' i i' zero same = refl
bytes-same m m' i i' (suc n) same =
    let rest =
      bytes-same m m' (i + 1) (i' + 1) n (λ k less. ground (arith, same (k + 1) (omega arith))) in
    ground (arith, rest, same 0 (omega arith))

abbrev pub side_of : Bool → Side
side_of true = du_side
side_of false = upf_side

-- A G-PDU, by what the parser leaves of it: the payload reaches from the cursor to the packet's end.
abbrev pub datagram_of : Packet → GtpEvent × ℕ → Datagram
datagram_of p (e, c) = record {
  side = side_of e.is_f1u;
  teid = e.teid;
  qfi = qfi_to_write e;
  payload = bytes p.at c (p.len - c);
}

abbrev pub fits : Packet → GtpEvent × ℕ → Bool
fits p (e, c) = if e.is_f1u then ul_fits p c else dl_fits p c

-- The datagram that a packet offers to the switch: it is a G-PDU whose sizes the offload blocks
-- can work with.
abbrev pub offered : Packet → Option Datagram
offered p =
    if is_ipv4_udp p && is_g_pdu p && fits p (parse_g_pdu 0 p)
    then some (datagram_of p (parse_g_pdu 0 p))
    else none

abbrev route_of : SessionCtx → Route
route_of sess = record { teid = sess.peer_teid; egress = sess.egress_ifindex }

abbrev pub dl_route : Option SessionCtx → Option Route
dl_route none = none
dl_route (some sess) = some (route_of sess)

-- An uplink entry counts once it is ready.
abbrev pub ul_route : Option SessionCtx → Option Route
ul_route none = none
ul_route (some sess) = if sess.ready then some (route_of sess) else none

abbrev pub switch_of : KernelState → Switch
switch_of s upf_side k = dl_route (s.session_map k)
switch_of s du_side k = ul_route (s.ul_session_map k)

-- What leaves: the interface, and the packet as the program's own parser reads it.
abbrev pub left_by : Outcome → Option (ℕ × Datagram)
left_by o = elim o.verdict [
  | pass ↦ none
  | drop ↦ none
  | redirect i ↦ some (i, datagram_of o.packet (parse_g_pdu 0 o.packet))
]
