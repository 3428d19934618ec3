-- ===== src/Switch.antt =====
-- What the fast path promises, without packets and maps: a switch between the two tunnels on either
-- side of the CU. It has no counterpart in the code; parse_gtpu
-- (artifact/stage_4/xdp_gtp_inner_parser.bpf.c) is measured against it.
pub mod Views
pub mod Steps
pub mod Refines
use cu_ebpf.Base.{ℕ, List, [], ◌∷◌, Option, none, some, keep}

-- The tunnel to the UPF, and the tunnel to the DU.
pub data Side : Type 0 where
  upf_side du_side : Side

-- A tunnelled packet, whatever its headers look like.
pub record Datagram : Type 0 where
  pub side : Side
  pub teid : ℕ
  pub qfi : ℕ
  pub payload : List ℕ

-- Where a tunnel goes on: the TEID on the other side, and the interface to send from.
pub record Route : Type 0 where
  pub teid : ℕ
  pub egress : ℕ

-- A route for each TEID, by the side from which packets come.
abbrev pub Switch : Type 0
Switch = Side → ℕ → Option Route

abbrev pub other_side : Side → Side
other_side upf_side = du_side
other_side du_side = upf_side

-- A datagram leaves with its payload and its QFI, on the other side, in the tunnel of its route.
abbrev pub take_route : Option Route → Datagram → Option (ℕ × Datagram)
take_route none d = none
take_route (some r) d = some (r.egress, record d { side = other_side d.side; teid = r.teid })

abbrev pub forward : Switch → Datagram → Option (ℕ × Datagram)
forward w d = take_route (w d.side d.teid) d

-- What is no datagram, or has no route, does not leave.
abbrev pub forward_offered : Switch → Option Datagram → Option (ℕ × Datagram)
forward_offered w none = none
forward_offered w (some d) = forward w d

-- What leaves a switch into which datagrams come one after another.
abbrev pub forward_all : Switch → List (Option Datagram) → List (ℕ × Datagram)
forward_all w [] = []
forward_all w (d ∷ ds) = keep (forward_offered w d) (forward_all w ds)
