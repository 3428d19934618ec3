-- ===== src/PlaneCount/Counting.antt =====
-- What the XDP program of ebpf-udp-sctp-pkt-count counts.
use cu_ebpf.Base.{
  ℕ, ◌+◌, ◌%◌, ◌^◌, ◌<◌, ◌≡◌, ◌∙◌, ap, Bool, not, ◌&&◌, ◌||◌, some, List, [], ◌∷◌, ltb, ◌==◌,
  if◌then◌else◌, Bool-cases, inl, inr, arith,
}
use cu_ebpf.Packet.{Packet, be16}
use cu_ebpf.Parse.{outer_ihl, udp_offset, is_ipv4_udp}
use cu_ebpf.Xdp.{pass}
use cu_ebpf.PlaneCount.{
  CounterKey, user_plane, control_plane, PlaneCounters, count_user_and_control_plane,
}

-- A complete SCTP common header behind a complete IPv4 header.
abbrev pub is_ipv4_sctp : Packet → Bool
is_ipv4_sctp p =
    not (ltb p.len 34)
    && be16 p.at 12 == 0x0800
    && p.at 23 == 132
    && not (ltb (outer_ihl p) 20)
    && not (ltb p.len (udp_offset p + 12))

abbrev pub has_port : ℕ → Packet → Bool
has_port port p = be16 p.at (udp_offset p) == port || be16 p.at (udp_offset p + 2) == port

-- What a counter is for: GTP-U over UDP port 2152, F1AP over SCTP port 38472.
abbrev pub is_of : CounterKey → Packet → Bool
is_of user_plane p = is_ipv4_udp p && has_port 2152 p
is_of control_plane p = is_ipv4_sctp p && has_port 38472 p

counts_user :
    (p : Packet) (m : PlaneCounters) (n : ℕ)
    → m user_plane ≡ some n
    → (count_user_and_control_plane p m).1 user_plane
      ≡ some (if is_of user_plane p then (n + 1) % 2 ^ 64 else n)
unfolding count_user_and_control_plane is_ipv4_udp
counts_user p m n found = ground (arith, found)

counts_control :
    (p : Packet) (m : PlaneCounters) (n : ℕ)
    → m control_plane ≡ some n
    → (count_user_and_control_plane p m).1 control_plane
      ≡ some (if is_of control_plane p then (n + 1) % 2 ^ 64 else n)
unfolding count_user_and_control_plane
counts_control p m n found = ground (arith, found)

counts_one :
    (key : CounterKey) (p : Packet) (m : PlaneCounters) (n : ℕ)
    → m key ≡ some n
    → (count_user_and_control_plane p m).1 key ≡ some (if is_of key p then (n + 1) % 2 ^ 64 else n)
counts_one user_plane = counts_user
counts_one control_plane = counts_control

pub count-passes : (p : Packet) (m : PlaneCounters) → (count_user_and_control_plane p m).0 ≡ pass
unfolding count_user_and_control_plane
count-passes p m = ground arith

-- Packets in the order in which they are processed.
unfoldable pub count_all : List Packet → PlaneCounters → PlaneCounters
count_all [] m = m
count_all (p ∷ ps) m = count_all ps (count_user_and_control_plane p m).1

unfoldable pub number_of : CounterKey → List Packet → ℕ
number_of key [] = 0
number_of key (p ∷ ps) = (if is_of key p then 1 else 0) + number_of key ps

-- Over any run of packets each of the two counters goes up by the number of packets of its class,
-- modulo 2^64: complete UDP packets from or to port 2152 for the one, complete SCTP packets from or
-- to port 38472 for the other.
pub count_all-number_of :
    (key : CounterKey) (ps : List Packet) (m : PlaneCounters) (n : ℕ)
    → m key ≡ some n
    → n < 2 ^ 64
    → count_all ps m key ≡ some ((n + number_of key ps) % 2 ^ 64)
unfolding count_all number_of
count_all-number_of key [] m n found word = found ∙ ap some (omega arith)
count_all-number_of key (p ∷ ps) m n found word = elim (Bool-cases (is_of key p)) [
  | inl hit ↦ rw hit (
      count_all-number_of key ps (count_user_and_control_plane p m).1 ((n + 1) % 2 ^ 64)
        (counts_one key p m n found ∙ (rw hit)) (omega arith)
      ∙ ap some (omega arith))
  | inr miss ↦ rw miss (
      count_all-number_of key ps (count_user_and_control_plane p m).1 n
        (counts_one key p m n found ∙ (rw miss)) word
      ∙ ap some (omega arith))
]
