-- ===== src/Tests.antt =====
-- Concrete inputs for the tests: a platform, sessions and captured-like packets.
pub mod Runs
pub mod Kernel
pub mod Userspace
pub mod Counters
pub mod Switching
pub mod Earlier
pub mod Addresses
pub mod Overlapping
pub mod Progress
pub mod Racing
pub mod Reading
use cu_ebpf.Base.{
  ℕ, zero, suc, ◌+◌, ◌-◌, ◌≡◌, ◌<◌, ◌≤◌, refl, Bool, true, false, List, [], ◌∷◌, ◌++◌, Option, none,
  some, ltb, leb, if◌then◌else◌, ℤ, pos_part, neg_part, length, arith, Option-cases, inl, inr,
}
use cu_ebpf.Packet.{Mem, Packet, IsBytes}
use cu_ebpf.Session.{
  Mac, SessionCtx, SessionMap, zero_session, empty_map, insert, Everywhere, Everywhere-insert,
  SessionFits, ServesF1u, ServesN3, UpdateElem, UpdateFlag, IsUpdateElem, HasRoom, bpf_any,
  bpf_noexist, bpf_exist,
}
use cu_ebpf.Xdp.{
  KernelState, Helpers, IsAdjustTail, CanResize, CounterIndex, counter_gtpu, counter_udp_non_gtpu,
}
use cu_ebpf.Learner.{Learner}
use cu_ebpf.Watcher.{Inet, UpfThread}
use cu_ebpf.System.{Platform, System}
use cu_ebpf.System.Writers.{IsInet}
use cu_ebpf.System.Validity.{IsPlatform, IsValid}
use cu_ebpf.System.Baseline.{IsBaseline}

abbrev pub mem_of : List ℕ → Mem
mem_of [] i = 0
mem_of (b ∷ bs) zero = b
mem_of (b ∷ bs) (suc i) = mem_of bs i

abbrev pub packet_of : List ℕ → Packet
packet_of bs = record { at = mem_of bs; len = length bs }

abbrev AllBytes : List ℕ → Type 0
AllBytes [] = Unit
AllBytes (b ∷ bs) = (b < 256) × AllBytes bs

pub packet_of-IsBytes : (bs : List ℕ) → AllBytes bs → IsBytes (mem_of bs)
packet_of-IsBytes [] h i = omega arith
packet_of-IsBytes (b ∷ bs) h zero = h.0
packet_of-IsBytes (b ∷ bs) h (suc i) = packet_of-IsBytes bs h.1 i

-- A frame with spare bytes on all sides: the length changes, and no byte.
abbrev pub tail : Packet → ℤ → Option Packet
tail p delta =
    if ltb (p.len + pos_part delta) (14 + neg_part delta)
    then none
    else some (record p { len = p.len + pos_part delta - neg_part delta })

pub tail-IsAdjustTail : IsAdjustTail tail
tail-IsAdjustTail = record {
  resized = λ p q delta e. ground arith;
  kept = λ p q delta e i old new. ground arith;
  bytes = λ p q delta e b i. ground (arith, b i);
}

pub tail-CanResize : CanResize tail 4
tail-CanResize p delta stays small =
    (record p { len = p.len + pos_part delta - neg_part delta }, ground arith)

abbrev pub helpers : Helpers
helpers = record { reserve = λ es. true; adjust_tail = tail }

-- A hash map that is never full.
abbrev pub update : UpdateElem
update bpf_any m k v = some (insert k v m)
update bpf_noexist m k v = elim (m k) [ none ↦ some (insert k v m) | some old ↦ none ]
update bpf_exist m k v = elim (m k) [ none ↦ none | some old ↦ some (insert k v m) ]

pub update-IsUpdateElem : IsUpdateElem update
update-IsUpdateElem = record {
  stored = stores;
  noexist = λ m k old v f. rw (f, update);
  exist = λ m k v f. rw (f, update);
}
  where
    stores :
        (flag : UpdateFlag) (m m' : SessionMap) (k : ℕ) (v : SessionCtx)
        → update flag m k v ≡ some m'
        → m' ≡ insert k v m
    stores bpf_any m m' k v e = cc
    stores bpf_noexist m m' k v e = ground arith
    stores bpf_exist m m' k v e = ground arith

pub update-HasRoom : HasRoom update
update-HasRoom = record {
  fresh = λ m k v f. rw (f, update);
  present = λ m k old v f. rw (f, update);
}

abbrev pub own_text : List ℕ
own_text = b'c' ∷ b'u' ∷ []

abbrev pub upf_text : List ℕ
upf_text = b'u' ∷ b'p' ∷ b'f' ∷ []

-- The CU's own address has a short name, and every text reads as 10.0.0.9.
abbrev pub inet : Inet
inet = record { pton = λ ip. some 0x0a000009; ntop = λ a. own_text }

pub inet-IsInet : IsInet inet
inet-IsInet ip addr reads = ground arith

abbrev pub platform : Platform
platform = record { helpers = helpers; update = update; inet = inet }

pub platform-IsPlatform : IsPlatform platform
platform-IsPlatform = record {
  tail = tail-IsAdjustTail;
  maps = update-IsUpdateElem;
  words = inet-IsInet;
}

-- The bytes of a G-PDU: Ethernet, IPv4, UDP from `source` to the port with the low byte `port_low`
-- (2152 is 0x0868, 2153 is 0x0869), GTP-U with the given flags and TEID 7, and what follows.
abbrev pub g_pdu : ℕ → ℕ → ℕ → List ℕ → List ℕ
g_pdu source port_low flags rest =
    2 ∷ 0 ∷ 0 ∷ 0 ∷ 0 ∷ 1 ∷ 2 ∷ 0 ∷ 0 ∷ 0 ∷ 0 ∷ 2 ∷ 8 ∷ 0 ∷ 0x45 ∷ 0 ∷ 0 ∷ 64 ∷ 0 ∷ 0 ∷ 0 ∷ 0 ∷ 64
    ∷ 17 ∷ 0 ∷ 0 ∷ 10 ∷ 0 ∷ 0 ∷ 1 ∷ 10 ∷ 0 ∷ 0 ∷ 2 ∷ 8 ∷ source ∷ 8 ∷ port_low ∷ 0 ∷ 44 ∷ 0 ∷ 0
    ∷ flags ∷ 255 ∷ 0 ∷ 28 ∷ 0 ∷ 0 ∷ 0 ∷ 7 ∷ rest

-- An inner IPv4 header without payload.
abbrev pub inner_ip : List ℕ
inner_ip = 0x45 ∷ 0 ∷ 0 ∷ 20 ∷ 0 ∷ 0 ∷ 0 ∷ 0 ∷ 64 ∷ 1 ∷ 0 ∷ 0 ∷ 12 ∷ 1 ∷ 1 ∷ 2 ∷ 12 ∷ 1 ∷ 1 ∷ 3 ∷ []

-- A downlink packet: a PDU Session Container with QFI 5 in front of the inner header.
abbrev pub n3_bytes : List ℕ
n3_bytes = g_pdu 0x68 0x68 0x34 (0 ∷ 0 ∷ 0 ∷ 0x85 ∷ 1 ∷ 0 ∷ 5 ∷ 0 ∷ inner_ip)

abbrev pub n3_packet : Packet
n3_packet = packet_of n3_bytes

-- The same with an extension header of length 0.
abbrev pub bad_bytes : List ℕ
bad_bytes = g_pdu 0x68 0x68 0x34 (0 ∷ 0 ∷ 0 ∷ 0x85 ∷ 0 ∷ 0 ∷ 5 ∷ 0 ∷ inner_ip)

abbrev pub bad_packet : Packet
bad_packet = packet_of bad_bytes

-- An uplink packet: PDCP sequence number 9 and QFI 5 in front of the inner header.
abbrev pub f1u_bytes : List ℕ
f1u_bytes = g_pdu 0x70 0x69 0x30 (0x80 ∷ 0 ∷ 9 ∷ 5 ∷ inner_ip)

abbrev pub f1u_packet : Packet
f1u_packet = packet_of f1u_bytes

-- The same with four optional bytes in front of the PDCP header.
abbrev pub optional_bytes : List ℕ
optional_bytes = g_pdu 0x70 0x69 0x34 (0 ∷ 0 ∷ 0 ∷ 0 ∷ 0x80 ∷ 0 ∷ 9 ∷ 5 ∷ inner_ip)

abbrev pub optional_packet : Packet
optional_packet = packet_of optional_bytes

abbrev pub mac : ℕ → Mac
mac b = record { b0 = 2; b1 = 0; b2 = 0; b3 = 0; b4 = 0; b5 = b }

abbrev pub dl_entry : SessionCtx
dl_entry = record {
  peer_teid = 0x1234;
  dst_ip = 0x0a000003;
  src_ip = 0x0a000002;
  dst_port = 2153;
  egress_ifindex = 4;
  dst_mac = mac 3;
  src_mac = mac 4;
  qfi = 0;
  next_dl_pdcp_sn = 41;
  ready = true;
}

abbrev pub ul_entry : SessionCtx
ul_entry = record dl_entry { peer_teid = 0x77; dst_port = 2152; next_dl_pdcp_sn = 0 }

-- Both tables know TEID 7; nothing has been counted yet.
abbrev pub kernel : KernelState
kernel = record {
  events = [];
  packet_counts = λ i. some 0;
  session_map = insert 7 dl_entry empty_map;
  ul_session_map = insert 7 ul_entry empty_map;
}

pub empty-Everywhere : (P : SessionCtx → Type 0) → Everywhere P empty_map
empty-Everywhere P k sess found = absurd (cc found)

dl_entry-SessionFits : SessionFits dl_entry
dl_entry-SessionFits = omega arith

ul_entry-SessionFits : SessionFits ul_entry
ul_entry-SessionFits = omega arith

pub kernel-ServesF1u : ServesF1u kernel.session_map
kernel-ServesF1u =
    Everywhere-insert _ empty_map 7 dl_entry (dl_entry-SessionFits, refl) (empty-Everywhere _)

pub kernel-ServesN3 : ServesN3 kernel.ul_session_map
kernel-ServesN3 =
    Everywhere-insert _ empty_map 7 ul_entry (λ ready. (ul_entry-SessionFits, refl))
      (empty-Everywhere _)

-- What the userspace program knows at its start.
abbrev pub learner : Learner
learner = record {
  disable_offload = false;
  f1u_dl_known = false;
  f1u_dl_teid = 0;
  f1u_dl_ip = 0;
  f1u_ul_known = false;
  f1u_ul_teid = 0;
  n3_ul_known = false;
  n3_ul_teid = 0;
  n3_ul_ip = 0;
  ul_map_open = true;
  egress_ifindex = 4;
  own_mac = mac 4;
  own_ip = 0x0a000002;
  du_mac = mac 0;
  du_mac_valid = false;
  upf_mac = mac 0;
  upf_mac_valid = false;
}

abbrev pub upf_thread : UpfThread
upf_thread = record {
  have_target = false;
  target_ip = 0;
  have_last_logged = false;
  last_logged = mac 0;
}

abbrev pub system : System
system = record { kernel = kernel; learner = learner; upf_thread = upf_thread }

pub system-IsValid : IsValid system
system-IsValid = record { learner = omega arith; dl = kernel-ServesF1u; ul = kernel-ServesN3 }

-- The same with DISABLE_OFFLOAD and empty maps.
abbrev pub baseline : System
baseline = record {
  kernel = record kernel { session_map = empty_map; ul_session_map = empty_map };
  learner = record learner { disable_offload = true };
  upf_thread = upf_thread;
}

pub baseline-IsBaseline : IsBaseline baseline
baseline-IsBaseline = record { disabled = refl; no_dl = refl; no_ul = refl }

pub n3_packet-IsBytes : IsBytes n3_packet.at
n3_packet-IsBytes = packet_of-IsBytes n3_bytes (omega arith)

pub f1u_packet-IsBytes : IsBytes f1u_packet.at
f1u_packet-IsBytes = packet_of-IsBytes f1u_bytes (omega arith)
