-- ===== src/Xdp.antt =====
-- What parse_gtpu works on besides the packet: the maps and the ring buffer of
-- artifact/stage_4/xdp_gtp_inner_parser.bpf.c, the XDP verdicts, and the kernel's helper functions.
use cu_ebpf.Base.{
  ℕ, ◌+◌, ◌≤◌, ◌<◌, ◌≡◌, ◌%◌, ◌^◌, Bool, List, ◌∷◌, Option, none, some, if◌then◌else◌, ℤ, pos_part,
  neg_part,
}
use cu_ebpf.Packet.{Packet, IsBytes}
use cu_ebpf.Session.{SessionMap}
use cu_ebpf.Event.{GtpEvent}

-- enum counter_index
pub data CounterIndex : Type 0 where
  counter_gtpu counter_udp_non_gtpu : CounterIndex

-- The state that outlives a packet. `events` holds what was submitted, newest first;
-- `packet_counts` is what a lookup in the array finds.
pub record KernelState : Type 0 where
  pub events : List GtpEvent
  pub packet_counts : CounterIndex → Option ℕ
  pub session_map : SessionMap
  pub ul_session_map : SessionMap

pub data Verdict : Type 0 where
  pass drop : Verdict
  redirect : ℕ → Verdict

-- What a run of the program leaves: its verdict, the packet as it is then, and the state.
pub record Outcome : Type 0 where
  pub verdict : Verdict
  pub packet : Packet
  pub state : KernelState

-- The kernel's helpers, which the program only calls. `reserve` says whether bpf_ringbuf_reserve
-- finds room beside the events that wait; `adjust_tail` is bpf_xdp_adjust_tail, `none` its failure.
pub record Helpers : Type 0 where
  pub reserve : List GtpEvent → Bool
  pub adjust_tail : Packet → ℤ → Option Packet

-- What the program relies on of bpf_xdp_adjust_tail: on success the length changes by `delta`, and
-- the bytes that the packet keeps are untouched; cells stay bytes.
pub record IsAdjustTail (adjust_tail : Packet → ℤ → Option Packet) : Type 0 where
  pub resized :
      (p q : Packet) (delta : ℤ)
      → adjust_tail p delta ≡ some q
      → q.len + neg_part delta ≡ p.len + pos_part delta
  pub kept :
      (p q : Packet) (delta : ℤ)
      → adjust_tail p delta ≡ some q
      → (i : ℕ) → i < p.len
      → i < q.len
      → q.at i ≡ p.at i
  pub bytes :
      (p q : Packet) (delta : ℤ) → adjust_tail p delta ≡ some q → IsBytes p.at → IsBytes q.at

-- bpf_xdp_adjust_tail succeeds as long as an Ethernet header is left, and the packet grows by no
-- more than the spare bytes of its frame.
abbrev pub CanResize : (Packet → ℤ → Option Packet) → ℕ → Type 0
CanResize adjust_tail tailroom =
    (p : Packet) (delta : ℤ)
    → 14 + neg_part delta ≤ p.len + pos_part delta
    → pos_part delta ≤ tailroom
    → (q : Packet) × (adjust_tail p delta ≡ some q)

-- bpf_ringbuf_submit
abbrev pub submit_event : GtpEvent → KernelState → KernelState
submit_event e s = record s { events = e ∷ s.events }

-- Submit the event and leave with a verdict.
abbrev pub finish : Verdict → Packet → GtpEvent → KernelState → Outcome
finish v p e s = record { verdict = v; packet = p; state = submit_event e s }

abbrev pub same_index : CounterIndex → CounterIndex → Bool
same_index counter_gtpu counter_gtpu = Bool.true
same_index counter_udp_non_gtpu counter_udp_non_gtpu = Bool.true
same_index _ _ = Bool.false

abbrev pub set_count : CounterIndex → ℕ → (CounterIndex → Option ℕ) → CounterIndex → Option ℕ
set_count i v m j = if same_index i j then some v else m j

-- __sync_fetch_and_add(counter, 1), if the lookup found the counter; a counter is a __u64.
unfoldable pub count_packet : CounterIndex → KernelState → KernelState
count_packet i s = elim (s.packet_counts i) [
  | none ↦ s
  | some n ↦ record s { packet_counts = set_count i ((n + 1) % 2 ^ 64) s.packet_counts }
]

-- What is then stored in the event, `__sync_fetch_and_add(counter, 1) + 1`; 0 without the counter.
unfoldable pub counted : CounterIndex → KernelState → ℕ
counted i s = elim (s.packet_counts i) [ none ↦ 0 | some n ↦ (n + 1) % 2 ^ 64 ]
