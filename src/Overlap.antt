-- ===== src/Overlap.antt =====
-- Packets of one session on several CPUs: the PDCP sequence number of the downlink block of
-- artifact/stage_4/xdp_gtp_inner_parser.bpf.c. The atomic add and the load that reads the counter
-- back are two steps, and other packets' steps come between them in any order. A packet is a number;
-- all of them share the counter of the session_ctx that their lookups found.
pub mod Numbers
use cu_ebpf.Base.{ℕ, ◌+◌, ◌%◌, ◌^◌, List, [], ◌∷◌, ◌==◌, if◌then◌else◌}
use cu_ebpf.Downlink.{pdcp_sn_max}

-- Where a packet is: in front of the add, between add and load, or with its sequence number.
pub data Phase : Type 0 where
  waiting added : Phase
  numbered : ℕ → Phase

-- next_dl_pdcp_sn, and where each packet is.
pub record Shared : Type 0 where
  pub next_dl_pdcp_sn : ℕ
  pub phase : ℕ → Phase

abbrev pub set_phase : ℕ → Phase → (ℕ → Phase) → ℕ → Phase
set_phase i x phases j = if j == i then x else phases j

-- The next step of packet `i`: __sync_fetch_and_add on the __u32, or `sn = ... & PDCP_SN_MAX`.
unfoldable pub take_turn : ℕ → Shared → Shared
take_turn i s = elim (s.phase i) [
  | waiting ↦ record {
    next_dl_pdcp_sn = (s.next_dl_pdcp_sn + 1) % 2 ^ 32;
    phase = set_phase i added s.phase;
  }
  | added ↦ record s {
    phase = set_phase i (numbered (s.next_dl_pdcp_sn % (pdcp_sn_max + 1))) s.phase;
  }
  | numbered sn ↦ s
]

-- A schedule says whose step is next.
unfoldable pub take_turns : List ℕ → Shared → Shared
take_turns [] s = s
take_turns (i ∷ turns) s = take_turns turns (take_turn i s)
