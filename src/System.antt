-- ===== src/System.antt =====
-- The two programs of artifact/stage_4 together: parse_gtpu runs on the packets that arrive, and the
-- threads of xdp_gtp_inner_parser_user.c run between packets, in any order.
pub mod Writers
pub mod Validity
pub mod Baseline
pub mod Entries
pub mod Accounts
pub mod Delivery
pub mod Progress
pub mod Current
pub mod Following
use cu_ebpf.Base.{ℕ, ◌<◌, ◌^◌, ◌≡◌, List, [], ◌∷◌, ◌++◌, Option, none, some}
use cu_ebpf.Packet.{Packet}
use cu_ebpf.Session.{Mac, SessionMap, UpdateElem, empty_map}
use cu_ebpf.Event.{GtpEvent}
use cu_ebpf.Xdp.{KernelState, Helpers, CounterIndex}
use cu_ebpf.Learner.{Learner, print_event}
use cu_ebpf.Watcher.{
  Inet, UpfThread, UpfRound, f1ap_line, ngap_line, du_mac_refresh, upf_mac_refresh, du_ip,
  seed_session,
}
use cu_ebpf.Program.{parse_gtpu}

-- What the programs call and do not implement.
pub record Platform : Type 0 where
  pub helpers : Helpers
  pub update : UpdateElem
  pub inet : Inet

pub record System : Type 0 where
  pub kernel : KernelState
  pub learner : Learner
  pub upf_thread : UpfThread

-- A line that the F1AP watcher or the NGAP watcher reads; both work on ul_session_map.
abbrev pub after_line : System → Learner × SessionMap → System
after_line s (l, m) = record s { learner = l; kernel = record s.kernel { ul_session_map = m } }

abbrev pub after_round : System → UpfRound → System
after_round s r = record {
  kernel = record s.kernel { ul_session_map = r.ul_map };
  learner = r.learner;
  upf_thread = r.thread;
}

-- What sscanf reads with %x into an unsigned int fits it.
abbrev pub SeedFits : Option (Option (ℕ × ℕ)) → Type 0
SeedFits none = Unit
SeedFits (some none) = Unit
SeedFits (some (some (n3_teid, f1u_teid))) = (n3_teid < 2 ^ 32) × (f1u_teid < 2 ^ 32)

-- One step of the whole: a packet is processed; the oldest event is taken off the ring buffer and
-- printed; a watcher reads a line; a refresh thread makes a round; main seeds a session. What
-- arrives is any packet, any line and any ARP table.
pub data Step (pl : Platform) : System → System → Type 0 where
  receive :
      (s : System) (p : Packet)
      → Step pl s (record s { kernel = (parse_gtpu pl.helpers s.kernel p).state })
  poll :
      (s : System) (e : GtpEvent) (es : List GtpEvent)
      → s.kernel.events ≡ es ++ (e ∷ [])
      → Step pl s (record s {
        kernel = record s.kernel {
          events = es;
          session_map = print_event pl.update s.learner e s.kernel.session_map;
        };
      })
  f1ap :
      (s : System) (line : List ℕ)
      → Step pl s
          (after_line s (f1ap_line pl.inet pl.update line (s.learner, s.kernel.ul_session_map)))
  ngap :
      (s : System) (line : List ℕ)
      → Step pl s
          (after_line s (ngap_line pl.inet pl.update line (s.learner, s.kernel.ul_session_map)))
  du_mac :
      (s : System) (found : Option Mac)
      → Step pl s (record s { learner = du_mac_refresh found s.learner })
  upf_mac :
      (s : System) (arp : ℕ → Option Mac)
      → Step pl s (
          after_round s (
            upf_mac_refresh pl.update arp (record {
              learner = s.learner;
              thread = s.upf_thread;
              ul_map = s.kernel.ul_session_map;
            })))
  seed :
      (s : System) (variable : Option (Option (ℕ × ℕ))) (du_addr : ℕ)
      → SeedFits variable
      → pl.inet.pton du_ip ≡ some du_addr
      → Step pl s (record s {
        kernel = record s.kernel {
          session_map = seed_session pl.update du_addr variable s.learner s.kernel.session_map;
        };
      })

pub data Reach (pl : Platform) (s : System) : System → Type 0 where
  here : Reach pl s s
  after : {t u : System} → Reach pl s t → Step pl t u → Reach pl s u
