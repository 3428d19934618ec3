-- ===== src/Race.antt =====
-- The calls of maybe_complete_ul_session_map that three threads of
-- artifact/stage_4/xdp_gtp_inner_parser_user.c make at the same time: f1ap_watcher_thread,
-- ngap_watcher_thread and upf_mac_refresh_thread. Between two steps of a call, which are its two locks
-- and its two system calls on the map, other threads make theirs.
pub mod Advance
pub mod Alone
pub mod Settles
pub mod Whole
pub mod Stale
use cu_ebpf.Base.{ℕ, Bool, true, false, not, ◌||◌, Option, none, some, List, [], ◌∷◌, if◌then◌else◌}
use cu_ebpf.Session.{
  Mac, SessionCtx, SessionCtx-discrete, SessionMap, zero_session, UpdateElem, UpdateFlag,
  bpf_noexist, bpf_exist,
}
use cu_ebpf.Learner.{Learner, updated, ul_session}
use cu_ebpf.Watcher.{UpfThread, retarget, mac_changed}

-- Where a thread is. In maybe_populate_ul_session_map for a TEID: in front of the lookup, in front of
-- the update. In maybe_complete_ul_session_map: in front of ul_info_lock; behind it, with the TEID,
-- the tunnel and the address read; behind g_upf_mac_lock, with the entry built; behind the lookup,
-- with the flag chosen. In upf_mac_refresh_thread: in front of the ARP lookup.
pub data Position : Type 0 where
  idle calling resolving : Position
  populating placing : ℕ → Position
  told : ℕ → ℕ → ℕ → Position
  built : ℕ → SessionCtx → Position
  writing : UpdateFlag → ℕ → SessionCtx → Position

pub data Caller : Type 0 where
  f1ap_caller ngap_caller upf_caller : Caller

-- The entry for a tunnel that has been read, with the MAC address that is known now.
abbrev pub session_for : Learner → ℕ → ℕ → SessionCtx
session_for l peer_teid dst_ip = ul_session (record l { n3_ul_teid = peer_teid; n3_ul_ip = dst_ip })

-- The next step of a thread in a call; one that is in none waits.
unfoldable pub advance : UpdateElem → Learner → Position → SessionMap → Position × SessionMap
advance update l idle m = (idle, m)
advance update l resolving m = (resolving, m)
advance update l (populating ul_teid) m =
    if l.disable_offload
    then (calling, m)
    else if not l.ul_map_open
    then (calling, m)
    else elim (m ul_teid) [ some existing ↦ (calling, m) | none ↦ (placing ul_teid, m) ]
advance update l (placing ul_teid) m =
    (calling, updated (update bpf_noexist m ul_teid zero_session) m)
advance update l calling m =
    if l.disable_offload
    then (idle, m)
    else if not l.f1u_ul_known || not l.n3_ul_known
    then (idle, m)
    else if not l.ul_map_open
    then (idle, m)
    else (told l.f1u_ul_teid l.n3_ul_teid l.n3_ul_ip, m)
advance update l (told key peer_teid dst_ip) m = (built key (session_for l peer_teid dst_ip), m)
advance update l (built key sess) m = elim (m key) [
  | none ↦ (writing bpf_noexist key sess, m)
  | some existing ↦ elim (SessionCtx-discrete existing sess) [
    | yes same ↦ (idle, m)
    | no changed ↦ (writing bpf_exist key sess, m)
  ]
]
advance update l (writing flag key sess) m = (idle, updated (update flag m key sess) m)

pub record Threads : Type 0 where
  pub learner : Learner
  pub upf_thread : UpfThread
  pub ul_map : SessionMap
  pub f1ap : Position
  pub ngap : Position
  pub upf : Position

unfoldable pub step : UpdateElem → Caller → Threads → Threads
unfolding advance
step update f1ap_caller s =
    let (x, m) = advance update s.learner s.f1ap s.ul_map in record s { f1ap = x; ul_map = m }
step update ngap_caller s =
    let (x, m) = advance update s.learner s.ngap s.ul_map in record s { ngap = x; ul_map = m }
step update upf_caller s =
    let (x, m) = advance update s.learner s.upf s.ul_map in record s { upf = x; ul_map = m }

-- What happens next: a step of a call, or a thread outside of its calls learns something. The CU's
-- own endpoint is heard in F1AP, the UPF's in NGAP; a round of upf_mac_refresh_thread begins; and its
-- ARP lookup gives a result.
pub data Happening : Type 0 where
  runs : Caller → Happening
  f1ap_hears : ℕ → Happening
  ngap_hears : ℕ → ℕ → Happening
  upf_targets : Happening
  upf_finds : Option Mac → Happening

abbrev pub is_idle : Position → Bool
is_idle idle = true
is_idle x = false

abbrev pub is_resolving : Position → Bool
is_resolving resolving = true
is_resolving x = false

-- upf_mac_refresh_thread in front of its ARP lookup, with the address read.
unfoldable pub upf_targeted : Threads → Threads
unfolding retarget
upf_targeted s = record s { upf_thread = retarget s.learner.n3_ul_ip s.upf_thread; upf = resolving }

-- upf_mac_refresh_thread behind its ARP lookup.
unfoldable pub upf_found : Option Mac → Threads → Threads
upf_found none s = record s { upf = idle }
upf_found (some candidate) s =
    let l : Learner = record s.learner { upf_mac = candidate; upf_mac_valid = true } in
    if mac_changed candidate s.upf_thread
    then record s {
      learner = l;
      upf_thread = record s.upf_thread { last_logged = candidate; have_last_logged = true };
      upf = calling;
    }
    else record s { learner = l; upf = idle }

-- What a thread is not at does not happen.
unfoldable pub happen : UpdateElem → Happening → Threads → Threads
unfolding step upf_found upf_targeted
happen update (runs caller) s = step update caller s
happen update (f1ap_hears teid) s =
    if is_idle s.f1ap
    then record s {
      learner = record s.learner { f1u_ul_teid = teid; f1u_ul_known = true };
      f1ap = populating teid;
    }
    else s
happen update (ngap_hears teid addr) s =
    if is_idle s.ngap
    then record s {
      learner = record s.learner { n3_ul_teid = teid; n3_ul_ip = addr; n3_ul_known = true };
      ngap = calling;
    }
    else s
happen update upf_targets s =
    if is_idle s.upf then (if s.learner.n3_ul_known then upf_targeted s else s) else s
happen update (upf_finds found) s = if is_resolving s.upf then upf_found found s else s

abbrev pub happen_all : UpdateElem → List Happening → Threads → Threads
happen_all update [] s = s
happen_all update (h ∷ hs) s = happen_all update hs (happen update h s)
