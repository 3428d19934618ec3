-- ===== src/Learner.antt =====
-- The session learning of artifact/stage_4/xdp_gtp_inner_parser_user.c: what the watcher threads
-- have learned, and the three functions that write the session maps. A call is one step here; Race
-- takes the calls that write ul_session_map apart into theirs.
pub mod Entries
use cu_ebpf.Base.{ℕ, Bool, true, false, not, ◌&&◌, ◌||◌, Option, none, some, if◌then◌else◌}
use cu_ebpf.Session.{
  Mac, SessionCtx, SessionCtx-discrete, SessionMap, zero_session, UpdateElem, bpf_noexist,
  bpf_exist,
}
use cu_ebpf.Event.{GtpEvent}

abbrev pub gtpu_standard_port : ℕ
gtpu_standard_port = 2152

abbrev pub f1u_port : ℕ
f1u_port = 2153

-- The globals. `ul_map_open` is g_ul_session_map_fd >= 0.
pub record Learner : Type 0 where
  pub disable_offload : Bool
  pub f1u_dl_known : Bool
  pub f1u_dl_teid : ℕ
  pub f1u_dl_ip : ℕ
  pub f1u_ul_known : Bool
  pub f1u_ul_teid : ℕ
  pub n3_ul_known : Bool
  pub n3_ul_teid : ℕ
  pub n3_ul_ip : ℕ
  pub ul_map_open : Bool
  pub egress_ifindex : ℕ
  pub own_mac : Mac
  pub own_ip : ℕ
  pub du_mac : Mac
  pub du_mac_valid : Bool
  pub upf_mac : Mac
  pub upf_mac_valid : Bool

-- What a call of bpf_map_update_elem leaves of the map.
abbrev pub updated : Option SessionMap → SessionMap → SessionMap
updated none m = m
updated (some m') m = m'

-- maybe_populate_ul_session_map: a placeholder for the UL F1-U TEID.
unfoldable pub maybe_populate_ul_session_map : UpdateElem → Learner → ℕ → SessionMap → SessionMap
maybe_populate_ul_session_map update l ul_teid m =
    if l.disable_offload then m else if not l.ul_map_open then m else elim (m ul_teid) [
      | some existing ↦ m
      | none ↦ updated (update bpf_noexist m ul_teid zero_session) m
    ]

-- The entry that maybe_complete_ul_session_map builds from what is known.
unfoldable pub ul_session : Learner → SessionCtx
ul_session l =
    let sess : SessionCtx = record zero_session {
      peer_teid = l.n3_ul_teid;
      dst_ip = l.n3_ul_ip;
      dst_port = gtpu_standard_port;
      src_ip = l.own_ip;
    } in
    if l.upf_mac_valid
    then record sess {
      dst_mac = l.upf_mac;
      src_mac = l.own_mac;
      egress_ifindex = l.egress_ifindex;
      ready = true;
    }
    else sess

-- maybe_complete_ul_session_map
unfoldable pub maybe_complete_ul_session_map : UpdateElem → Learner → SessionMap → SessionMap
maybe_complete_ul_session_map update l m =
    if l.disable_offload
    then m
    else if not l.f1u_ul_known || not l.n3_ul_known
    then m
    else if not l.ul_map_open
    then m
    else elim (m l.f1u_ul_teid) [
      | none ↦ updated (update bpf_noexist m l.f1u_ul_teid (ul_session l)) m
      | some existing ↦ elim (SessionCtx-discrete existing (ul_session l)) [
        | yes same ↦ m
        | no changed ↦ updated (update bpf_exist m l.f1u_ul_teid (ul_session l)) m
      ]
    ]

-- The entry that maybe_learn_and_populate builds.
unfoldable pub dl_session : Learner → SessionCtx
dl_session l = record zero_session {
  peer_teid = l.f1u_dl_teid;
  dst_ip = l.f1u_dl_ip;
  src_ip = l.own_ip;
  dst_port = f1u_port;
  egress_ifindex = l.egress_ifindex;
  dst_mac = l.du_mac;
  src_mac = l.own_mac;
  ready = true;
}

-- maybe_learn_and_populate for an event with the TEID `key`.
unfoldable pub maybe_learn_and_populate : UpdateElem → Learner → ℕ → SessionMap → SessionMap
maybe_learn_and_populate update l key m = if l.disable_offload then m else elim (m key) [
  | some existing ↦ m
  | none ↦
      if not l.f1u_dl_known
      then m
      else if not l.du_mac_valid
      then m
      else updated (update bpf_noexist m key (dl_session l)) m
]

-- What print_event does to session_map, beside printing.
unfoldable pub print_event : UpdateElem → Learner → GtpEvent → SessionMap → SessionMap
unfolding maybe_learn_and_populate
print_event update l e m =
    if not e.is_gtpu
    then m
    else if e.is_gtpu && e.inner_ip_present && not e.is_f1u
    then maybe_learn_and_populate update l e.teid m
    else m
