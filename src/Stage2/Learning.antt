-- ===== src/Stage2/Learning.antt =====
-- artifact/stage_2/construct_and_forward/xdp_gtp_inner_parser_user.c: what the F1AP watcher and the
-- ARP thread have learned, and how an event or SEED_SESSION writes session_map. The entries have the
-- fields of stage 4's but ready, which stays as `zero_session` has it. The line of text is taken
-- apart, and its TEID read, as in stage 4. An event of an F1-U packet is not told from another.
use cu_ebpf.Base.{ℕ, Bool, true, not, ◌&&◌, ◌==◌, List, Option, none, some, if◌then◌else◌}
use cu_ebpf.Session.{Mac, SessionCtx, SessionMap, zero_session, UpdateElem, bpf_any, bpf_noexist}
use cu_ebpf.Event.{GtpEvent}
use cu_ebpf.Learner.{f1u_port, updated}
use cu_ebpf.Watcher.{Inet, fields_of, parse_colon_hex_teid, str_eq, du_ip}

-- The globals.
pub record Learner : Type 0 where
  pub f1u_dl_known : Bool
  pub f1u_dl_teid : ℕ
  pub f1u_dl_ip : ℕ
  pub egress_ifindex : ℕ
  pub own_mac : Mac
  pub own_ip : ℕ
  pub du_mac : Mac
  pub du_mac_valid : Bool

-- One line of f1ap_watcher_thread: an endpoint that is not the DU's is ignored.
unfoldable pub f1ap_line : Inet → List ℕ → Learner → Learner
f1ap_line inet line l = elim (fields_of line) [
  | none ↦ l
  | some (teid, ip) ↦ if parse_colon_hex_teid teid == 0 then l else elim (inet.pton ip) [
    | none ↦ l
    | some addr ↦ if not (str_eq ip du_ip) then l else record l {
      f1u_dl_teid = parse_colon_hex_teid teid;
      f1u_dl_ip = addr;
      f1u_dl_known = true;
    }
  ]
]

-- One round of du_mac_refresh_thread; the argument is what the ARP table gave for the DU.
unfoldable pub du_mac_refresh : Option Mac → Learner → Learner
du_mac_refresh none l = l
du_mac_refresh (some candidate) l = record l { du_mac = candidate; du_mac_valid = true }

-- The entry that maybe_learn_and_populate builds.
unfoldable pub dl_session : Learner → SessionCtx
dl_session l = record zero_session {
  peer_teid = l.f1u_dl_teid;
  dst_ip = l.f1u_dl_ip;
  src_ip = l.own_ip;
  dst_port = f1u_port;
  egress_ifindex = l.egress_ifindex;
  dst_mac = l.du_mac;
  src_mac = l.own_mac;
}

-- maybe_learn_and_populate for an event with the TEID `key`.
unfoldable pub maybe_learn_and_populate : UpdateElem → Learner → ℕ → SessionMap → SessionMap
maybe_learn_and_populate update l key m = elim (m key) [
  | some existing ↦ m
  | none ↦
      if not l.f1u_dl_known
      then m
      else if not l.du_mac_valid
      then m
      else updated (update bpf_noexist m key (dl_session l)) m
]

-- What print_event does to session_map, beside printing.
unfoldable pub print_event : UpdateElem → Learner → GtpEvent → SessionMap → SessionMap
unfolding maybe_learn_and_populate
print_event update l e m =
    if not e.is_gtpu
    then m
    else if e.is_gtpu && e.inner_ip_present
    then maybe_learn_and_populate update l e.teid m
    else m

-- The block of main for SEED_SESSION, behind its wait for the DU's MAC address: the variable may be
-- missing, or not hold two TEIDs; `du_addr` is inet_pton of DU_IP.
unfoldable pub seed_session :
    UpdateElem → ℕ → Option (Option (ℕ × ℕ)) → Learner → SessionMap → SessionMap
unfolding dl_session
seed_session update du_addr none l m = m
seed_session update du_addr (some none) l m = m
seed_session update du_addr (some (some (n3_teid, f1u_teid))) l m =
    if not l.du_mac_valid
    then m
    else updated
        (update bpf_any m n3_teid
          (record (dl_session l) { peer_teid = f1u_teid; dst_ip = du_addr; qfi = 1 }))
        m
