-- ===== src/Stage3.antt =====
-- artifact/stage_3/xdp_gtp_inner_parser_user.c: session learning before the benchmarking switch was
-- added. The kernel program of stage 3 is the file of stage 4. Lines, fields and TEIDs are taken apart
-- by the text of stage 4, and so are the threads' own variables.
pub mod Agrees
use cu_ebpf.Base.{
  ℕ, Bool, true, false, not, ◌&&◌, ◌||◌, ◌==◌, Option, none, some, List, if◌then◌else◌,
}
use cu_ebpf.Session.{
  Mac, SessionCtx, SessionCtx-discrete, SessionMap, zero_session, UpdateElem, bpf_any, bpf_noexist,
  bpf_exist,
}
use cu_ebpf.Event.{GtpEvent}
use cu_ebpf.Learner.{gtpu_standard_port, f1u_port, updated}
use cu_ebpf.Watcher.{
  Inet, UpfThread, fields_of, str_eq, du_ip, skip_0x, parse_colon_hex_teid, retarget, mac_changed,
}

-- The globals.
pub record Learner : Type 0 where
  pub f1u_dl_known : Bool
  pub f1u_dl_teid : ℕ
  pub f1u_dl_ip : ℕ
  pub f1u_ul_known : Bool
  pub f1u_ul_teid : ℕ
  pub n3_ul_known : Bool
  pub n3_ul_teid : ℕ
  pub n3_ul_ip : ℕ
  pub ul_map_open : Bool
  pub egress_ifindex : ℕ
  pub own_mac : Mac
  pub own_ip : ℕ
  pub du_mac : Mac
  pub du_mac_valid : Bool
  pub upf_mac : Mac
  pub upf_mac_valid : Bool

unfoldable pub maybe_populate_ul_session_map : UpdateElem → Learner → ℕ → SessionMap → SessionMap
maybe_populate_ul_session_map update l ul_teid m =
    if not l.ul_map_open then m else elim (m ul_teid) [
      | some existing ↦ m
      | none ↦ updated (update bpf_noexist m ul_teid zero_session) m
    ]

-- The entry that maybe_complete_ul_session_map builds.
unfoldable pub ul_session : Learner → SessionCtx
ul_session l =
    let sess : SessionCtx = record zero_session {
      peer_teid = l.n3_ul_teid;
      dst_ip = l.n3_ul_ip;
      dst_port = gtpu_standard_port;
      src_ip = l.own_ip;
    } in
    if l.upf_mac_valid
    then record sess {
      dst_mac = l.upf_mac;
      src_mac = l.own_mac;
      egress_ifindex = l.egress_ifindex;
      ready = true;
    }
    else sess

unfoldable pub maybe_complete_ul_session_map : UpdateElem → Learner → SessionMap → SessionMap
maybe_complete_ul_session_map update l m =
    if not l.f1u_ul_known || not l.n3_ul_known
    then m
    else if not l.ul_map_open
    then m
    else elim (m l.f1u_ul_teid) [
      | none ↦ updated (update bpf_noexist m l.f1u_ul_teid (ul_session l)) m
      | some existing ↦ elim (SessionCtx-discrete existing (ul_session l)) [
        | yes same ↦ m
        | no changed ↦ updated (update bpf_exist m l.f1u_ul_teid (ul_session l)) m
      ]
    ]

-- The entry that maybe_learn_and_populate builds.
unfoldable pub dl_session : Learner → SessionCtx
dl_session l = record zero_session {
  peer_teid = l.f1u_dl_teid;
  dst_ip = l.f1u_dl_ip;
  src_ip = l.own_ip;
  dst_port = f1u_port;
  egress_ifindex = l.egress_ifindex;
  dst_mac = l.du_mac;
  src_mac = l.own_mac;
  ready = true;
}

unfoldable pub maybe_learn_and_populate : UpdateElem → Learner → ℕ → SessionMap → SessionMap
maybe_learn_and_populate update l key m = elim (m key) [
  | some existing ↦ m
  | none ↦
      if not l.f1u_dl_known
      then m
      else if not l.du_mac_valid
      then m
      else updated (update bpf_noexist m key (dl_session l)) m
]

-- What print_event does to session_map, beside printing.
unfoldable pub print_event : UpdateElem → Learner → GtpEvent → SessionMap → SessionMap
unfolding maybe_learn_and_populate
print_event update l e m =
    if not e.is_gtpu
    then m
    else if e.is_gtpu && e.inner_ip_present && not e.is_f1u
    then maybe_learn_and_populate update l e.teid m
    else m

-- f1ap_watcher_thread behind the tests of a line, and the whole body of its loop.
unfoldable pub f1ap_endpoint :
    Inet → UpdateElem → List ℕ → ℕ → ℕ → Learner × SessionMap → Learner × SessionMap
f1ap_endpoint inet update ip teid addr (l, m) =
    if str_eq ip du_ip
    then (record l { f1u_dl_teid = teid; f1u_dl_ip = addr; f1u_dl_known = true }, m)
    else if str_eq ip (inet.ntop l.own_ip)
    then (let l' : Learner = record l { f1u_ul_teid = teid; f1u_ul_known = true } in
        (
          l',
          maybe_complete_ul_session_map update l' (maybe_populate_ul_session_map update l' teid m),
        ))
    else (l, m)

unfoldable pub f1ap_line : Inet → UpdateElem → List ℕ → Learner × SessionMap → Learner × SessionMap
f1ap_line inet update line lm = elim (fields_of line) [
  | none ↦ lm
  | some (teid, ip) ↦ if parse_colon_hex_teid teid == 0 then lm else elim (inet.pton ip) [
    | none ↦ lm
    | some addr ↦ f1ap_endpoint inet update ip (parse_colon_hex_teid teid) addr lm
  ]
]

-- The same for ngap_watcher_thread.
unfoldable pub ngap_endpoint :
    Inet → UpdateElem → List ℕ → ℕ → ℕ → Learner × SessionMap → Learner × SessionMap
ngap_endpoint inet update ip teid addr (l, m) =
    if str_eq ip (inet.ntop l.own_ip)
    then (l, m)
    else (let l' : Learner = record l { n3_ul_teid = teid; n3_ul_ip = addr; n3_ul_known = true } in
        (l', maybe_complete_ul_session_map update l' m))

unfoldable pub ngap_line : Inet → UpdateElem → List ℕ → Learner × SessionMap → Learner × SessionMap
ngap_line inet update line lm = elim (fields_of line) [
  | none ↦ lm
  | some (teid, ip) ↦ if parse_colon_hex_teid (skip_0x teid) == 0 then lm else elim (inet.pton ip) [
    | none ↦ lm
    | some addr ↦ ngap_endpoint inet update ip (parse_colon_hex_teid (skip_0x teid)) addr lm
  ]
]

-- One round of du_mac_refresh_thread; the argument is what the ARP table gave for the DU.
unfoldable pub du_mac_refresh : Option Mac → Learner → Learner
du_mac_refresh none l = l
du_mac_refresh (some candidate) l = record l { du_mac = candidate; du_mac_valid = true }

-- What the threads keep between their rounds: the globals, the variables of upf_mac_refresh_thread
-- and the two maps.
pub record State : Type 0 where
  pub learner : Learner
  pub thread : UpfThread
  pub session_map : SessionMap
  pub ul_map : SessionMap

-- One round of upf_mac_refresh_thread; `arp` is the ARP table by address.
unfoldable pub upf_mac_refresh : UpdateElem → (ℕ → Option Mac) → State → State
upf_mac_refresh update arp s =
    if not s.learner.n3_ul_known
    then s
    else (let t = retarget s.learner.n3_ul_ip s.thread in
        elim (arp t.target_ip) [
          | none ↦ record s { thread = t }
          | some candidate ↦
              let l : Learner = record s.learner { upf_mac = candidate; upf_mac_valid = true } in
              if mac_changed candidate t
              then record s {
                learner = l;
                thread = record t { last_logged = candidate; have_last_logged = true };
                ul_map = maybe_complete_ul_session_map update l s.ul_map;
              }
              else record s { learner = l; thread = t }
        ])

-- The SEED_SESSION block of main, as Watcher.seed_session.
unfoldable pub seed_session :
    UpdateElem → ℕ → Option (Option (ℕ × ℕ)) → Learner → SessionMap → SessionMap
unfolding dl_session
seed_session update du_addr none l m = m
seed_session update du_addr (some none) l m = m
seed_session update du_addr (some (some (n3_teid, f1u_teid))) l m =
    if not l.du_mac_valid
    then m
    else updated
        (update bpf_any m n3_teid
          (record (dl_session l) { peer_teid = f1u_teid; dst_ip = du_addr; qfi = 1 }))
        m
