-- ===== src/Stage1/Learning.antt =====
-- artifact/stage_1/xdp_gtp_inner_parser_user.c: what the F1AP watcher and the ARP thread have learned,
-- and how an event writes session_map. There is no uplink map, and an entry that is there is written
-- again with each event. The line of text is taken apart, and its TEID read, as in stage 4.
use cu_ebpf.Base.{
  ℕ, ◌≡◌, ◌≢◌, refl, Bool, true, not, ◌&&◌, ◌==◌, List, Option, none, some, if◌then◌else◌, arith,
}
use cu_ebpf.Session.{Mac}
use cu_ebpf.Event.{GtpEvent}
use cu_ebpf.Learner.{f1u_port}
use cu_ebpf.Watcher.{Inet, fields_of, parse_colon_hex_teid, str_eq, du_ip}
use cu_ebpf.Stage1.{SessionCtx, SessionMap}

-- The globals.
pub record Learner : Type 0 where
  pub f1u_dl_known : Bool
  pub f1u_dl_teid : ℕ
  pub f1u_dl_ip : ℕ
  pub egress_ifindex : ℕ
  pub own_mac : Mac
  pub du_mac : Mac
  pub du_mac_valid : Bool

-- One line of f1ap_watcher_thread: an endpoint that is not the DU's is ignored.
unfoldable pub f1ap_line : Inet → List ℕ → Learner → Learner
f1ap_line inet line l = elim (fields_of line) [
  | none ↦ l
  | some (teid, ip) ↦ if parse_colon_hex_teid teid == 0 then l else elim (inet.pton ip) [
    | none ↦ l
    | some addr ↦ if not (str_eq ip du_ip) then l else record l {
      f1u_dl_teid = parse_colon_hex_teid teid;
      f1u_dl_ip = addr;
      f1u_dl_known = true;
    }
  ]
]

-- One round of du_mac_refresh_thread; the argument is what the ARP table gave for the DU.
unfoldable pub du_mac_refresh : Option Mac → Learner → Learner
du_mac_refresh none l = l
du_mac_refresh (some candidate) l = record l { du_mac = candidate; du_mac_valid = true }

-- The entry that maybe_learn_and_populate builds.
abbrev pub dl_session : Learner → SessionCtx
dl_session l = record {
  peer_teid = l.f1u_dl_teid;
  dst_ip = l.f1u_dl_ip;
  dst_port = f1u_port;
  egress_ifindex = l.egress_ifindex;
  dst_mac = l.du_mac;
  src_mac = l.own_mac;
  qfi = 0;
}

-- bpf_map_update_elem with BPF_ANY; `none` is a negative result.
abbrev pub UpdateAny : Type 0
UpdateAny = SessionMap → ℕ → SessionCtx → Option SessionMap

-- maybe_learn_and_populate for an event with the TEID `key`.
unfoldable pub maybe_learn_and_populate : UpdateAny → Learner → ℕ → SessionMap → SessionMap
maybe_learn_and_populate update l key m =
    if not l.f1u_dl_known
    then m
    else if not l.du_mac_valid
    then m
    else elim (update m key (dl_session l)) [ none ↦ m | some m' ↦ m' ]

-- What print_event does to session_map, beside printing.
unfoldable pub print_event : UpdateAny → Learner → GtpEvent → SessionMap → SessionMap
unfolding maybe_learn_and_populate
print_event update l e m =
    if not e.is_gtpu
    then m
    else if e.is_gtpu && e.inner_ip_present
    then maybe_learn_and_populate update l e.teid m
    else m

-- What the program relies on of bpf_map_update_elem: on success the key has the new value and nothing
-- else changed, and a key that is there can be written again.
pub record IsUpdateAny (update : UpdateAny) : Type 0 where
  pub stored :
      (m m' : SessionMap) (k j : ℕ) (v : SessionCtx)
      → update m k v ≡ some m'
      → m' j ≡ (if k == j then some v else m j)
  pub present :
      (m : SessionMap) (k : ℕ) (old v : SessionCtx)
      → m k ≡ some old
      → (m' : SessionMap) × (update m k v ≡ some m')

-- A line that names the DU's own address with a TEID.
pub record Announces (inet : Inet) (line : List ℕ) (teid addr : ℕ) : Type 0 where
  pub text : List ℕ
  pub fields : fields_of line ≡ some (text, du_ip)
  pub reads : parse_colon_hex_teid text ≡ teid
  pub nonzero : teid ≢ 0
  pub address : inet.pton du_ip ≡ some addr

f1ap_line-learns :
    (inet : Inet) (line : List ℕ) (teid addr : ℕ) (l : Learner)
    → Announces inet line teid addr
    → f1ap_line inet line l ≡ record l { f1u_dl_teid = teid; f1u_dl_ip = addr; f1u_dl_known = true }
unfolding f1ap_line
f1ap_line-learns inet line teid addr l a = ground (arith, a.fields, a.reads, a.nonzero, a.address)

populates :
    (update : UpdateAny) (l : Learner) (k : ℕ) (m m' : SessionMap)
    → l.f1u_dl_known ≡ true
    → l.du_mac_valid ≡ true
    → update m k (dl_session l) ≡ some m'
    → maybe_learn_and_populate update l k m ≡ m'
unfolding maybe_learn_and_populate
populates update l k m m' known valid wrote = ground (arith, wrote)

-- A DU that announces a new downlink endpoint is followed: with the DU's MAC address known, the next
-- event of a G-PDU with an inner packet turns the entry of its TEID, which was there, into one for
-- the new endpoint, and leaves every other entry as it was. Assumed: bpf_map_update_elem keeps its
-- word.
pub print_event-follows :
    (inet : Inet) (update : UpdateAny) (line : List ℕ) (teid addr : ℕ) (l : Learner) (e : GtpEvent)
    (m : SessionMap) (old : SessionCtx) (j : ℕ)
    → IsUpdateAny update
    → Announces inet line teid addr
    → l.du_mac_valid ≡ true
    → e.is_gtpu ≡ true
    → e.inner_ip_present ≡ true
    → m e.teid ≡ some old
    → print_event update (f1ap_line inet line l) e m j ≡ (
        if e.teid == j
        then some (record (dl_session l) { peer_teid = teid; dst_ip = addr })
        else m j)
unfolding print_event
print_event-follows inet update line teid addr l e m old j ok a valid g_pdu inner there =
    let l' : Learner = record l { f1u_dl_teid = teid; f1u_dl_ip = addr; f1u_dl_known = true } in
    let (m', wrote) = ok.present m e.teid old (dl_session l') there in
    let ran = populates update l' e.teid m m' refl valid wrote in
    rw (f1ap_line-learns inet line teid addr l a)
      (ground (arith, g_pdu, inner, ran, ok.stored m m' e.teid j (dl_session l') wrote))
