-- ===== src/Watcher.antt =====
-- The watcher threads of artifact/stage_4/xdp_gtp_inner_parser_user.c: one round of each loop, on a
-- line of tshark's output or on the result of an ARP lookup, and the SEED_SESSION block of main.
-- A line is its bytes up to the terminating NUL; logging is left out.
pub mod Learning
pub mod HexTeid
pub mod Lines
pub mod Stream
pub mod Transcript
pub mod Heard
use cu_ebpf.Base.{
  ℕ, ◌+◌, ◌-◌, ◌*◌, ◌%◌, ◌^◌, Bool, true, false, not, ◌&&◌, ◌||◌, Option, none, some, List, [], ◌∷◌,
  leb, ◌==◌, if◌then◌else◌, take,
}
use cu_ebpf.Session.{
  Mac, Mac-discrete, SessionCtx, SessionMap, zero_session, zero_mac, UpdateElem, bpf_any,
}
use cu_ebpf.Learner.{
  Learner, updated, f1u_port, maybe_populate_ul_session_map, maybe_complete_ul_session_map,
}

-- inet_pton and inet_ntop of the C library, on the number that an address spells in network order.
pub record Inet : Type 0 where
  pub pton : List ℕ → Option ℕ
  pub ntop : ℕ → List ℕ

-- What one character of a TEID field is to parse_colon_hex_teid.
pub data HexChar : Type 0 where
  colon other : HexChar
  nibble : ℕ → HexChar

unfoldable pub hex_char : ℕ → HexChar
hex_char c =
    if c == b':'
    then colon
    else if leb b'0' c && leb c b'9'
    then nibble (c - b'0')
    else if leb b'a' c && leb c b'f'
    then nibble (c - b'a' + 10)
    else if leb b'A' c && leb c b'F'
    then nibble (c - b'A' + 10)
    else other

-- The loop, from the value read so far; `val << 4` is cut to a __u32, and leaves four zero bits for
-- the nibble.
unfoldable pub parse_from : ℕ → List ℕ → ℕ
unfolding hex_char
parse_from val [] = val
parse_from val (c ∷ s) = elim (hex_char c) [
  | colon ↦ parse_from val s
  | nibble n ↦ parse_from (val * 16 % 2 ^ 32 + n) s
  | other ↦ val
]

unfoldable pub parse_colon_hex_teid : List ℕ → ℕ
unfolding parse_from
parse_colon_hex_teid s = parse_from 0 s

-- The line up to its first newline.
unfoldable pub strip_newline : List ℕ → List ℕ
strip_newline [] = []
strip_newline (c ∷ s) = if c == 10 then [] else c ∷ strip_newline s

abbrev pub cons_left : ℕ → Option (List ℕ × List ℕ) → Option (List ℕ × List ℕ)
cons_left c none = none
cons_left c (some (left, right)) = some (c ∷ left, right)

-- strchr(line, '\t'): what stands before and behind the first tab.
unfoldable pub split_tab : List ℕ → Option (List ℕ × List ℕ)
split_tab [] = none
split_tab (c ∷ s) = if c == 9 then some ([], s) else cons_left c (split_tab s)

abbrev pub is_nil : List ℕ → Bool
is_nil [] = true
is_nil (c ∷ s) = false

-- The two fields of a line, each cut to its buffer of 64 bytes; `none` where the loop goes on to the
-- next line.
unfoldable pub fields_of : List ℕ → Option (List ℕ × List ℕ)
unfolding strip_newline split_tab
fields_of line = elim (split_tab (strip_newline line)) [
  | none ↦ none
  | some (teid, ip) ↦
      if is_nil teid then none else if is_nil ip then none else some (take 63 teid, take 63 ip)
]

-- strcmp(a, b) == 0
abbrev pub str_eq : List ℕ → List ℕ → Bool
str_eq [] [] = true
str_eq (a ∷ s) (b ∷ t) = a == b && str_eq s t
str_eq _ _ = false

-- DU_IP
abbrev pub du_ip : List ℕ
du_ip =
    b'1' ∷ b'9' ∷ b'2' ∷ b'.' ∷ b'1' ∷ b'6' ∷ b'8' ∷ b'.' ∷ b'7' ∷ b'1' ∷ b'.' ∷ b'1' ∷ b'7' ∷ b'1'
    ∷ []

-- f1ap_watcher_thread, behind the tests of a line: the endpoint is the DU's, or our own, or ignored.
unfoldable pub f1ap_endpoint :
    Inet → UpdateElem → List ℕ → ℕ → ℕ → Learner × SessionMap → Learner × SessionMap
f1ap_endpoint inet update ip teid addr (l, m) =
    if str_eq ip du_ip
    then (record l { f1u_dl_teid = teid; f1u_dl_ip = addr; f1u_dl_known = true }, m)
    else if str_eq ip (inet.ntop l.own_ip)
    then (let l' : Learner = record l { f1u_ul_teid = teid; f1u_ul_known = true } in
        (
          l',
          maybe_complete_ul_session_map update l' (maybe_populate_ul_session_map update l' teid m),
        ))
    else (l, m)

-- One line of the F1AP watcher; the map is ul_session_map.
unfoldable pub f1ap_line : Inet → UpdateElem → List ℕ → Learner × SessionMap → Learner × SessionMap
f1ap_line inet update line lm = elim (fields_of line) [
  | none ↦ lm
  | some (teid, ip) ↦ if parse_colon_hex_teid teid == 0 then lm else elim (inet.pton ip) [
    | none ↦ lm
    | some addr ↦ f1ap_endpoint inet update ip (parse_colon_hex_teid teid) addr lm
  ]
]

-- A leading 0x or 0X is skipped.
unfoldable pub skip_0x : List ℕ → List ℕ
skip_0x [] = []
skip_0x (c ∷ []) = c ∷ []
skip_0x (c ∷ d ∷ s) = if c == b'0' && (d == b'x' || d == b'X') then s else c ∷ d ∷ s

-- ngap_watcher_thread, behind the tests of a line: our own endpoint is ignored.
unfoldable pub ngap_endpoint :
    Inet → UpdateElem → List ℕ → ℕ → ℕ → Learner × SessionMap → Learner × SessionMap
ngap_endpoint inet update ip teid addr (l, m) =
    if str_eq ip (inet.ntop l.own_ip)
    then (l, m)
    else (let l' : Learner = record l { n3_ul_teid = teid; n3_ul_ip = addr; n3_ul_known = true } in
        (l', maybe_complete_ul_session_map update l' m))

unfoldable pub ngap_line : Inet → UpdateElem → List ℕ → Learner × SessionMap → Learner × SessionMap
ngap_line inet update line lm = elim (fields_of line) [
  | none ↦ lm
  | some (teid, ip) ↦ if parse_colon_hex_teid (skip_0x teid) == 0 then lm else elim (inet.pton ip) [
    | none ↦ lm
    | some addr ↦ ngap_endpoint inet update ip (parse_colon_hex_teid (skip_0x teid)) addr lm
  ]
]

-- One round of du_mac_refresh_thread; the argument is what the ARP table gave for the DU.
unfoldable pub du_mac_refresh : Option Mac → Learner → Learner
du_mac_refresh none l = l
du_mac_refresh (some candidate) l = record l { du_mac = candidate; du_mac_valid = true }

-- The local variables of upf_mac_refresh_thread.
pub record UpfThread : Type 0 where
  pub have_target : Bool
  pub target_ip : ℕ
  pub have_last_logged : Bool
  pub last_logged : Mac

unfoldable pub retarget : ℕ → UpfThread → UpfThread
retarget ip t =
    if not t.have_target || not (ip == t.target_ip)
    then record t { target_ip = ip; have_target = true; have_last_logged = false }
    else t

abbrev pub mac_changed : Mac → UpfThread → Bool
mac_changed candidate t =
    not t.have_last_logged
    || (elim (Mac-discrete candidate t.last_logged) [ yes e ↦ false | no n ↦ true ])

pub record UpfRound : Type 0 where
  pub learner : Learner
  pub thread : UpfThread
  pub ul_map : SessionMap

-- One round of upf_mac_refresh_thread; `arp` is the ARP table by address.
unfoldable pub upf_mac_refresh : UpdateElem → (ℕ → Option Mac) → UpfRound → UpfRound
unfolding retarget
upf_mac_refresh update arp r =
    if not r.learner.n3_ul_known
    then r
    else (let t = retarget r.learner.n3_ul_ip r.thread in
        elim (arp t.target_ip) [
          | none ↦ record r { thread = t }
          | some candidate ↦
              let l : Learner = record r.learner { upf_mac = candidate; upf_mac_valid = true } in
              if mac_changed candidate t
              then record {
                learner = l;
                thread = record t { last_logged = candidate; have_last_logged = true };
                ul_map = maybe_complete_ul_session_map update l r.ul_map;
              }
              else record { learner = l; thread = t; ul_map = r.ul_map }
        ])

-- The entry that the SEED_SESSION block of main builds.
unfoldable pub seed_entry : ℕ → ℕ → Learner → SessionCtx
seed_entry du_addr f1u_teid l = record zero_session {
  peer_teid = f1u_teid;
  dst_ip = du_addr;
  src_ip = l.own_ip;
  dst_port = f1u_port;
  egress_ifindex = l.egress_ifindex;
  dst_mac = l.du_mac;
  src_mac = l.own_mac;
  qfi = 1;
  ready = true;
}

-- The SEED_SESSION block of main, on session_map: the variable if it is set, as sscanf reads it
-- (`none` if it does not have the two numbers), and DU_IP as inet_pton gives it. `l` is what is known
-- after the wait for the DU's MAC address.
unfoldable pub seed_session :
    UpdateElem → ℕ → Option (Option (ℕ × ℕ)) → Learner → SessionMap → SessionMap
unfolding seed_entry
seed_session update du_addr none l m = m
seed_session update du_addr (some none) l m = m
seed_session update du_addr (some (some (n3_teid, f1u_teid))) l m =
    if l.disable_offload
    then m
    else if not l.du_mac_valid
    then m
    else updated (update bpf_any m n3_teid (seed_entry du_addr f1u_teid l)) m
