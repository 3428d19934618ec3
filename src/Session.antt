-- ===== src/Session.antt =====
-- struct session_ctx of artifact/stage_4 (kernel and userspace declare it alike), the two hash maps
-- from TEID to session_ctx, and what the program relies on of bpf_map_update_elem.
use mathlib.Core.Path.{subst}
use cu_ebpf.Base.{
  ℕ, ◌^◌, ◌<◌, ◌≡◌, Bool, true, false, Bool-cases, inl, inr, arith, Option, none, some, ◌==◌,
  if◌then◌else◌, ℕ_discrete,
}

-- The ETH_ALEN bytes of a MAC address.
pub record Mac : Type 0 where
  pub b0 : ℕ
  pub b1 : ℕ
  pub b2 : ℕ
  pub b3 : ℕ
  pub b4 : ℕ
  pub b5 : ℕ

-- memcmp over two MAC addresses
unfoldable pub Mac-discrete : Discrete Mac
Mac-discrete = hlevel ℕ_discrete

abbrev pub zero_mac : Mac
zero_mac = record { b0 = 0; b1 = 0; b2 = 0; b3 = 0; b4 = 0; b5 = 0 }

-- Addresses and ports are the numbers that their bytes spell in network order; `ready` holds 0 or 1.
pub record SessionCtx : Type 0 where
  pub peer_teid : ℕ
  pub dst_ip : ℕ
  pub src_ip : ℕ
  pub dst_port : ℕ
  pub egress_ifindex : ℕ
  pub dst_mac : Mac
  pub src_mac : Mac
  pub qfi : ℕ
  pub next_dl_pdcp_sn : ℕ
  pub ready : Bool

-- memset(&sess, 0, sizeof(sess))
abbrev pub zero_session : SessionCtx
zero_session = record {
  peer_teid = 0;
  dst_ip = 0;
  src_ip = 0;
  dst_port = 0;
  egress_ifindex = 0;
  dst_mac = zero_mac;
  src_mac = zero_mac;
  qfi = 0;
  next_dl_pdcp_sn = 0;
  ready = false;
}

-- memcmp over two entries; their padding is zeroed by memset.
unfoldable pub SessionCtx-discrete : Discrete SessionCtx
SessionCtx-discrete = hlevel ℕ_discrete

-- What bpf_map_lookup_elem finds in session_map or ul_session_map.
abbrev pub SessionMap : Type 0
SessionMap = ℕ → Option SessionCtx

abbrev pub empty_map : SessionMap
empty_map k = none

-- The entry of `k` replaced, as by a store through the pointer that a lookup returned.
abbrev pub insert : ℕ → SessionCtx → SessionMap → SessionMap
insert k v m j = if k == j then some v else m j

-- The fields of an entry are machine words.
pub record SessionFits (sess : SessionCtx) : Type 0 where
  pub teid : sess.peer_teid < 2 ^ 32
  pub dst_ip : sess.dst_ip < 2 ^ 32
  pub src_ip : sess.src_ip < 2 ^ 32
  pub dst_port : sess.dst_port < 2 ^ 16
  pub sn : sess.next_dl_pdcp_sn < 2 ^ 32

-- Every entry of a map has a property.
abbrev pub Everywhere : (SessionCtx → Type 0) → SessionMap → Type 0
Everywhere P m = (k : ℕ) (sess : SessionCtx) → m k ≡ some sess → P sess

pub Everywhere-insert :
    (P : SessionCtx → Type 0) (m : SessionMap) (k : ℕ) (v : SessionCtx)
    → P v
    → Everywhere P m
    → Everywhere P (insert k v m)
Everywhere-insert P m k v new all j sess found = elim (Bool-cases (k == j)) [
  | inl hit ↦ let e : v ≡ sess = ground (arith, found, hit) in subst P e new
  | inr miss ↦ all j sess (ground (arith, found, miss))
]

-- The entries that the downlink block can use: machine words, for the F1-U port of the DU.
abbrev pub ServesF1u : SessionMap → Type 0
ServesF1u = Everywhere (λ sess. SessionFits sess × (sess.dst_port ≡ 2153))

-- The same for the uplink block, which uses ready entries only, towards the GTP-U port of the UPF.
abbrev pub ServesN3 : SessionMap → Type 0
ServesN3 = Everywhere (λ sess. sess.ready ≡ true → SessionFits sess × (sess.dst_port ≡ 2152))

-- The flags of bpf_map_update_elem.
pub data UpdateFlag : Type 0 where
  bpf_any bpf_noexist bpf_exist : UpdateFlag

-- bpf_map_update_elem on a map with such contents; `none` is a negative result, as when the map is
-- full.
abbrev pub UpdateElem : Type 0
UpdateElem = UpdateFlag → SessionMap → ℕ → SessionCtx → Option SessionMap

-- What the program relies on of bpf_map_update_elem: on success the key has the new value and
-- nothing else changed; BPF_NOEXIST succeeds on a missing key only, BPF_EXIST on a present one only.
pub record IsUpdateElem (update : UpdateElem) : Type 0 where
  pub stored :
      (flag : UpdateFlag) (m m' : SessionMap) (k : ℕ) (v : SessionCtx)
      → update flag m k v ≡ some m'
      → m' ≡ insert k v m
  pub noexist :
      (m : SessionMap) (k : ℕ) (old v : SessionCtx)
      → m k ≡ some old
      → update bpf_noexist m k v ≡ none
  pub exist : (m : SessionMap) (k : ℕ) (v : SessionCtx) → m k ≡ none → update bpf_exist m k v ≡ none

-- The map has room: an update that its flag allows succeeds.
pub record HasRoom (update : UpdateElem) : Type 0 where
  pub fresh :
      (m : SessionMap) (k : ℕ) (v : SessionCtx)
      → m k ≡ none
      → update bpf_noexist m k v ≡ some (insert k v m)
  pub present :
      (m : SessionMap) (k : ℕ) (old v : SessionCtx)
      → m k ≡ some old
      → update bpf_exist m k v ≡ some (insert k v m)
