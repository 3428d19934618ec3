-- ===== src/Arp/Probe.antt =====
-- The ARP probe of the refresh threads of artifact/stage_4/xdp_gtp_inner_parser_user.c:
-- flush_arp_entry, force_arp_resolve, the wait and lookup_mac_by_ip. The kernel's neighbour table and
-- the network are a parameter.
use cu_ebpf.Base.{
  ℕ, ◌≡◌, ◌∙◌, ap, refl, Bool, true, List, Option, none, some, Bool-cases, inl, inr, if◌then◌else◌,
}
use cu_ebpf.Session.{Mac}
use cu_ebpf.Learner.{Learner}
use cu_ebpf.Watcher.{du_ip, du_mac_refresh}
use cu_ebpf.Arp.{lookup_mac_by_ip}
use cu_ebpf.Watcher.Transcript.{with_newline}
use cu_ebpf.Arp.Rows.{Row, AreRows, table_text}
use cu_ebpf.Arp.Table.{FitsLine, mac_in, lookup_mac_by_ip-mac_in}

-- What the threads use of the system: the command `ip neigh del`, socket, sendto together with the
-- wait behind it, and the text of /proc/net/arp.
pub record Neighbours (W : Type 0) : Type 0 where
  pub neigh_del : List ℕ → W → W
  pub socket_works : W → Bool
  pub send : List ℕ → W → W
  pub arp_table : W → Option (List ℕ)

unfoldable pub flush_arp_entry : {W : Type 0} → Neighbours W → List ℕ → W → W
flush_arp_entry n ip_str w = n.neigh_del ip_str w

-- The datagram is empty, and its result is not looked at.
unfoldable pub force_arp_resolve : {W : Type 0} → Neighbours W → List ℕ → W → W
force_arp_resolve n ip_str w = if n.socket_works w then n.send ip_str w else w

-- The state behind the probe, and what it found.
unfoldable pub probe : {W : Type 0} → Neighbours W → List ℕ → W → W × Option Mac
unfolding flush_arp_entry force_arp_resolve
probe n ip_str w =
    let w' = force_arp_resolve n ip_str (flush_arp_entry n ip_str w) in
    (w', lookup_mac_by_ip (n.arp_table w') ip_str)

-- One round of du_mac_refresh_thread.
unfoldable pub du_mac_round : {W : Type 0} → Neighbours W → W × Learner → W × Learner
unfolding probe
du_mac_round n (w, l) = let (w', found) = probe n du_ip w in (w', du_mac_refresh found l)

-- What the threads rely on: the table is text of entries; a deleted address has no entry; a datagram
-- to an address without entry makes the kernel ask for it, and what the host answers becomes its
-- entry. (An address that has an entry is not asked for, so nothing is said of it.)
pub record IsNeighbours {W : Type 0} (n : Neighbours W) (answers : List ℕ → W → Option Mac)
    : Type 0 where
  pub header : List ℕ
  pub rows : W → List Row
  pub line : FitsLine header
  pub text : (w : W) → n.arp_table w ≡ some (with_newline header (table_text (rows w)))
  pub are : (w : W) → AreRows (rows w)
  pub deleted : (ip_str : List ℕ) (w : W) → mac_in (rows (n.neigh_del ip_str w)) ip_str ≡ none
  pub asked :
      (ip_str : List ℕ) (w : W)
      → mac_in (rows w) ip_str ≡ none
      → mac_in (rows (n.send ip_str w)) ip_str ≡ answers ip_str w

abbrev pub with_answer : Option Mac → Learner → Learner
with_answer none l = l
with_answer (some mac) l = record l { du_mac = mac; du_mac_valid = true }

module _ {W : Type 0} (n : Neighbours W) (answers : List ℕ → W → Option Mac)
    (is : IsNeighbours n answers) where
  lookup_found :
      (ip_str : List ℕ) (w : W)
      → lookup_mac_by_ip (n.arp_table w) ip_str ≡ mac_in (is.rows w) ip_str
  lookup_found ip_str w =
      ap (λ (t : Option (List ℕ)). lookup_mac_by_ip t ip_str) (is.text w)
      ∙ lookup_mac_by_ip-mac_in ip_str is.header (is.rows w) is.line (is.are w)

  -- What the host at the address answers, once its old entry is gone.
  abbrev pub fresh_answer : List ℕ → W → Option Mac
  fresh_answer ip_str w =
      let w' = n.neigh_del ip_str w in if n.socket_works w' then answers ip_str w' else none

  probe_found : (ip_str : List ℕ) (w : W) → (probe n ip_str w).1 ≡ fresh_answer ip_str w
  unfolding probe
  probe_found ip_str w =
      let w' = n.neigh_del ip_str w in
      elim (Bool-cases (n.socket_works w')) [
        | inl works ↦
            rw works
              (lookup_found ip_str (n.send ip_str w') ∙ is.asked ip_str w' (is.deleted ip_str w))
        | inr fails ↦ rw fails (lookup_found ip_str w' ∙ is.deleted ip_str w)
      ]

  refreshed : (found : Option Mac) (l : Learner) → du_mac_refresh found l ≡ with_answer found l
  unfolding du_mac_refresh
  refreshed none l = refl
  refreshed (some mac) l = refl

  -- Whatever entry the table had for the DU, of a container that is gone or none at all: behind one
  -- round of du_mac_refresh_thread the DU's MAC address is the one that the DU answers with now, and
  -- where it does not answer, or there is no socket to ask with, what was known stays. Assumed: the
  -- neighbour table does what is documented.
  pub du_mac_round-fresh :
      (w : W) (l : Learner) → (du_mac_round n (w, l)).1 ≡ with_answer (fresh_answer du_ip w) l
  unfolding du_mac_round
  du_mac_round-fresh w l =
      ap (λ (found : Option Mac). du_mac_refresh found l) (probe_found du_ip w)
      ∙ refreshed (fresh_answer du_ip w) l
