-- ===== src/Watcher/Learning.antt =====
-- What the F1AP and NGAP watchers learn together.
use cu_ebpf.Base.{ℕ, ◌≡◌, ◌∙◌, ap, refl, true, false, List, [], ◌∷◌, some, arith, fun_ext}
use cu_ebpf.Session.{SessionCtx, SessionMap, insert, UpdateElem, IsUpdateElem, HasRoom}
use cu_ebpf.Learner.{
  Learner, maybe_populate_ul_session_map, maybe_complete_ul_session_map, ul_session,
}
use cu_ebpf.Learner.Entries.{populate_other, complete_waits, complete_lem}
use cu_ebpf.Watcher.{Inet, str_eq, du_ip, f1ap_endpoint, ngap_endpoint}

pub str_eq_refl : (s : List ℕ) → str_eq s s ≡ true
str_eq_refl [] = refl
str_eq_refl (c ∷ s) = ground (arith, str_eq_refl s)

-- What is known once both endpoints have been seen.
abbrev pub learned : ℕ → ℕ → ℕ → Learner → Learner
learned f1u_teid n3_teid n3_ip l = record l {
  f1u_ul_teid = f1u_teid;
  f1u_ul_known = true;
  n3_ul_teid = n3_teid;
  n3_ul_ip = n3_ip;
  n3_ul_known = true;
}

abbrev pub learned_f1u : ℕ → Learner → Learner
learned_f1u teid l = record l { f1u_ul_teid = teid; f1u_ul_known = true }

abbrev pub learned_n3 : ℕ → ℕ → Learner → Learner
learned_n3 teid ip l = record l { n3_ul_teid = teid; n3_ul_ip = ip; n3_ul_known = true }

module _ (inet : Inet) (update : UpdateElem) (is : IsUpdateElem update) (room : HasRoom update)
    (l : Learner) (m : SessionMap) (f1u_teid f1u_addr n3_teid n3_addr : ℕ) (upf_ip : List ℕ)
    (not_du : str_eq (inet.ntop l.own_ip) du_ip ≡ false)
    (not_own : str_eq upf_ip (inet.ntop l.own_ip) ≡ false) (on : l.disable_offload ≡ false)
    (open_map : l.ul_map_open ≡ true) (no_f1u : l.f1u_ul_known ≡ false)
    (no_n3 : l.n3_ul_known ≡ false) where
  abbrev both : Learner
  both = learned f1u_teid n3_teid n3_addr l

  abbrev seen_f1u : Learner × SessionMap → Learner × SessionMap
  seen_f1u = f1ap_endpoint inet update (inet.ntop l.own_ip) f1u_teid f1u_addr

  abbrev seen_n3 : Learner × SessionMap → Learner × SessionMap
  seen_n3 = ngap_endpoint inet update upf_ip n3_teid n3_addr

  insert_over :
      (x : Learner)
      → insert f1u_teid (ul_session both) (maybe_populate_ul_session_map update x f1u_teid m)
        ≡ insert f1u_teid (ul_session both) m
  insert_over x = fun_ext λ j. ground (arith, populate_other update is x m f1u_teid j)

  waits_f1u : (x : SessionMap) → maybe_complete_ul_session_map update (learned_f1u f1u_teid l) x ≡ x
  waits_f1u x = complete_waits update (learned_f1u f1u_teid l) x (ground arith)

  waits_n3 : maybe_complete_ul_session_map update (learned_n3 n3_teid n3_addr l) m ≡ m
  waits_n3 = complete_waits update (learned_n3 n3_teid n3_addr l) m (ground arith)

  completes :
      (x : SessionMap)
      → maybe_complete_ul_session_map update both x ≡ insert f1u_teid (ul_session both) x
  completes x = complete_lem update room both x on refl refl open_map

  f1u_first : seen_n3 (seen_f1u (l, m)) ≡ (both, insert f1u_teid (ul_session both) m)
  unfolding f1ap_endpoint ngap_endpoint
  f1u_first =
      rw (not_du, str_eq_refl (inet.ntop l.own_ip), not_own)
        (rw (waits_f1u _, completes _, insert_over (learned_f1u f1u_teid l)))

  n3_alone : seen_n3 (l, m) ≡ (learned_n3 n3_teid n3_addr l, m)
  unfolding ngap_endpoint
  n3_alone = rw not_own (rw waits_n3)

  f1u_second :
      seen_f1u (learned_n3 n3_teid n3_addr l, m) ≡ (both, insert f1u_teid (ul_session both) m)
  unfolding f1ap_endpoint
  f1u_second = rw (not_du, str_eq_refl (inet.ntop l.own_ip)) (rw (completes _, insert_over both))

  -- The order in which the F1AP watcher sees the UL F1-U endpoint and the NGAP watcher sees the UPF's
  -- endpoint does not matter: both orders end with the same knowledge and with the same
  -- ul_session_map, in which the F1-U TEID has the entry that is built from both, and no other entry
  -- has changed.
  -- Assumed: neither endpoint was known, offload is on, the map is open and has room, our own
  -- address is not the DU's, and the UPF's is not our own.
  pub learning_commutes :
      (seen_n3 (seen_f1u (l, m)) ≡ (both, insert f1u_teid (ul_session both) m))
      × (seen_f1u (seen_n3 (l, m)) ≡ (both, insert f1u_teid (ul_session both) m))
  learning_commutes = (f1u_first, ap seen_f1u n3_alone ∙ f1u_second)

-- While the UPF's MAC address is known, a new UPF address makes a ready entry at once, with the new
-- IP address and the MAC address of the old one. Assumed: the UL F1-U TEID is known, offload is on,
-- the map is open and has room, and the new address is not our own.
pub stale_mac :
    (inet : Inet) (update : UpdateElem) (room : HasRoom update) (l : Learner) (m : SessionMap)
    (teid addr : ℕ) (upf_ip : List ℕ)
    → str_eq upf_ip (inet.ntop l.own_ip) ≡ false
    → l.disable_offload ≡ false
    → l.ul_map_open ≡ true
    → l.f1u_ul_known ≡ true
    → l.upf_mac_valid ≡ true
    → (sess : SessionCtx) × ((ngap_endpoint inet update upf_ip teid addr (l, m)).1 l.f1u_ul_teid
        ≡ some sess)
      × (sess.dst_ip ≡ addr)
      × (sess.dst_mac ≡ l.upf_mac)
      × (sess.ready ≡ true)
unfolding ngap_endpoint ul_session
stale_mac inet update room l m teid addr upf_ip not_own on open_map f1u valid = (
  ul_session (learned_n3 teid addr l),
  ground (arith, complete_lem update room (learned_n3 teid addr l) m on f1u refl open_map),
  ground arith,
  ground arith,
  ground arith,
)
