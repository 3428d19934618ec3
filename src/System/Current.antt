-- ===== src/System/Current.antt =====
-- How ul_session_map follows what the watchers and the ARP thread learn of the uplink tunnel.
use cu_ebpf.Base.{
  ℕ, ◌≡◌, ◌∙◌, ap, sym, refl, true, false, inl, inr, Bool-cases, Option-cases, Option, List, none,
  some, arith,
}
use mathlib.Core.Path.{subst}
use cu_ebpf.Session.{Mac, SessionMap, UpdateElem, HasRoom}
use cu_ebpf.Learner.{Learner, ul_session, maybe_complete_ul_session_map}
use cu_ebpf.Learner.Entries.{complete_lem}
use cu_ebpf.Watcher.{
  Inet, UpfThread, UpfRound, str_eq, du_ip, f1ap_endpoint, ngap_endpoint, upf_mac_refresh, retarget,
  mac_changed,
}
use cu_ebpf.System.{System}

-- The MAC address that upf_mac_refresh_thread has logged last is the one that is in use.
abbrev pub Tracks : UpfThread → Learner → Type 0
Tracks th l = th.have_last_logged ≡ true → (l.upf_mac ≡ th.last_logged) × (l.upf_mac_valid ≡ true)

-- Both endpoints of the uplink are known, that on F1-U under the TEID `k`, and the fast path is on.
pub record KnowsUplink (k : ℕ) (l : Learner) : Type 0 where
  pub on : l.disable_offload ≡ false
  pub open_map : l.ul_map_open ≡ true
  pub f1u : l.f1u_ul_known ≡ true
  pub n3 : l.n3_ul_known ≡ true
  pub teid : l.f1u_ul_teid ≡ k

-- The entry of `k` is the one that maybe_complete_ul_session_map builds from what is known now.
abbrev pub IsCurrent : ℕ → Learner → SessionMap → Type 0
IsCurrent k l m = KnowsUplink k l × (m k ≡ some (ul_session l))

pub record Current (k : ℕ) (s : System) : Type 0 where
  pub tracks : Tracks s.upf_thread s.learner
  pub current : IsCurrent k s.learner s.kernel.ul_session_map

module _ (update : UpdateElem) (room : HasRoom update) (k : ℕ) where
  pub complete-IsCurrent :
      (l : Learner) (m : SessionMap)
      → KnowsUplink k l
      → IsCurrent k l (maybe_complete_ul_session_map update l m)
  complete-IsCurrent l m knows = (
    knows,
    ap (λ (x : SessionMap). x k)
          (complete_lem update room l m knows.on knows.f1u knows.n3 knows.open_map)
        ∙ ground (arith, knows),
  )

  pub f1ap_endpoint-IsCurrent :
      (inet : Inet) (ip : List ℕ) (teid addr : ℕ) (l : Learner) (m : SessionMap)
      → IsCurrent k l m
      → let lm = f1ap_endpoint inet update ip teid addr (l, m) in
        lm.0.f1u_ul_teid ≡ k → IsCurrent k lm.0 lm.1
  unfolding f1ap_endpoint ul_session
  f1ap_endpoint-IsCurrent inet ip teid addr l m c same = elim (Bool-cases (str_eq ip du_ip)) [
    | inl du ↦ rw du (ground (arith, c))
    | inr not_du ↦ elim (Bool-cases (str_eq ip (inet.ntop l.own_ip))) [
      | inr neither ↦ rw (not_du, neither) c
      | inl own ↦
          let l' : Learner = record l { f1u_ul_teid = teid; f1u_ul_known = true } in
          let knows : KnowsUplink k l' = ground (arith, c, same) in
          rw (not_du, own) (complete-IsCurrent l' _ knows)
    ]
  ]

  pub ngap_endpoint-IsCurrent :
      (inet : Inet) (ip : List ℕ) (teid addr : ℕ) (l : Learner) (m : SessionMap)
      → IsCurrent k l m
      → let lm = ngap_endpoint inet update ip teid addr (l, m) in IsCurrent k lm.0 lm.1
  unfolding ngap_endpoint
  ngap_endpoint-IsCurrent inet ip teid addr l m c =
      elim (Bool-cases (str_eq ip (inet.ntop l.own_ip))) [
        | inl own ↦ rw own c
        | inr upf ↦
            let l' : Learner = record l {
              n3_ul_teid = teid;
              n3_ul_ip = addr;
              n3_ul_known = true;
            } in
            let knows : KnowsUplink k l' = ground (arith, c) in
            rw upf (complete-IsCurrent l' m knows)
      ]

  -- A round of upf_mac_refresh_thread.
  abbrev pub Rounds : UpfRound → Type 0
  Rounds r = Tracks r.thread r.learner × IsCurrent k r.learner r.ul_map

  -- The round has found the MAC address of the target.
  abbrev renewed : Mac → Learner → Learner
  renewed candidate l = record l { upf_mac = candidate; upf_mac_valid = true }

  logged-retarget :
      (th : UpfThread) (l : Learner) (candidate : Mac)
      → Tracks th l
      → mac_changed candidate (retarget l.n3_ul_ip th) ≡ false
      → renewed candidate l ≡ l
  unfolding retarget
  logged-retarget th l candidate t same = ground (arith, t)

  retarget-Tracks :
      (ip : ℕ) (th : UpfThread) (l : Learner) → Tracks th l → Tracks (retarget ip th) l
  unfolding retarget
  retarget-Tracks ip th l t logged = ground (arith, t)

  module _ (arp : ℕ → Option Mac) (r : UpfRound) (known : r.learner.n3_ul_known ≡ true) where
    abbrev aimed : UpfThread
    aimed = retarget r.learner.n3_ul_ip r.thread

    round_lost :
        arp aimed.target_ip ≡ none → upf_mac_refresh update arp r ≡ record r { thread = aimed }
    unfolding upf_mac_refresh
    round_lost n = ground (arith, n, known)

    round_changed :
        (candidate : Mac)
        → arp aimed.target_ip ≡ some candidate
        → mac_changed candidate aimed ≡ true
        → upf_mac_refresh update arp r ≡ record {
          learner = renewed candidate r.learner;
          thread = record aimed { last_logged = candidate; have_last_logged = true };
          ul_map = maybe_complete_ul_session_map update (renewed candidate r.learner) r.ul_map;
        }
    unfolding upf_mac_refresh
    round_changed candidate f changed = ground (arith, f, known, changed)

    round_same :
        (candidate : Mac)
        → arp aimed.target_ip ≡ some candidate
        → mac_changed candidate aimed ≡ false
        → upf_mac_refresh update arp r
          ≡ record { learner = renewed candidate r.learner; thread = aimed; ul_map = r.ul_map }
    unfolding upf_mac_refresh
    round_same candidate f same = ground (arith, f, known, same)

  pub upf_mac_refresh-Rounds :
      (arp : ℕ → Option Mac) (r : UpfRound) → Rounds r → Rounds (upf_mac_refresh update arp r)
  upf_mac_refresh-Rounds arp r c =
      let n3 = c.1.0.n3 in
      let th : UpfThread = retarget r.learner.n3_ul_ip r.thread in
      let tracks : Tracks th r.learner =
        retarget-Tracks r.learner.n3_ul_ip r.thread r.learner c.0 in
      elim (Option-cases (arp th.target_ip)) [
        | inl n ↦ rw (round_lost arp r n3 n) (tracks, c.1)
        | inr (candidate, f) ↦
            let l : Learner = renewed candidate r.learner in
            elim (Bool-cases (mac_changed candidate th)) [
              | inl changed ↦
                  let knows : KnowsUplink k l = ground (arith, c) in
                  rw (round_changed arp r n3 candidate f changed)
                    ((λ logged. (refl, refl)), complete-IsCurrent l r.ul_map knows)
              | inr same ↦ rw (round_same arp r n3 candidate f same) (
                  subst (λ x. Tracks th x × IsCurrent k x r.ul_map)
                    (sym (logged-retarget r.thread r.learner candidate c.0 same)) (tracks, c.1))
            ]
      ]
