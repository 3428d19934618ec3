-- ===== src/Race/Whole.antt =====
-- The uplink entries under any interleaving of the calls that write them.
use cu_ebpf.Base.{
  ℕ, ◌≡◌, sym, refl, Bool, true, false, not, ◌||◌, if◌then◌else◌, inl, inr, Bool-cases,
  Option-cases, Option, none, some, List, [], ◌∷◌, ◌⊎◌, arith,
}
use cu_ebpf.Session.{
  Mac, SessionCtx, SessionCtx-discrete, bpf_noexist, bpf_exist, SessionMap, zero_session,
  Everywhere, Everywhere-insert, UpdateElem, UpdateFlag, IsUpdateElem,
}
use mathlib.Core.Path.{subst}
use cu_ebpf.Learner.{Learner, updated, ul_session}
use cu_ebpf.Learner.Entries.{updated_cases}
use cu_ebpf.Watcher.{mac_changed}
use cu_ebpf.Race.Alone.{populating_cases}
use cu_ebpf.Race.{
  Position, idle, calling, resolving, populating, placing, told, built, writing, Caller,
  f1ap_caller, ngap_caller, upf_caller, advance, session_for, Threads, step, Happening, runs,
  f1ap_hears, ngap_hears, upf_targets, upf_finds, happen, is_idle, is_resolving, upf_found,
  upf_targeted, happen_all,
}

-- What the first step of maybe_complete_ul_session_map, and the one with the lookup, can give.
calling_cases :
    (update : UpdateElem) (l : Learner) (m : SessionMap)
    → (advance update l calling m ≡ (idle, m))
      ⊎ ((l.n3_ul_known ≡ true)
          × (advance update l calling m ≡ (told l.f1u_ul_teid l.n3_ul_teid l.n3_ul_ip, m)))
unfolding advance
calling_cases update l m = elim (Bool-cases l.n3_ul_known) [
  | inr unknown ↦ inl (ground (arith, unknown))
  | inl known ↦ elim (Bool-cases (l.disable_offload || (not l.f1u_ul_known || not l.ul_map_open))) [
    | inl stops ↦ inl (ground (arith, known, stops))
    | inr goes ↦ inr (known, ground (arith, known, goes))
  ]
]

built_cases :
    (update : UpdateElem) (l : Learner) (m : SessionMap) (key : ℕ) (sess : SessionCtx)
    → (advance update l (built key sess) m ≡ (idle, m))
      ⊎ ((flag : UpdateFlag) × (advance update l (built key sess) m ≡ (writing flag key sess, m)))
unfolding advance
built_cases update l m key sess = elim (Option-cases (m key)) [
  | inl n ↦ inr (bpf_noexist, ground (arith, n))
  | inr (old, e) ↦ elim (SessionCtx-discrete old sess) [
    | yes same ↦ inl (ground (arith, e, same))
    | no changed ↦ inr (bpf_exist, ground (arith, e, changed))
  ]
]

-- `Tunnel` holds of the tunnels that NGAP has announced, a TEID with its address, and `Found` of the
-- MAC addresses that ARP lookups have found.
module _ (Tunnel : ℕ → ℕ → Type 0) (Found : Mac → Type 0) where
  -- A placeholder, or an entry with one announced tunnel and, if it is ready, a MAC address that was
  -- found, for the port of the UPF.
  abbrev pub IsWhole : SessionCtx → Type 0
  IsWhole sess =
      (sess ≡ zero_session)
      ⊎ (Tunnel sess.peer_teid sess.dst_ip
          × (sess.dst_port ≡ 2152)
          × (sess.ready ≡ true → Found sess.dst_mac))

  abbrev pub HoldsWhole : Position → Type 0
  HoldsWhole (told key peer_teid dst_ip) = Tunnel peer_teid dst_ip
  HoldsWhole (built key sess) = IsWhole sess
  HoldsWhole (writing flag key sess) = IsWhole sess
  HoldsWhole x = Unit

  -- What is known, what the threads hold and what the map has is whole.
  pub record AllWhole (s : Threads) : Type 0 where
    pub tunnel : s.learner.n3_ul_known ≡ true → Tunnel s.learner.n3_ul_teid s.learner.n3_ul_ip
    pub found : s.learner.upf_mac_valid ≡ true → Found s.learner.upf_mac
    pub map : Everywhere IsWhole s.ul_map
    pub f1ap : HoldsWhole s.f1ap
    pub ngap : HoldsWhole s.ngap
    pub upf : HoldsWhole s.upf

  -- What is announced and found.
  abbrev pub Says : Happening → Type 0
  Says (ngap_hears teid addr) = Tunnel teid addr
  Says (upf_finds (some mac)) = Found mac
  Says h = Unit

  abbrev pub AllSay : List Happening → Type 0
  AllSay [] = Unit
  AllSay (h ∷ hs) = Says h × AllSay hs

  session_for-IsWhole :
      (l : Learner) (peer_teid dst_ip : ℕ)
      → (l.upf_mac_valid ≡ true → Found l.upf_mac)
      → Tunnel peer_teid dst_ip
      → IsWhole (session_for l peer_teid dst_ip)
  unfolding ul_session
  session_for-IsWhole l peer_teid dst_ip found tunnel = elim (Bool-cases l.upf_mac_valid) [
    | inl valid ↦ inr (rw valid (tunnel, refl, λ ready. found valid))
    | inr unknown ↦ inr (rw unknown (tunnel, refl, λ ready. absurd (cc ready)))
  ]

  module _ (update : UpdateElem) (ok : IsUpdateElem update) where
    updated-IsWhole :
        (flag : UpdateFlag) (m : SessionMap) (k : ℕ) (sess : SessionCtx)
        → IsWhole sess
        → Everywhere IsWhole m
        → Everywhere IsWhole (updated (update flag m k sess) m)
    updated-IsWhole flag m k sess new all = elim (updated_cases update ok flag m k sess) [
      | inl same ↦ subst (Everywhere IsWhole) (sym same) all
      | inr e ↦ subst (Everywhere IsWhole) (sym e) (Everywhere-insert IsWhole m k sess new all)
    ]

    abbrev KeepsWhole : Position × SessionMap → Type 0
    KeepsWhole r = HoldsWhole r.0 × Everywhere IsWhole r.1

    -- One step of a call keeps all this.
    advance-KeepsWhole :
        (l : Learner) (x : Position) (m : SessionMap)
        → (l.n3_ul_known ≡ true → Tunnel l.n3_ul_teid l.n3_ul_ip)
        → (l.upf_mac_valid ≡ true → Found l.upf_mac)
        → HoldsWhole x
        → Everywhere IsWhole m
        → KeepsWhole (advance update l x m)
    advance-KeepsWhole l idle m tunnel found h all = unfold advance in (tt, all)
    advance-KeepsWhole l resolving m tunnel found h all = unfold advance in (tt, all)
    advance-KeepsWhole l (populating ul_teid) m tunnel found h all =
        elim (populating_cases update l m ul_teid) [
          | inl (e, same) ↦ subst KeepsWhole (sym e) (tt, all)
          | inr (e, wrote) ↦ subst KeepsWhole (sym e) (tt, all)
        ]
    advance-KeepsWhole l (placing ul_teid) m tunnel found h all =
        unfold advance in (tt, updated-IsWhole bpf_noexist m ul_teid zero_session (inl refl) all)
    advance-KeepsWhole l calling m tunnel found h all = elim (calling_cases update l m) [
      | inl e ↦ subst KeepsWhole (sym e) (tt, all)
      | inr (known, e) ↦ subst KeepsWhole (sym e) (tunnel known, all)
    ]
    advance-KeepsWhole l (told key peer_teid dst_ip) m tunnel found h all =
        unfold advance in (session_for-IsWhole l peer_teid dst_ip found h, all)
    advance-KeepsWhole l (built key sess) m tunnel found h all =
        elim (built_cases update l m key sess) [
          | inl e ↦ subst KeepsWhole (sym e) (tt, all)
          | inr (flag, e) ↦ subst KeepsWhole (sym e) (h, all)
        ]
    advance-KeepsWhole l (writing flag key sess) m tunnel found h all =
        unfold advance in (tt, updated-IsWhole flag m key sess h all)

    step-AllWhole : (w : Caller) (s : Threads) → AllWhole s → AllWhole (step update w s)
    unfolding step
    step-AllWhole f1ap_caller s a =
        let k = advance-KeepsWhole s.learner s.f1ap s.ul_map a.tunnel a.found a.f1ap a.map in
        record {
          tunnel = a.tunnel;
          found = a.found;
          map = k.1;
          f1ap = k.0;
          ngap = a.ngap;
          upf = a.upf;
        }
    step-AllWhole ngap_caller s a =
        let k = advance-KeepsWhole s.learner s.ngap s.ul_map a.tunnel a.found a.ngap a.map in
        record {
          tunnel = a.tunnel;
          found = a.found;
          map = k.1;
          f1ap = a.f1ap;
          ngap = k.0;
          upf = a.upf;
        }
    step-AllWhole upf_caller s a =
        let k = advance-KeepsWhole s.learner s.upf s.ul_map a.tunnel a.found a.upf a.map in
        record {
          tunnel = a.tunnel;
          found = a.found;
          map = k.1;
          f1ap = a.f1ap;
          ngap = a.ngap;
          upf = k.0;
        }

    found-AllWhole :
        (found : Option Mac) (s : Threads)
        → Says (upf_finds found)
        → AllWhole s
        → AllWhole (upf_found found s)
    unfolding upf_found
    found-AllWhole none s says a = record {
      tunnel = a.tunnel;
      found = a.found;
      map = a.map;
      f1ap = a.f1ap;
      ngap = a.ngap;
      upf = tt;
    }
    found-AllWhole (some candidate) s says a =
        elim (Bool-cases (mac_changed candidate s.upf_thread)) [
          | inl changed ↦ rw changed (record {
            tunnel = a.tunnel;
            found = λ valid. says;
            map = a.map;
            f1ap = a.f1ap;
            ngap = a.ngap;
            upf = tt;
          })
          | inr same ↦ rw same (record {
            tunnel = a.tunnel;
            found = λ valid. says;
            map = a.map;
            f1ap = a.f1ap;
            ngap = a.ngap;
            upf = tt;
          })
        ]

    targeted-AllWhole : (s : Threads) → AllWhole s → AllWhole (upf_targeted s)
    unfolding upf_targeted
    targeted-AllWhole s a = record {
      tunnel = a.tunnel;
      found = a.found;
      map = a.map;
      f1ap = a.f1ap;
      ngap = a.ngap;
      upf = tt;
    }

    either_AllWhole :
        (b : Bool) (s s' : Threads) → AllWhole s → AllWhole s' → AllWhole (if b then s else s')
    either_AllWhole true s s' a a' = a
    either_AllWhole false s s' a a' = a'

    happen-AllWhole :
        (h : Happening) (s : Threads) → Says h → AllWhole s → AllWhole (happen update h s)
    unfolding happen
    happen-AllWhole (runs w) s says a = step-AllWhole w s a
    happen-AllWhole (f1ap_hears teid) s says a = elim (Bool-cases (is_idle s.f1ap)) [
      | inr busy ↦ rw busy a
      | inl free ↦ rw free (record {
        tunnel = a.tunnel;
        found = a.found;
        map = a.map;
        f1ap = tt;
        ngap = a.ngap;
        upf = a.upf;
      })
    ]
    happen-AllWhole (ngap_hears teid addr) s says a = elim (Bool-cases (is_idle s.ngap)) [
      | inr busy ↦ rw busy a
      | inl free ↦ rw free (record {
        tunnel = λ known. says;
        found = a.found;
        map = a.map;
        f1ap = a.f1ap;
        ngap = tt;
        upf = a.upf;
      })
    ]
    happen-AllWhole upf_targets s says a = elim (Bool-cases (is_idle s.upf)) [
      | inr busy ↦ rw busy a
      | inl free ↦
          rw free
            (either_AllWhole s.learner.n3_ul_known (upf_targeted s) s (targeted-AllWhole s a) a)
    ]
    happen-AllWhole (upf_finds found) s says a = elim (Bool-cases (is_resolving s.upf)) [
      | inr elsewhere ↦ rw elsewhere a
      | inl there ↦ rw there (found-AllWhole found s says a)
    ]

    -- However the steps of the three threads interleave with each other and with what they learn: an
    -- entry of ul_session_map is a placeholder, or its TEID and address were announced together by
    -- NGAP, its port is the UPF's, and if it is ready, its MAC address was found by an ARP lookup;
    -- never a tunnel of which the TEID is from one announcement and the address from another. What is
    -- known at the start, what the threads hold and what the map has is to be so too; assumed:
    -- bpf_map_update_elem stores an entry as it is or changes nothing.
    pub happen_all-AllWhole :
        (hs : List Happening) (s : Threads)
        → AllSay hs
        → AllWhole s
        → AllWhole (happen_all update hs s)
    happen_all-AllWhole [] s says a = a
    happen_all-AllWhole (h ∷ hs) s says a =
        happen_all-AllWhole hs (happen update h s) says.1 (happen-AllWhole h s says.0 a)
