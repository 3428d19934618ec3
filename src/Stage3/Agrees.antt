-- ===== src/Stage3/Agrees.antt =====
-- The userspace programs of stage 3 and of stage 4, given the same events, lines, ARP tables and seeds.
use cu_ebpf.Base.{
  ℕ, ◌≡◌, ◌∙◌, ap, refl, true, false, inl, inr, Option-cases, List, [], ◌∷◌, Option, none, some,
  arith,
}
use cu_ebpf.Session.{Mac, SessionMap, UpdateElem}
use cu_ebpf.Event.{GtpEvent}
use cu_ebpf.Learner
use cu_ebpf.Watcher.{
  Inet, UpfThread, UpfRound, fields_of, skip_0x, parse_colon_hex_teid, retarget, mac_changed,
  seed_entry,
}
use cu_ebpf.Watcher
use cu_ebpf.Stage3.{
  State, ul_session, dl_session, maybe_populate_ul_session_map, maybe_complete_ul_session_map,
  maybe_learn_and_populate, print_event, f1ap_endpoint, f1ap_line, ngap_endpoint, ngap_line,
  du_mac_refresh, upf_mac_refresh, seed_session,
}
use cu_ebpf.Stage3

-- The globals of stage 4, with DISABLE_OFFLOAD not set.
abbrev pub switched_on : Stage3.Learner → Learner.Learner
switched_on l = record {
  disable_offload = false;
  f1u_dl_known = l.f1u_dl_known;
  f1u_dl_teid = l.f1u_dl_teid;
  f1u_dl_ip = l.f1u_dl_ip;
  f1u_ul_known = l.f1u_ul_known;
  f1u_ul_teid = l.f1u_ul_teid;
  n3_ul_known = l.n3_ul_known;
  n3_ul_teid = l.n3_ul_teid;
  n3_ul_ip = l.n3_ul_ip;
  ul_map_open = l.ul_map_open;
  egress_ifindex = l.egress_ifindex;
  own_mac = l.own_mac;
  own_ip = l.own_ip;
  du_mac = l.du_mac;
  du_mac_valid = l.du_mac_valid;
  upf_mac = l.upf_mac;
  upf_mac_valid = l.upf_mac_valid;
}

abbrev on_pair : Stage3.Learner × SessionMap → Learner.Learner × SessionMap
on_pair lm = (switched_on lm.0, lm.1)

module _ (inet : Inet) (update : UpdateElem) where
  populate_agrees :
      (l : Stage3.Learner) (teid : ℕ) (m : SessionMap)
      → Learner.maybe_populate_ul_session_map update (switched_on l) teid m
        ≡ maybe_populate_ul_session_map update l teid m
  unfolding Learner.maybe_populate_ul_session_map maybe_populate_ul_session_map
  populate_agrees l teid m = refl

  complete_agrees :
      (l : Stage3.Learner) (m : SessionMap)
      → Learner.maybe_complete_ul_session_map update (switched_on l) m
        ≡ maybe_complete_ul_session_map update l m
  unfolding Learner.maybe_complete_ul_session_map maybe_complete_ul_session_map Learner.ul_session
      ul_session
  complete_agrees l m = refl

  print_event_agrees :
      (l : Stage3.Learner) (e : GtpEvent) (m : SessionMap)
      → Learner.print_event update (switched_on l) e m ≡ print_event update l e m
  unfolding Learner.print_event print_event Learner.dl_session dl_session
  print_event_agrees l e m = refl

  f1ap_endpoint_agrees :
      (ip : List ℕ) (teid addr : ℕ) (lm : Stage3.Learner × SessionMap)
      → Watcher.f1ap_endpoint inet update ip teid addr (on_pair lm)
        ≡ on_pair (f1ap_endpoint inet update ip teid addr lm)
  unfolding Watcher.f1ap_endpoint f1ap_endpoint
  f1ap_endpoint_agrees ip teid addr (l, m) =
      let l' : Stage3.Learner = record l { f1u_ul_teid = teid; f1u_ul_known = true } in
      ground (
        arith,
        populate_agrees l' teid m,
        complete_agrees l' (maybe_populate_ul_session_map update l' teid m),
      )

  ngap_endpoint_agrees :
      (ip : List ℕ) (teid addr : ℕ) (lm : Stage3.Learner × SessionMap)
      → Watcher.ngap_endpoint inet update ip teid addr (on_pair lm)
        ≡ on_pair (ngap_endpoint inet update ip teid addr lm)
  unfolding Watcher.ngap_endpoint ngap_endpoint
  ngap_endpoint_agrees ip teid addr (l, m) =
      let l' : Stage3.Learner = record l {
        n3_ul_teid = teid;
        n3_ul_ip = addr;
        n3_ul_known = true;
      } in
      ground (arith, complete_agrees l' m)

  f1ap_line_agrees :
      (line : List ℕ) (lm : Stage3.Learner × SessionMap)
      → Watcher.f1ap_line inet update line (on_pair lm) ≡ on_pair (f1ap_line inet update line lm)
  unfolding Watcher.f1ap_line f1ap_line
  f1ap_line_agrees line lm = grind (arith, f1ap_endpoint_agrees)

  ngap_line_agrees :
      (line : List ℕ) (lm : Stage3.Learner × SessionMap)
      → Watcher.ngap_line inet update line (on_pair lm) ≡ on_pair (ngap_line inet update line lm)
  unfolding Watcher.ngap_line ngap_line
  ngap_line_agrees line lm = grind (arith, ngap_endpoint_agrees)

  seed_session_agrees :
      (du_addr : ℕ) (variable : Option (Option (ℕ × ℕ))) (l : Stage3.Learner) (m : SessionMap)
      → Watcher.seed_session update du_addr variable (switched_on l) m
        ≡ seed_session update du_addr variable l m
  unfolding Watcher.seed_session seed_session
  seed_session_agrees du_addr none l m = refl
  seed_session_agrees du_addr (some none) l m = refl
  seed_session_agrees du_addr (some (some (n3_teid, f1u_teid))) l m = refl

du_mac_refresh_agrees :
    (found : Option Mac) (l : Stage3.Learner)
    → Watcher.du_mac_refresh found (switched_on l) ≡ switched_on (du_mac_refresh found l)
unfolding Watcher.du_mac_refresh du_mac_refresh
du_mac_refresh_agrees none l = refl
du_mac_refresh_agrees (some candidate) l = refl

-- What happens to the userspace program: an event is printed, a watcher reads a line, a refresh thread
-- makes a round, main seeds a session.
pub data Input : Type 0 where
  printed : GtpEvent → Input
  f1ap_read ngap_read : List ℕ → Input
  du_looked_up : Option Mac → Input
  upf_looked_up : (ℕ → Option Mac) → Input
  seeded : ℕ → Option (Option (ℕ × ℕ)) → Input

-- The state of stage 4.
pub record Userspace : Type 0 where
  pub learner : Learner.Learner
  pub thread : UpfThread
  pub session_map : SessionMap
  pub ul_map : SessionMap

abbrev pub with_switch : State → Userspace
with_switch s = record {
  learner = switched_on s.learner;
  thread = s.thread;
  session_map = s.session_map;
  ul_map = s.ul_map;
}

abbrev pub handle : Inet → UpdateElem → Input → State → State
handle inet update (printed e) s = record s {
  session_map = print_event update s.learner e s.session_map;
}
handle inet update (f1ap_read line) s =
    let lm = f1ap_line inet update line (s.learner, s.ul_map) in
    record s { learner = lm.0; ul_map = lm.1 }
handle inet update (ngap_read line) s =
    let lm = ngap_line inet update line (s.learner, s.ul_map) in
    record s { learner = lm.0; ul_map = lm.1 }
handle inet update (du_looked_up found) s = record s { learner = du_mac_refresh found s.learner }
handle inet update (upf_looked_up arp) s = upf_mac_refresh update arp s
handle inet update (seeded du_addr variable) s = record s {
  session_map = seed_session update du_addr variable s.learner s.session_map;
}

abbrev pub handle_4 : Inet → UpdateElem → Input → Userspace → Userspace
handle_4 inet update (printed e) s = record s {
  session_map = Learner.print_event update s.learner e s.session_map;
}
handle_4 inet update (f1ap_read line) s =
    let lm = Watcher.f1ap_line inet update line (s.learner, s.ul_map) in
    record s { learner = lm.0; ul_map = lm.1 }
handle_4 inet update (ngap_read line) s =
    let lm = Watcher.ngap_line inet update line (s.learner, s.ul_map) in
    record s { learner = lm.0; ul_map = lm.1 }
handle_4 inet update (du_looked_up found) s = record s {
  learner = Watcher.du_mac_refresh found s.learner;
}
handle_4 inet update (upf_looked_up arp) s =
    let r =
      Watcher.upf_mac_refresh update arp
        (record { learner = s.learner; thread = s.thread; ul_map = s.ul_map }) in
    record s { learner = r.learner; thread = r.thread; ul_map = r.ul_map }
handle_4 inet update (seeded du_addr variable) s = record s {
  session_map = Watcher.seed_session update du_addr variable s.learner s.session_map;
}

abbrev pub run : {S : Type 0} → (Input → S → S) → List Input → S → S
run step [] s = s
run step (i ∷ is) s = run step is (step i s)

module _ (inet : Inet) (update : UpdateElem) where
  upf_agrees :
      (arp : ℕ → Option Mac) (s : State)
      → handle_4 inet update (upf_looked_up arp) (with_switch s)
        ≡ with_switch (handle inet update (upf_looked_up arp) s)
  unfolding Watcher.upf_mac_refresh upf_mac_refresh
  upf_agrees arp s =
      let t : UpfThread = retarget s.learner.n3_ul_ip s.thread in
      elim (Option-cases (arp t.target_ip)) [
        | inl n ↦ ground (arith, n)
        | inr (candidate, f) ↦
            let l : Stage3.Learner = record s.learner {
              upf_mac = candidate;
              upf_mac_valid = true;
            } in
            ground (arith, f, complete_agrees inet update l s.ul_map)
      ]

  handle_agrees :
      (i : Input) (s : State)
      → handle_4 inet update i (with_switch s) ≡ with_switch (handle inet update i s)
  handle_agrees (printed e) s = rw (print_event_agrees inet update s.learner e s.session_map)
  handle_agrees (f1ap_read line) s = rw (f1ap_line_agrees inet update line (s.learner, s.ul_map))
  handle_agrees (ngap_read line) s = rw (ngap_line_agrees inet update line (s.learner, s.ul_map))
  handle_agrees (du_looked_up found) s = rw (du_mac_refresh_agrees found s.learner)
  handle_agrees (upf_looked_up arp) s = upf_agrees arp s
  handle_agrees (seeded du_addr variable) s =
      rw (seed_session_agrees inet update du_addr variable s.learner s.session_map)

  -- Whatever events, lines, ARP tables and seeds they are given, in whatever order: stage 4 without
  -- DISABLE_OFFLOAD ends with the session maps, the knowledge and the thread of stage 3.
  pub run-run :
      (is : List Input) (s : State)
      → run (handle_4 inet update) is (with_switch s) ≡ with_switch (run (handle inet update) is s)
  run-run [] s = refl
  run-run (i ∷ is) s =
      ap (run (handle_4 inet update) is) (handle_agrees i s) ∙ run-run is (handle inet update i s)
