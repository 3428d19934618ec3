-- ===== src/Race/Stale.antt =====
-- A call of maybe_complete_ul_session_map that another one overtakes.
use cu_ebpf.Base.{
  ℕ, ◌≡◌, ◌≢◌, ◌∙◌, ap, sym, refl, true, inl, inr, Option-cases, some, List, [], ◌∷◌, arith,
}
use cu_ebpf.Session.{SessionCtx, SessionCtx-discrete, SessionMap, insert, UpdateElem, HasRoom}
use cu_ebpf.Learner.{Learner, ul_session, maybe_complete_ul_session_map}
use cu_ebpf.Race.{
  Position, idle, calling, told, f1ap_caller, ngap_caller, advance, session_for, Threads, Happening,
  runs, ngap_hears, happen, happen_all,
}
use cu_ebpf.Race.Advance.{CanComplete}
use cu_ebpf.Race.Alone.{advances, alone_at_once}

abbrev heard : ℕ → ℕ → Learner → Learner
heard teid addr l = record l { n3_ul_teid = teid; n3_ul_ip = addr; n3_ul_known = true }

-- NGAP announces a new tunnel, its thread makes its whole call, and the F1AP thread goes on with its
-- own from the reading that it has.
abbrev pub overtaken : ℕ → ℕ → List Happening
overtaken teid addr =
    ngap_hears teid addr
    ∷ runs ngap_caller
    ∷ runs ngap_caller
    ∷ runs ngap_caller
    ∷ runs ngap_caller
    ∷ runs f1ap_caller
    ∷ runs f1ap_caller
    ∷ runs f1ap_caller
    ∷ []

-- The F1AP thread is in a call and has read a tunnel; the NGAP thread is idle.
abbrev pub with_reading : ℕ → ℕ → Threads → Threads
with_reading peer_teid dst_ip s = record s {
  f1ap = told s.learner.f1u_ul_teid peer_teid dst_ip;
  ngap = idle;
}

module _ (update : UpdateElem) (room : HasRoom update) where
  insert-here : (k : ℕ) (v : SessionCtx) (m : SessionMap) → insert k v m k ≡ some v
  insert-here k v m = ground arith

  -- What three steps of a call with a reading write over an entry that differs.
  overwrites :
      (l : Learner) (m : SessionMap) (key peer_teid dst_ip : ℕ) (old : SessionCtx)
      → m key ≡ some old
      → old ≢ session_for l peer_teid dst_ip
      → advances update l 3 (told key peer_teid dst_ip, m)
        ≡ (idle, insert key (session_for l peer_teid dst_ip) m)
  unfolding advance
  overwrites l m key peer_teid dst_ip old e changed =
      ground (arith, e, changed, room.present m key old (session_for l peer_teid dst_ip) e)

  -- maybe_complete_ul_session_map leaves the entry for what is known.
  completed :
      (l : Learner) (m : SessionMap)
      → CanComplete l
      → maybe_complete_ul_session_map update l m l.f1u_ul_teid ≡ some (ul_session l)
  unfolding maybe_complete_ul_session_map
  completed l m can = elim (Option-cases (m l.f1u_ul_teid)) [
    | inl n ↦ ground (arith, can, n, room.fresh m l.f1u_ul_teid (ul_session l) n)
    | inr (old, e) ↦ elim (SessionCtx-discrete old (ul_session l)) [
      | yes same ↦ ground (arith, can, e, same)
      | no changed ↦
          ground (arith, can, e, changed, room.present m l.f1u_ul_teid old (ul_session l) e)
    ]
  ]

  CanComplete-heard :
      (teid addr : ℕ) (l : Learner) → CanComplete l → CanComplete (heard teid addr l)
  CanComplete-heard teid addr l can = record {
    on = can.on;
    f1u = can.f1u;
    n3 = refl;
    map = can.map;
  }

  -- What is known, the map, and the two threads' positions after that.
  overtaken-result :
      (s : Threads) (peer_teid dst_ip teid addr : ℕ)
      → let s' = happen_all update (overtaken teid addr) (with_reading peer_teid dst_ip s) in
        let l = heard teid addr s.learner in
        let n = advances update l 4 (calling, s.ul_map) in
        let f = advances update l 3 (told s.learner.f1u_ul_teid peer_teid dst_ip, n.1) in
        (s'.learner ≡ l) × (s'.ul_map ≡ f.1) × (s'.f1ap ≡ f.0) × (s'.ngap ≡ n.0)
  unfolding happen
  overtaken-result s peer_teid dst_ip teid addr = (refl, refl, refl, refl)

  peer_teid-ul_session : (l : Learner) → (ul_session l).peer_teid ≡ l.n3_ul_teid
  unfolding ul_session
  peer_teid-ul_session l = ground arith

  dst_ip-ul_session : (l : Learner) → (ul_session l).dst_ip ≡ l.n3_ul_ip
  unfolding ul_session
  dst_ip-ul_session l = ground arith

  -- The F1AP thread is in a call and has read a tunnel of the UPF; then NGAP announces another one,
  -- and the NGAP thread makes its whole call; then the F1AP thread ends its own. Both are idle then,
  -- the new tunnel is what is known, and the entry for the CU's TEID is the one for the old tunnel.
  -- Assumed: the endpoints are known, the fast path is on, and the map has room.
  pub reading-overtaken :
      (s : Threads) (peer_teid dst_ip teid addr : ℕ)
      → CanComplete s.learner
      → teid ≢ peer_teid
      → let s' = happen_all update (overtaken teid addr) (with_reading peer_teid dst_ip s) in
        (s'.f1ap ≡ idle)
        × (s'.ngap ≡ idle)
        × (s'.learner.n3_ul_teid ≡ teid)
        × (s'.learner.n3_ul_ip ≡ addr)
        × (sess : SessionCtx) × (s'.ul_map s.learner.f1u_ul_teid ≡ some sess)
        × (sess.peer_teid ≡ peer_teid)
        × (sess.dst_ip ≡ dst_ip)
  reading-overtaken s peer_teid dst_ip teid addr can other =
      let l = heard teid addr s.learner in
      let key = s.learner.f1u_ul_teid in
      let m = maybe_complete_ul_session_map update l s.ul_map in
      let now = completed l s.ul_map (CanComplete-heard teid addr s.learner can) in
      let old = session_for l peer_teid dst_ip in
      let differ = λ (same : ul_session l ≡ old). other (
        sym (peer_teid-ul_session l)
        ∙ ap (λ (x : SessionCtx). x.peer_teid) same
        ∙ peer_teid-ul_session (heard peer_teid dst_ip s.learner)) in
      let called = (alone_at_once update l s.ul_map key).1 in
      let wrote =
        ap (λ (r : Position × SessionMap). advances update l 3 (told key peer_teid dst_ip, r.1))
          called
        ∙ overwrites l m key peer_teid dst_ip (ul_session l) now differ in
      let result = overtaken-result s peer_teid dst_ip teid addr in
      (
        result.2 ∙ ap (λ (r : Position × SessionMap). r.0) wrote,
        result.3 ∙ ap (λ (r : Position × SessionMap). r.0) called,
        ap (λ (l' : Learner). l'.n3_ul_teid) result.0,
        ap (λ (l' : Learner). l'.n3_ul_ip) result.0,
        old,
        ap (λ (m' : SessionMap). m' key) (result.1 ∙ ap (λ (r : Position × SessionMap). r.1) wrote)
            ∙ insert-here key old m,
        peer_teid-ul_session (heard peer_teid dst_ip s.learner),
        dst_ip-ul_session (heard peer_teid dst_ip s.learner),
      )
