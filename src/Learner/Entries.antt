-- ===== src/Learner/Entries.antt =====
-- What the three writers of the session maps do to the entries that are there.
use cu_ebpf.Base.{
  ℕ, ◌≡◌, ◌⊎◌, inl, inr, true, false, none, some, Option-cases, ◌==◌, ◌&&◌, arith, fun_ext,
}
use cu_ebpf.Session.{
  SessionCtx, SessionMap, zero_session, insert, UpdateElem, IsUpdateElem, HasRoom, UpdateFlag,
  bpf_noexist, bpf_exist,
}
use cu_ebpf.Event.{GtpEvent}
use cu_ebpf.Learner.{
  Learner, updated, maybe_populate_ul_session_map, maybe_complete_ul_session_map, ul_session,
  dl_session, print_event,
}

module _ (update : UpdateElem) (is : IsUpdateElem update) where
  -- An update stores its entry or changes nothing; with BPF_NOEXIST it stores at a missing key only.
  pub updated_cases :
      (flag : UpdateFlag) (m : SessionMap) (k : ℕ) (v : SessionCtx)
      → (updated (update flag m k v) m ≡ m) ⊎ (updated (update flag m k v) m ≡ insert k v m)
  updated_cases flag m k v = elim (Option-cases (update flag m k v)) [
    | inl n ↦ inl (rw n)
    | inr (m', e) ↦ inr (rw e (is.stored flag m m' k v e))
  ]

  pub noexist_cases :
      (m : SessionMap) (k : ℕ) (v : SessionCtx)
      → (updated (update bpf_noexist m k v) m ≡ m)
        ⊎ ((m k ≡ none) × (updated (update bpf_noexist m k v) m ≡ insert k v m))
  noexist_cases m k v = elim (Option-cases (m k)) [
    | inr (old, f) ↦ inl (rw (is.noexist m k old v f))
    | inl free ↦ elim (updated_cases bpf_noexist m k v) [
      | inl same ↦ inl same
      | inr new ↦ inr (free, new)
    ]
  ]

  -- Learning from downlink packets never touches an entry that is there, whatever the event says: in
  -- particular it never resets the PDCP counter that the kernel program keeps in it.
  pub print_event_keeps :
      (l : Learner) (e : GtpEvent) (m : SessionMap) (k : ℕ) (entry : SessionCtx)
      → m k ≡ some entry
      → print_event update l e m k ≡ some entry
  unfolding print_event
  print_event_keeps l e m k entry found =
      ground (arith, noexist_cases m e.teid (dl_session l), found)

  -- What a completion leaves of the map.
  pub complete_cases :
      (l : Learner) (m : SessionMap)
      → (maybe_complete_ul_session_map update l m ≡ m)
        ⊎ (maybe_complete_ul_session_map update l m ≡ insert l.f1u_ul_teid (ul_session l) m)
  unfolding maybe_complete_ul_session_map
  complete_cases l m = ground (
    arith,
    updated_cases bpf_noexist m l.f1u_ul_teid (ul_session l),
    updated_cases bpf_exist m l.f1u_ul_teid (ul_session l),
  )

  complete_found :
      (l : Learner) (m : SessionMap)
      → m l.f1u_ul_teid ≡ some (ul_session l)
      → maybe_complete_ul_session_map update l m ≡ m
  unfolding maybe_complete_ul_session_map
  complete_found l m found = ground (arith, found)

  -- Completing an uplink entry a second time changes nothing, whether or not the map has room.
  pub complete_twice :
      (l : Learner) (m : SessionMap)
      → maybe_complete_ul_session_map update l (maybe_complete_ul_session_map update l m)
        ≡ maybe_complete_ul_session_map update l m
  complete_twice l m = elim (complete_cases l m) [
    | inl same ↦ rw same same
    | inr new ↦ rw new (complete_found l _ (ground arith))
  ]

  pub populate_cases :
      (l : Learner) (m : SessionMap) (teid : ℕ)
      → (maybe_populate_ul_session_map update l teid m ≡ m)
        ⊎ (maybe_populate_ul_session_map update l teid m ≡ insert teid zero_session m)
  unfolding maybe_populate_ul_session_map
  populate_cases l m teid = ground (arith, updated_cases bpf_noexist m teid zero_session)

  pub print_event_cases :
      (l : Learner) (e : GtpEvent) (m : SessionMap)
      → (print_event update l e m ≡ m) ⊎ (print_event update l e m ≡ insert e.teid (dl_session l) m)
  unfolding print_event
  print_event_cases l e m = ground (arith, updated_cases bpf_noexist m e.teid (dl_session l))

  -- A placeholder touches the entry of its own TEID only.
  pub populate_other :
      (l : Learner) (m : SessionMap) (teid j : ℕ)
      → (teid == j) ≡ false
      → maybe_populate_ul_session_map update l teid m j ≡ m j
  unfolding maybe_populate_ul_session_map
  populate_other l m teid j other = ground (arith, updated_cases bpf_noexist m teid zero_session)

pub complete_waits :
    (update : UpdateElem) (l : Learner) (m : SessionMap)
    → (l.f1u_ul_known && l.n3_ul_known) ≡ false
    → maybe_complete_ul_session_map update l m ≡ m
unfolding maybe_complete_ul_session_map
complete_waits update l m h = ground arith

module _ (update : UpdateElem) (room : HasRoom update) where
  insert_same : (m : SessionMap) (k : ℕ) (v : SessionCtx) → m k ≡ some v → m ≡ insert k v m
  insert_same m k v f = fun_ext λ j. ground (arith, f)

  -- With both endpoints known and room in the map, the entry of the UL F1-U TEID becomes what
  -- `ul_session` builds, and no other entry changes.
  pub complete_lem :
      (l : Learner) (m : SessionMap)
      → l.disable_offload ≡ false
      → l.f1u_ul_known ≡ true
      → l.n3_ul_known ≡ true
      → l.ul_map_open ≡ true
      → maybe_complete_ul_session_map update l m ≡ insert l.f1u_ul_teid (ul_session l) m
  unfolding maybe_complete_ul_session_map
  complete_lem l m on f1u n3 open_map = elim (Option-cases (m l.f1u_ul_teid)) [
    | inl free ↦ ground (arith, room.fresh m l.f1u_ul_teid (ul_session l) free)
    | inr (old, f) ↦ ground (
      arith,
      f,
      room.present m l.f1u_ul_teid old (ul_session l) f,
      insert_same m l.f1u_ul_teid old f,
    )
  ]
