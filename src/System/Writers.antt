-- ===== src/System/Writers.antt =====
-- What the writers of the session maps and of the learner's globals keep: every word in its range,
-- and the port of each map.
use cu_ebpf.Base.{
  refl, ℕ, ◌<◌, ◌^◌, ◌≡◌, inl, inr, true, Bool-cases, List, Option, none, some, ◌⊎◌, arith,
}
use cu_ebpf.Packet.{Packet}
use cu_ebpf.Session.{
  insert, bpf_any, Mac, SessionCtx, SessionMap, SessionFits, ServesF1u, ServesN3, Everywhere-insert,
  zero_session, UpdateElem, IsUpdateElem,
}
use cu_ebpf.Event.{GtpEvent}
use cu_ebpf.Xdp.{KernelState, Helpers}
use cu_ebpf.Learner.{
  Learner, print_event, dl_session, ul_session, maybe_populate_ul_session_map,
  maybe_complete_ul_session_map,
}
use cu_ebpf.Learner.Entries.{updated_cases, print_event_cases, complete_cases, populate_cases}
use cu_ebpf.Watcher.{
  seed_session, seed_entry, Inet, str_eq, du_ip, UpfRound, f1ap_endpoint, ngap_endpoint,
  du_mac_refresh, upf_mac_refresh,
}
use cu_ebpf.Watcher.Lines.{Endpoint}
use cu_ebpf.Program.{parse_gtpu}
use cu_ebpf.Downlink.{bump_sn}
use cu_ebpf.Program.Sequence.{parse_gtpu-map_cases}
use cu_ebpf.System.{SeedFits}

-- What the learner knows fits its __u32 globals.
pub record LearnerFits (l : Learner) : Type 0 where
  pub dl_teid : l.f1u_dl_teid < 2 ^ 32
  pub dl_ip : l.f1u_dl_ip < 2 ^ 32
  pub n3_teid : l.n3_ul_teid < 2 ^ 32
  pub n3_ip : l.n3_ul_ip < 2 ^ 32
  pub own_ip : l.own_ip < 2 ^ 32

-- inet_pton gives a 32-bit address.
abbrev pub IsInet : Inet → Type 0
IsInet inet = (ip : List ℕ) (addr : ℕ) → inet.pton ip ≡ some addr → addr < 2 ^ 32

pub dl_session-fits :
    (l : Learner) → LearnerFits l → SessionFits (dl_session l) × ((dl_session l).dst_port ≡ 2153)
unfolding dl_session
dl_session-fits l f = omega arith

pub ul_session-fits :
    (l : Learner)
    → LearnerFits l
    → (ul_session l).ready ≡ true
    → SessionFits (ul_session l) × ((ul_session l).dst_port ≡ 2152)
unfolding ul_session
ul_session-fits l f ready = ground arith

module _ (update : UpdateElem) (is : IsUpdateElem update) (l : Learner) (fits : LearnerFits l) where
  pub print_event-ServesF1u :
      (e : GtpEvent) (m : SessionMap) → ServesF1u m → ServesF1u (print_event update l e m)
  print_event-ServesF1u e m serves = elim (print_event_cases update is l e m) [
    | inl same ↦ rw same serves
    | inr new ↦ rw new (Everywhere-insert _ m e.teid (dl_session l) (dl_session-fits l fits) serves)
  ]

  pub complete-ServesN3 :
      (m : SessionMap) → ServesN3 m → ServesN3 (maybe_complete_ul_session_map update l m)
  complete-ServesN3 m serves = elim (complete_cases update is l m) [
    | inl same ↦ rw same serves
    | inr new ↦
        rw new (Everywhere-insert _ m l.f1u_ul_teid (ul_session l) (ul_session-fits l fits) serves)
  ]

  pub populate-ServesN3 :
      (teid : ℕ) (m : SessionMap)
      → ServesN3 m
      → ServesN3 (maybe_populate_ul_session_map update l teid m)
  populate-ServesN3 teid m serves = elim (populate_cases update is l m teid) [
    | inl same ↦ rw same serves
    | inr new ↦ rw new (Everywhere-insert _ m teid zero_session (λ ready. absurd (cc ready)) serves)
  ]

-- What a watcher leaves: a learner that fits, and a map that serves.
abbrev pub Serving : Learner × SessionMap → Type 0
Serving lm = LearnerFits lm.0 × ServesN3 lm.1

module _ (inet : Inet) (words : IsInet inet) (update : UpdateElem) (is : IsUpdateElem update)
    (l : Learner) (m : SessionMap) (fits : LearnerFits l) (serves : ServesN3 m) where
  pub f1ap_endpoint-Serving :
      (x : Endpoint inet) → Serving (f1ap_endpoint inet update x.ip x.teid x.addr (l, m))
  unfolding f1ap_endpoint
  f1ap_endpoint-Serving x = elim (Bool-cases (str_eq x.ip du_ip)) [
    | inl du ↦ rw du (ground (arith, fits, x.fits, words x.ip x.addr x.reads), serves)
    | inr not_du ↦ elim (Bool-cases (str_eq x.ip (inet.ntop l.own_ip))) [
      | inr neither ↦ rw (not_du, neither) (fits, serves)
      | inl own ↦
          let l' : Learner = record l { f1u_ul_teid = x.teid; f1u_ul_known = true } in
          let fits' : LearnerFits l' = ground (arith, fits) in
          rw (not_du, own)
            (
              fits',
              complete-ServesN3 update is l' fits' _
                  (populate-ServesN3 update is l' fits' x.teid m serves),
            )
    ]
  ]

  pub ngap_endpoint-Serving :
      (x : Endpoint inet) → Serving (ngap_endpoint inet update x.ip x.teid x.addr (l, m))
  unfolding ngap_endpoint
  ngap_endpoint-Serving x = elim (Bool-cases (str_eq x.ip (inet.ntop l.own_ip))) [
    | inl own ↦ rw own (fits, serves)
    | inr upf ↦
        let l' : Learner = record l {
          n3_ul_teid = x.teid;
          n3_ul_ip = x.addr;
          n3_ul_known = true;
        } in
        let fits' : LearnerFits l' = ground (arith, fits, x.fits, words x.ip x.addr x.reads) in
        rw upf (fits', complete-ServesN3 update is l' fits' m serves)
  ]

pub upf_mac_refresh-fits :
    (update : UpdateElem) (arp : ℕ → Option Mac) (r : UpfRound)
    → LearnerFits r.learner
    → LearnerFits (upf_mac_refresh update arp r).learner
unfolding upf_mac_refresh
upf_mac_refresh-fits update arp r fits = ground arith

pub upf_mac_refresh-map :
    (update : UpdateElem) (arp : ℕ → Option Mac) (r : UpfRound)
    → ((upf_mac_refresh update arp r).ul_map ≡ r.ul_map)
      ⊎ ((upf_mac_refresh update arp r).ul_map
          ≡ maybe_complete_ul_session_map update (upf_mac_refresh update arp r).learner r.ul_map)
unfolding upf_mac_refresh
upf_mac_refresh-map update arp r = ground arith

pub upf_mac_refresh-ServesN3 :
    (update : UpdateElem) (is : IsUpdateElem update) (arp : ℕ → Option Mac) (r : UpfRound)
    → LearnerFits r.learner
    → ServesN3 r.ul_map
    → ServesN3 (upf_mac_refresh update arp r).ul_map
upf_mac_refresh-ServesN3 update is arp r fits serves = elim (upf_mac_refresh-map update arp r) [
  | inl same ↦ rw same serves
  | inr new ↦ rw new (
      complete-ServesN3 update is (upf_mac_refresh update arp r).learner
        (upf_mac_refresh-fits update arp r fits) r.ul_map serves)
]

pub du_mac_refresh-fits :
    (found : Option Mac) (l : Learner) → LearnerFits l → LearnerFits (du_mac_refresh found l)
unfolding du_mac_refresh
du_mac_refresh-fits none l f = f
du_mac_refresh-fits (some c) l f = ground (arith, f)

pub bumped :
    (sess : SessionCtx)
    → SessionFits sess × (sess.dst_port ≡ 2153)
    → SessionFits (bump_sn sess) × ((bump_sn sess).dst_port ≡ 2153)
bumped sess f = omega arith

pub parse_gtpu-ServesF1u :
    (h : Helpers) (s : KernelState) (p : Packet)
    → ServesF1u s.session_map
    → ServesF1u (parse_gtpu h s p).state.session_map
parse_gtpu-ServesF1u h s p serves = elim (parse_gtpu-map_cases h s p) [
  | inl same ↦ rw same serves
  | inr (k, sess, found, new) ↦ rw new (
      Everywhere-insert _ s.session_map k (bump_sn sess) (bumped sess (serves k sess found)) serves)
]

-- What the platform is assumed to do.
seed_entry-fits :
    (addr f1u_teid : ℕ) (l : Learner)
    → LearnerFits l
    → addr < 2 ^ 32
    → f1u_teid < 2 ^ 32
    → SessionFits (seed_entry addr f1u_teid l) × ((seed_entry addr f1u_teid l).dst_port ≡ 2153)
unfolding seed_entry
seed_entry-fits addr f1u_teid l f a w = omega arith

pub seed_cases :
    (update : UpdateElem) (is : IsUpdateElem update) (addr n3_teid f1u_teid : ℕ) (l : Learner)
    (m : SessionMap)
    → (seed_session update addr (some (some (n3_teid, f1u_teid))) l m ≡ m)
      ⊎ (seed_session update addr (some (some (n3_teid, f1u_teid))) l m
          ≡ insert n3_teid (seed_entry addr f1u_teid l) m)
unfolding seed_session
seed_cases update is addr n3_teid f1u_teid l m =
    ground (arith, updated_cases update is bpf_any m n3_teid (seed_entry addr f1u_teid l))

pub seed_nothing :
    (update : UpdateElem) (addr : ℕ) (l : Learner) (m : SessionMap)
    → (seed_session update addr none l m ≡ m) × (seed_session update addr (some none) l m ≡ m)
unfolding seed_session
seed_nothing update addr l m = (refl, refl)

pub seed_session-ServesF1u :
    (update : UpdateElem) (is : IsUpdateElem update) (addr : ℕ) (variable : Option (Option (ℕ × ℕ)))
    (l : Learner) (m : SessionMap)
    → LearnerFits l
    → addr < 2 ^ 32
    → SeedFits variable
    → ServesF1u m
    → ServesF1u (seed_session update addr variable l m)
seed_session-ServesF1u update is addr none l m f a w serves =
    rw (seed_nothing update addr l m).0 serves
seed_session-ServesF1u update is addr (some none) l m f a w serves =
    rw (seed_nothing update addr l m).1 serves
seed_session-ServesF1u update is addr (some (some (n3_teid, f1u_teid))) l m f a w serves =
    elim (seed_cases update is addr n3_teid f1u_teid l m) [
      | inl same ↦ rw same serves
      | inr new ↦ rw new (
          Everywhere-insert _ m n3_teid (seed_entry addr f1u_teid l)
            (seed_entry-fits addr f1u_teid l f a w.1) serves)
    ]
