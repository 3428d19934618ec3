-- ===== src/Stage2/Learned.antt =====
-- Session learning in stage 2 and in stage 4, from the same event.
use cu_ebpf.Base.{ℕ, ◌≡◌, false, Option, none, some, Option-cases, inl, inr, arith}
use cu_ebpf.Session.{SessionCtx, SessionMap, UpdateElem, HasRoom}
use cu_ebpf.Event.{GtpEvent}
use cu_ebpf.Learner
use cu_ebpf.Stage2.Learning.{dl_session, print_event}
use cu_ebpf.Stage2.Learning

-- What stage 4's learner knows, as far as stage 2 has globals for it.
abbrev pub earlier : Learner.Learner → Learning.Learner
earlier l = record {
  f1u_dl_known = l.f1u_dl_known;
  f1u_dl_teid = l.f1u_dl_teid;
  f1u_dl_ip = l.f1u_dl_ip;
  egress_ifindex = l.egress_ifindex;
  own_mac = l.own_mac;
  own_ip = l.own_ip;
  du_mac = l.du_mac;
  du_mac_valid = l.du_mac_valid;
}

-- An entry of stage 4 without its flag `ready`, which stage 2 does not have.
abbrev pub unready : Option SessionCtx → Option SessionCtx
unready none = none
unready (some sess) = some (record sess { ready = false })

abbrev pub unready_map : SessionMap → SessionMap
unready_map m k = unready (m k)

-- Stage 4 with the fast path on learns from an event of an N3 packet what stage 2 learned: the maps
-- stay the same but for the flag `ready`. Assumed: bpf_map_update_elem has room for a new key.
pub print_event-print_event :
    (update : UpdateElem) (l : Learner.Learner) (e : GtpEvent) (m : SessionMap) (k : ℕ)
    → HasRoom update
    → l.disable_offload ≡ false
    → e.is_f1u ≡ false
    → unready (Learner.print_event update l e m k)
      ≡ print_event update (earlier l) e (unready_map m) k
unfolding print_event Learner.print_event Learner.dl_session dl_session
print_event-print_event update l e m k room on n3 = elim (Option-cases (m e.teid)) [
  | inr (old, there) ↦ ground (arith, there, on, n3)
  | inl free ↦
      let four = room.fresh m e.teid (Learner.dl_session l) free in
      let two = room.fresh (unready_map m) e.teid (dl_session (earlier l)) (rw free) in
      ground (arith, free, four, two, on, n3)
]
