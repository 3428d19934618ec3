-- ===== src/System/Progress.antt =====
-- From the first packet of a flow to the fast path: what the two programs do together once they have
-- been told of a tunnel.
use cu_ebpf.Base.{
  ℕ, ◌%◌, ◌^◌, ◌≡◌, ◌∙◌, sym, true, false, none, some, List, [], ◌∷◌, ◌++◌, arith, ap,
}
use mathlib.Core.Path.{subst}
use cu_ebpf.Packet.{Packet, IsBytes}
use cu_ebpf.Session.{SessionCtx, SessionMap, UpdateElem, HasRoom}
use cu_ebpf.Event.{GtpEvent}
use cu_ebpf.Xdp.{KernelState, Helpers, CanResize, redirect}
use cu_ebpf.Parse.{is_ipv4_udp, is_g_pdu}
use cu_ebpf.Learner.{Learner, dl_session, print_event}
use cu_ebpf.Program.{parse_gtpu}
use cu_ebpf.Program.Counting.{newest, parse_gtpu-Reports}
use cu_ebpf.Program.Delivery.{DeliversF1u, redirect-DeliversF1u}
use cu_ebpf.Program.Redirect.{parsed}
use cu_ebpf.Program.Reporting.{parse_gtpu-SameReport}
use cu_ebpf.Program.Verdicts.{dl_fits, parse_gtpu-verdict}
use cu_ebpf.System.{Platform, System, Reach, here, after, poll}
use cu_ebpf.System.Entries.{never_seeds, count_redirected, Reach-counts}
use cu_ebpf.System.Validity.{IsPlatform, IsValid, Reach-IsValid}

-- A G-PDU without F1-U framing for which the ring buffer has room.
pub record IsN3Pdu (h : Helpers) (s : KernelState) (p : Packet) : Type 0 where
  pub udp : is_ipv4_udp p ≡ true
  pub room : h.reserve s.events ≡ true
  pub g_pdu : is_g_pdu p ≡ true
  pub n3 : (parsed s p).0.is_f1u ≡ false

-- What maybe_learn_and_populate needs to know.
pub record KnowsDu (l : Learner) : Type 0 where
  pub on : l.disable_offload ≡ false
  pub endpoint : l.f1u_dl_known ≡ true
  pub du : l.du_mac_valid ≡ true

-- The state after the oldest event has been taken off the ring buffer and printed.
abbrev pub polled : Platform → System → GtpEvent → List GtpEvent → System
polled pl s e es = record s {
  kernel = record s.kernel {
    events = es;
    session_map = print_event pl.update s.learner e s.kernel.session_map;
  };
}

-- The entry that was learned, after `n` packets.
abbrev pub learned_session : Learner → ℕ → SessionCtx
learned_session l n = record (dl_session l) { next_dl_pdcp_sn = n % 2 ^ 32 }

print_event_learns :
    (update : UpdateElem) (l : Learner) (e : GtpEvent) (m : SessionMap)
    → HasRoom update
    → KnowsDu l
    → e.is_gtpu ≡ true
    → e.inner_ip_present ≡ true
    → e.is_f1u ≡ false
    → m e.teid ≡ none
    → print_event update l e m e.teid ≡ some (dl_session l)
unfolding print_event
print_event_learns update l e m room knows gtpu inner n3 free =
    ground (arith, room.fresh m e.teid (dl_session l) free, free, knows)

-- The first packet `p` of a flow arrives in the state `s`; its event is the oldest one in the state
-- `t`, in which the DU's endpoint and MAC address are known and the flow has no entry.
module _ (pl : Platform) (s t : System) (p : Packet) (es : List GtpEvent) (is : IsPlatform pl)
    (room : HasRoom pl.update) (first : IsN3Pdu pl.helpers s.kernel p)
    (inner : (parsed s.kernel p).0.inner_ip_present ≡ true) (knows : KnowsDu t.learner)
    (free : t.kernel.session_map (parsed s.kernel p).0.teid ≡ none) where
  abbrev event : GtpEvent
  event = newest (parse_gtpu pl.helpers s.kernel p).state.events

  abbrev key : ℕ
  key = (parsed s.kernel p).0.teid

  event_learns :
      print_event pl.update t.learner event t.kernel.session_map key ≡ some (dl_session t.learner)
  event_learns =
      let same = parse_gtpu-SameReport pl.helpers s.kernel p first.udp first.room first.g_pdu in
      let class = (parse_gtpu-Reports pl.helpers s.kernel p first.udp first.room).class in
      ap (print_event pl.update t.learner event t.kernel.session_map) (sym same.teid)
      ∙ print_event_learns pl.update t.learner event t.kernel.session_map room knows
          (class ∙ first.g_pdu) (same.inner ∙ inner) (same.f1u ∙ first.n3)
          (ap t.kernel.session_map same.teid ∙ free)

  stays :
      {u : System} (r : Reach pl (polled pl t event es) u)
      → never_seeds key r ≡ true
      → u.kernel.session_map key ≡ some (learned_session t.learner (count_redirected key r))
  unfolding dl_session
  stays r unseeded =
      Reach-counts key (dl_session t.learner) r is.maps event_learns (omega arith) unseeded
      ∙ ap (λ n. some (learned_session t.learner n)) (omega arith)

  -- An N3 packet with an inner IPv4 header has been reported; its event is the oldest one in a valid
  -- state in which the fast path is on, the DU's endpoint and MAC address are known, and session_map
  -- has no entry for its TEID; and the event is polled. Whatever happens after that, as long as the
  -- TEID is not seeded: every N3 packet under it for which the ring buffer has room and whose sizes
  -- fit is redirected to the egress interface, and leaves as a correct F1-U packet for the endpoint
  -- and the MAC address that were known at the poll, with the number of packets redirected before it
  -- as the counter of its session. Assumed: the kernel's helpers and inet_pton keep their word, the
  -- map has room, bpf_xdp_adjust_tail has four bytes to spare, and the packet's cells are bytes.
  pub polled_redirects :
      {u : System} (r : Reach pl (polled pl t event es) u) (q : Packet)
      → CanResize pl.helpers.adjust_tail 4
      → IsValid t
      → t.kernel.events ≡ es ++ (event ∷ [])
      → never_seeds key r ≡ true
      → IsN3Pdu pl.helpers u.kernel q
      → (parsed u.kernel q).0.teid ≡ key
      → dl_fits q (parsed u.kernel q).1 ≡ true
      → IsBytes q.at
      → ((parse_gtpu pl.helpers u.kernel q).verdict ≡ redirect t.learner.egress_ifindex)
        × DeliversF1u
            (learned_session t.learner (count_redirected key r))
            q
            (parsed u.kernel q)
            (parse_gtpu pl.helpers u.kernel q).packet
  unfolding dl_session
  polled_redirects {u} r q resize v oldest unseeded next teid fits bytes =
      let l = t.learner in
      let sess : SessionCtx = learned_session l (count_redirected key r) in
      let found : u.kernel.session_map (parsed u.kernel q).0.teid ≡ some sess =
        ap u.kernel.session_map teid ∙ stays r unseeded in
      let goes : (parse_gtpu pl.helpers u.kernel q).verdict ≡ redirect l.egress_ifindex =
        ground
          (arith, parse_gtpu-verdict pl.helpers is.tail resize u.kernel q, next, found, fits) in
      let v' : IsValid u =
        Reach-IsValid is (Reach-IsValid is v (after here (poll t event es oldest))) r in
      let (sess', found', delivers, reads) =
        redirect-DeliversF1u pl.helpers u.kernel q l.egress_ifindex is.tail bytes v'.dl goes next.n3
          1 in
      (
        goes,
        subst (λ x. DeliversF1u x q (parsed u.kernel q) (parse_gtpu pl.helpers u.kernel q).packet)
            (cc (found, found')) delivers,
      )
