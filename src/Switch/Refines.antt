-- ===== src/Switch/Refines.antt =====
-- parse_gtpu (artifact/stage_4/xdp_gtp_inner_parser.bpf.c) against the switch, packet by packet and
-- over runs of packets.
use cu_ebpf.Base.{
  ℕ, ◌≡◌, ◌≢◌, ◌∙◌, refl, sym, ap, fun_ext, inl, inr, Bool-cases, Option-cases, Option, List, [],
  ◌∷◌, some, true, ◌&&◌, keep, arith,
}
use cu_ebpf.Packet.{Packet, IsBytes, be16}
use cu_ebpf.Session.{SessionCtx, SessionMap, insert, ServesF1u, ServesN3}
use cu_ebpf.Event.{GtpEvent}
use cu_ebpf.Parse.{is_ipv4_udp, is_g_pdu, parse_g_pdu}
use cu_ebpf.Xdp.{KernelState, Helpers, IsAdjustTail, CanResize, redirect}
use cu_ebpf.Downlink.{bump_sn}
use cu_ebpf.Program.{parse_gtpu}
use cu_ebpf.Program.Redirect.{parsed}
use cu_ebpf.Program.Delivery.{redirect-DeliversF1u, redirect-DeliversN3}
use cu_ebpf.Program.Sequence.{parse_gtpu-map_cases, parse_gtpu-ul_map}
use cu_ebpf.System.Writers.{parse_gtpu-ServesF1u}
use cu_ebpf.Switch.{
  Side, upf_side, du_side, Datagram, Route, Switch, forward, forward_offered, forward_all,
  take_route,
}
use cu_ebpf.Switch.Views.{
  side_of, datagram_of, fits, offered, dl_route, ul_route, switch_of, left_by,
}
use cu_ebpf.Switch.Steps.{
  DeliversF1u-datagram_of, DeliversN3-datagram_of, left_by-pass, left_by-redirect, offered-none,
  offered-some, refused_lem, routed_lem,
}

-- The entries of both maps are usable.
pub record Serves (s : KernelState) : Type 0 where
  pub dl : ServesF1u s.session_map
  pub ul : ServesN3 s.ul_session_map

-- A packet's cells are bytes, and its source port, which is not rewritten, is not the F1-U port.
pub record IsPlain (p : Packet) : Type 0 where
  pub bytes : IsBytes p.at
  pub source : be16 p.at 34 ≢ 2153

module _ (h : Helpers) (ok : IsAdjustTail h.adjust_tail) (room : CanResize h.adjust_tail 4) where
  routed_datagram :
      (s : KernelState) (p : Packet) (r : Route)
      → Serves s
      → IsPlain p
      → switch_of s (side_of (parsed s p).0.is_f1u) (parsed s p).0.teid ≡ some r
      → (parse_gtpu h s p).verdict ≡ redirect r.egress
      → some (
        r.egress,
        datagram_of (parse_gtpu h s p).packet (parse_g_pdu 0 (parse_gtpu h s p).packet),
      )
        ≡ take_route (some r) (datagram_of p (parsed s p))
  routed_datagram s p r serves plain route v = elim (Bool-cases (parsed s p).0.is_f1u) [
    | inr from_upf ↦
        let (sess, found, d, read) =
          redirect-DeliversF1u h s p r.egress ok plain.bytes serves.dl v from_upf 0 in
        let e = DeliversF1u-datagram_of sess s p (parse_gtpu h s p).packet from_upf d read in
        ground (arith, route, from_upf, found, e)
    | inl from_du ↦
        let (sess, found, ready, d, read) =
          redirect-DeliversN3 h s p r.egress ok plain.bytes serves.ul plain.source v from_du 0 in
        let e = DeliversN3-datagram_of sess s p (parse_gtpu h s p).packet from_du d read in
        ground (arith, route, from_du, found, ready, e)
  ]

  -- One packet is handled as the switch handles the datagram that it offers: what leaves, read by
  -- the program's own parser, is that datagram with its payload and QFI on the other side, in the
  -- tunnel and through the interface of its route; what offers no datagram or has no route does not
  -- leave. Assumed: bpf_xdp_adjust_tail keeps its word and has four spare bytes, the ring buffer has
  -- room, the entries of both maps are usable, and the packet's cells are bytes and its source port
  -- is not 2153.
  pub parse_gtpu-forward_offered :
      (s : KernelState) (p : Packet)
      → h.reserve s.events ≡ true
      → Serves s
      → IsPlain p
      → left_by (parse_gtpu h s p) ≡ forward_offered (switch_of s) (offered p)
  parse_gtpu-forward_offered s p free serves plain =
      elim (Bool-cases (is_ipv4_udp p && is_g_pdu p && fits p (parsed s p))) [
        | inr refused ↦
            left_by-pass (parse_gtpu h s p) (refused_lem h ok room s p free refused)
            ∙ ap (forward_offered (switch_of s)) (sym (offered-none s p refused))
        | inl taken ↦ rw (offered-some s p taken) (routed taken)
      ]
    where
      routed :
          (is_ipv4_udp p && is_g_pdu p && fits p (parsed s p)) ≡ true
          → left_by (parse_gtpu h s p) ≡ forward (switch_of s) (datagram_of p (parsed s p))
      routed taken =
          elim (Option-cases (switch_of s (side_of (parsed s p).0.is_f1u) (parsed s p).0.teid)) [
            | inl missing ↦
                left_by-pass (parse_gtpu h s p)
                  (routed_lem h ok room s p free taken ∙ (rw missing refl))
                ∙ (rw missing refl)
            | inr (r, route) ↦
                let v : (parse_gtpu h s p).verdict ≡ redirect r.egress =
                  routed_lem h ok room s p free taken ∙ (rw route refl) in
                left_by-redirect (parse_gtpu h s p) r.egress v
                ∙ routed_datagram s p r serves plain route v
                ∙ (rw route refl)
          ]

-- A packet leaves every route as it is.
route_counts :
    (m : SessionMap) (k j : ℕ) (sess : SessionCtx)
    → m k ≡ some sess
    → dl_route (insert k (bump_sn sess) m j) ≡ dl_route (m j)
route_counts m k j sess found = ground (arith, found)

pub switch_of-parse_gtpu :
    (h : Helpers) (s : KernelState) (p : Packet) → switch_of (parse_gtpu h s p).state ≡ switch_of s
switch_of-parse_gtpu h s p = fun_ext sides
  where
    downlinks :
        (k : ℕ) → dl_route ((parse_gtpu h s p).state.session_map k) ≡ dl_route (s.session_map k)
    downlinks k = elim (parse_gtpu-map_cases h s p) [
      | inl same ↦ ap (λ (m : SessionMap). dl_route (m k)) same
      | inr (j, sess, found, new) ↦
          ap (λ (m : SessionMap). dl_route (m k)) new ∙ route_counts s.session_map j k sess found
    ]

    sides : (x : Side) → switch_of (parse_gtpu h s p).state x ≡ switch_of s x
    sides upf_side = fun_ext downlinks
    sides du_side = fun_ext (λ k. ap (λ (m : SessionMap). ul_route (m k)) (parse_gtpu-ul_map h s p))

abbrev pub Each : (Packet → Type 0) → List Packet → Type 0
Each P [] = Unit
Each P (p ∷ ps) = P p × Each P ps

abbrev pub offers : List Packet → List (Option Datagram)
offers [] = []
offers (p ∷ ps) = offered p ∷ offers ps

-- What leaves over a run of packets.
unfoldable pub run_left : Helpers → KernelState → List Packet → List (ℕ × Datagram)
run_left h s [] = []
run_left h s (p ∷ ps) = keep (left_by (parse_gtpu h s p)) (run_left h (parse_gtpu h s p).state ps)

-- Over any run of packets what leaves is what the switch of the first state sends on of the datagrams
-- that the packets offer, in the same order. Assumed: bpf_xdp_adjust_tail keeps its word and has four
-- spare bytes, the ring buffer always has room, the entries of both maps are usable, and each
-- packet's cells are bytes and its source port is not 2153.
pub run_left-forward_all :
    (h : Helpers) (s : KernelState) (ps : List Packet)
    → IsAdjustTail h.adjust_tail
    → CanResize h.adjust_tail 4
    → ((events : List GtpEvent) → h.reserve events ≡ true)
    → Serves s
    → Each IsPlain ps
    → run_left h s ps ≡ forward_all (switch_of s) (offers ps)
unfolding run_left
run_left-forward_all h s [] ok room free serves plain = refl
run_left-forward_all h s (p ∷ ps) ok room free serves plain =
    let later =
      run_left-forward_all h (parse_gtpu h s p).state ps ok room free
        (record {
          dl = parse_gtpu-ServesF1u h s p serves.dl;
          ul = rw (parse_gtpu-ul_map h s p) serves.ul;
        })
        plain.1 in
    rw (parse_gtpu-forward_offered h ok room s p (free s.events) serves plain.0) (
      ap (keep (forward_offered (switch_of s) (offered p)))
        (later ∙ ap (λ (w : Switch). forward_all w (offers ps)) (switch_of-parse_gtpu h s p)))
