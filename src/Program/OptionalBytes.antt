-- ===== src/Program/OptionalBytes.antt =====
-- F1-U packets whose GTP-U header has optional bytes: the uplink offload block takes these for the
-- PDCP and SDAP bytes.
use mathlib.Core.Path.{subst}
use cu_ebpf.Base.{ℕ, ◌≤◌, ◌≡◌, ◌∙◌, ap, sym, true, false, inl, inr, some, arith}
use cu_ebpf.Packet.{Packet, be16, be32}
use cu_ebpf.Session.{SessionCtx}
use cu_ebpf.Event.{GtpEvent}
use cu_ebpf.Parse.{is_ipv4_udp, is_g_pdu, outer_event, header_event, parse_g_pdu, parse_inner}
use cu_ebpf.Parse.Shapes.{PlainUdp}
use cu_ebpf.Xdp.{KernelState, Outcome, Helpers, IsAdjustTail, CanResize, redirect}
use cu_ebpf.Downlink.Payload.{CarriesInner}
use cu_ebpf.Uplink.Offload.{ul_rewrite-UlRedirect}
use cu_ebpf.Uplink.Payload.{ul_rewrite-CarriesInner}
use cu_ebpf.Program.{parse_gtpu}
use cu_ebpf.Program.Redirect.{parsed, UplinkRun, parse_gtpu-Runs}
use cu_ebpf.Program.Verdicts.{parse_gtpu-verdict}

-- An F1-U G-PDU with E set and no extension header: four optional bytes, then PDCP and SDAP.
pub record OptionalF1u (p : Packet) : Type 0 where
  pub plain : PlainUdp p
  pub port : be16 p.at 36 ≡ 2153
  pub flags : p.at 42 ≡ 0x34
  pub kind : p.at 43 ≡ 255
  pub no_extension : p.at 53 ≡ 0
  pub room : 58 ≤ p.len
  pub small : p.len ≤ 566

record Stops (p : Packet) (r : GtpEvent × ℕ) : Type 0 where
  cursor : r.1 ≡ 54
  teid : r.0.teid ≡ be32 p.at 46
  f1u : r.0.is_f1u ≡ true
  no_sn : r.0.f1u_pdcp_sn_present ≡ false

OptionalF1u-Stops : {p : Packet} (count : ℕ) → OptionalF1u p → Stops p (parse_g_pdu count p)
unfolding parse_g_pdu header_event outer_event parse_inner
OptionalF1u-Stops {p} count o = ground arith

OptionalF1u-is_g_pdu : {p : Packet} → OptionalF1u p → (is_ipv4_udp p ≡ true) × (is_g_pdu p ≡ true)
unfolding is_ipv4_udp is_g_pdu
OptionalF1u-is_g_pdu o = ground arith

-- An F1-U packet of at most 566 bytes with the E flag and four optional bytes that announce no
-- extension header, and with a ready session, is redirected: no PDCP sequence number is read, the
-- optional bytes are removed, and the PDCP and SDAP bytes behind them leave in front of the inner
-- packet. Assumed: the ring buffer has room, bpf_xdp_adjust_tail keeps its word and has four spare
-- bytes.
pub optional_redirected :
    (h : Helpers) (s : KernelState) (p : Packet) (sess : SessionCtx)
    → IsAdjustTail h.adjust_tail
    → CanResize h.adjust_tail 4
    → h.reserve s.events ≡ true
    → OptionalF1u p
    → s.ul_session_map (be32 p.at 46) ≡ some sess
    → sess.ready ≡ true
    → ((parse_gtpu h s p).verdict ≡ redirect sess.egress_ifindex)
      × ((parsed s p).0.f1u_pdcp_sn_present ≡ false)
      × CarriesInner p 54 (parse_gtpu h s p).packet 58
optional_redirected h s p sess ok tailroom room o found ready = (
  goes,
  st.no_sn,
  subst (λ (c : ℕ). CarriesInner p c (parse_gtpu h s p).packet 58) st.cursor carried,
)
  where
    st : Stops p (parsed s p)
    st = OptionalF1u-Stops _ o

    goes : (parse_gtpu h s p).verdict ≡ redirect sess.egress_ifindex
    goes =
        parse_gtpu-verdict h ok tailroom s p
        ∙ (ground (arith, st, OptionalF1u-is_g_pdu o, found, ready, room, o))

    carries :
        (x : SessionCtx)
        → UplinkRun h s p x
        → CarriesInner p (parsed s p).1 (parse_gtpu h s p).packet 58
    carries x d = rw d.ran (
        ul_rewrite-CarriesInner h _ p _ _ x ok (
          ul_rewrite-UlRedirect h _ p _ _ x sess.egress_ifindex d.fit
            (ap (λ (u : Outcome). u.verdict) (sym d.ran) ∙ goes)))

    carried : CarriesInner p (parsed s p).1 (parse_gtpu h s p).packet 58
    carried = elim (parse_gtpu-Runs h s p) [
      | inl passes ↦ absurd (cc (passes, goes))
      | inr (inl (x, d)) ↦ absurd (cc (d.n3, st.f1u))
      | inr (inr (x, d)) ↦ carries x d
    ]
