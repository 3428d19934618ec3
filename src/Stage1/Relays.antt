-- ===== src/Stage1/Relays.antt =====
-- What stage 1 (artifact/stage_1/xdp_gtp_inner_parser.bpf.c) hands on, and what it leaves alone.
use mathlib.Core.Path.{subst}
use cu_ebpf.Base.{
  Bool, ℕ, ◌≡◌, refl, ap, sym, ◌∙◌, inl, inr, true, Bool-cases, Option-cases, List, some, arith,
}
use cu_ebpf.Packet.{Packet, IsBytes}
use cu_ebpf.Event.{GtpEvent}
use cu_ebpf.Xdp.{KernelState, Outcome, pass, redirect, count_packet, counted, counter_gtpu}
use cu_ebpf.Downlink.{headers_fit}
use cu_ebpf.PduExtender.{parse_headers, report_non_gtpu}
use cu_ebpf.Stage1.{SessionCtx, SessionMap, relay_bytes, relay, parse_gtpu}
use cu_ebpf.Stage1.Relayed.{SessionFits, Relayed, relay_bytes-Relayed}
use cu_ebpf.Stage1.Reads.{pair_route, parse_headers-pair_route}

-- A relayed packet: its session, its bytes, and how it reads.
pub record Relays (sess : SessionCtx) (p q : Packet) : Type 0 where
  pub len : q.len ≡ p.len
  pub relayed : Relayed sess p.at q.at
  pub reads : (count : ℕ) → parse_headers count q ≡ pair_route sess (parse_headers count p)

-- What is known where the block redirects.
record Found (sessions : SessionMap) (s : KernelState) (p : Packet) (e : GtpEvent) (i : ℕ)
    : Type 0 where
  sess : SessionCtx
  found : sessions e.teid ≡ some sess
  egress : sess.egress_ifindex ≡ i
  fit : headers_fit p ≡ true
  wrote : (relay sessions s p e).packet ≡ record p { at = relay_bytes 20 sess p.at }

relay-Found :
    (sessions : SessionMap) (s : KernelState) (p : Packet) (e : GtpEvent) (i : ℕ)
    → (relay sessions s p e).verdict ≡ redirect i
    → Found sessions s p e i
unfolding relay
relay-Found sessions s p e i v = elim (Option-cases (sessions e.teid)) [
  | inl missing ↦ absurd (ground (arith, missing, v))
  | inr (sess, found) ↦ elim (Bool-cases (headers_fit p)) [
    | inl fit ↦ record {
      sess = sess;
      found = found;
      egress = ground (arith, found, fit, v);
      fit = fit;
      wrote = ground (arith, found, fit);
    }
    | inr no_fit ↦ absurd (ground (arith, found, no_fit, v))
  ]
]

relay-pass :
    (sessions : SessionMap) (s : KernelState) (p : Packet) (e : GtpEvent)
    → (relay sessions s p e).verdict ≡ pass
    → (relay sessions s p e).packet ≡ p
unfolding relay
relay-pass sessions s p e v = ground arith

-- A packet that passes is unchanged.
pub parse_gtpu-pass :
    (reserve : List GtpEvent → Bool) (sessions : SessionMap) (s : KernelState) (p : Packet)
    → (parse_gtpu reserve sessions s p).verdict ≡ pass
    → (parse_gtpu reserve sessions s p).packet ≡ p
unfolding parse_gtpu report_non_gtpu
parse_gtpu-pass reserve sessions s p v = ground (
  arith,
  relay-pass sessions (count_packet counter_gtpu s) p (parse_headers (counted counter_gtpu s) p).0,
)

parse_gtpu-relay :
    (reserve : List GtpEvent → Bool) (sessions : SessionMap) (s : KernelState) (p : Packet) (i : ℕ)
    → (parse_gtpu reserve sessions s p).verdict ≡ redirect i
    → parse_gtpu reserve sessions s p
      ≡ relay sessions (count_packet counter_gtpu s) p (parse_headers (counted counter_gtpu s) p).0
unfolding parse_gtpu report_non_gtpu
parse_gtpu-relay reserve sessions s p i v = ground (arith, v)

-- A redirected packet leaves through the interface of the session that session_map has under its
-- TEID. It has its old length, the session's MAC addresses, destination address and port and TEID,
-- a right IP checksum, UDP checksum 0, and every other byte as it was; the parser reads it as the
-- packet that came in with the session's destination and TEID, extension headers included. Assumed:
-- the packet's cells are bytes and the fields of the entries are machine words.
pub parse_gtpu-Relays :
    (reserve : List GtpEvent → Bool) (sessions : SessionMap) (s : KernelState) (p : Packet) (i : ℕ)
    → IsBytes p.at
    → ((k : ℕ) (sess : SessionCtx) → sessions k ≡ some sess → SessionFits sess)
    → (parse_gtpu reserve sessions s p).verdict ≡ redirect i
    → (sess : SessionCtx) × (sessions (parse_headers (counted counter_gtpu s) p).0.teid ≡ some sess)
      × (sess.egress_ifindex ≡ i)
      × Relays sess p (parse_gtpu reserve sessions s p).packet
parse_gtpu-Relays reserve sessions s p i bytes fits v =
    let ran = parse_gtpu-relay reserve sessions s p i v in
    let f =
      relay-Found sessions (count_packet counter_gtpu s) p
        (parse_headers (counted counter_gtpu s) p).0 i
        (ap (λ (o : Outcome). o.verdict) (sym ran) ∙ v) in
    let relayed = relay_bytes-Relayed f.sess p.at (fits _ f.sess f.found) (λ j lo hi. bytes j) in
    (
      f.sess,
      f.found,
      f.egress,
      subst (Relays f.sess p) (sym (ap (λ (o : Outcome). o.packet) ran ∙ f.wrote)) (record {
        len = refl;
        relayed = relayed;
        reads =
            parse_headers-pair_route f.sess p (record p { at = relay_bytes 20 f.sess p.at }) refl
              (ground (arith, f.fit)) relayed;
      }),
    )
