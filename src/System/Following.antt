-- ===== src/System/Following.antt =====
-- The uplink once both of its endpoints have been learned: what redirected packets follow.
use cu_ebpf.Base.{
  ℕ, ◌≡◌, ◌≢◌, ◌∙◌, ap, Bool, true, false, ◌&&◌, ◌==◌, inl, inr, List, none, some, arith,
}
use mathlib.Core.Path.{subst}
use cu_ebpf.Packet.{Packet, IsBytes, be16}
use cu_ebpf.Session.{SessionMap, UpdateElem, HasRoom}
use cu_ebpf.Xdp.{KernelState, Helpers, CanResize, redirect}
use cu_ebpf.Parse.{is_ipv4_udp, is_g_pdu}
use cu_ebpf.Learner.{Learner, ul_session, maybe_complete_ul_session_map}
use cu_ebpf.Program.{parse_gtpu}
use cu_ebpf.Program.Delivery.{DeliversN3, redirect-DeliversN3}
use cu_ebpf.Program.Redirect.{parsed}
use cu_ebpf.Program.Sequence.{parse_gtpu-ul_map}
use cu_ebpf.Program.Verdicts.{ul_fits, parse_gtpu-verdict}
use cu_ebpf.Watcher.{
  fields_of, parse_colon_hex_teid, skip_0x, Inet, str_eq, f1ap_endpoint, ngap_endpoint, f1ap_line,
  ngap_line, du_mac_refresh,
}
use cu_ebpf.Watcher.Lines.{f1ap_line_cases, ngap_line_cases}
use cu_ebpf.System.{
  Platform, System, Step, receive, poll, f1ap, ngap, du_mac, upf_mac, seed, Reach, here, after,
  after_line,
}
use cu_ebpf.System.Current.{
  Tracks, KnowsUplink, IsCurrent, Current, f1ap_endpoint-IsCurrent, ngap_endpoint-IsCurrent,
  upf_mac_refresh-Rounds, complete-IsCurrent,
}
use cu_ebpf.System.Validity.{IsPlatform, IsValid, Reach-IsValid}

f1ap_endpoint-Tracks :
    (inet : Inet) (update : UpdateElem) (ip : List ℕ) (teid addr : ℕ) (l : Learner) (m : SessionMap)
    → ((f1ap_endpoint inet update ip teid addr (l, m)).0.upf_mac ≡ l.upf_mac)
      × ((f1ap_endpoint inet update ip teid addr (l, m)).0.upf_mac_valid ≡ l.upf_mac_valid)
unfolding f1ap_endpoint
f1ap_endpoint-Tracks inet update ip teid addr l m = ground arith

ngap_endpoint-Tracks :
    (inet : Inet) (update : UpdateElem) (ip : List ℕ) (teid addr : ℕ) (l : Learner) (m : SessionMap)
    → ((ngap_endpoint inet update ip teid addr (l, m)).0.upf_mac ≡ l.upf_mac)
      × ((ngap_endpoint inet update ip teid addr (l, m)).0.upf_mac_valid ≡ l.upf_mac_valid)
unfolding ngap_endpoint
ngap_endpoint-Tracks inet update ip teid addr l m = ground arith

-- What a line leaves of the system is current.
abbrev Followed : ℕ → System → Learner × SessionMap → Type 0
Followed k s lm = Tracks s.upf_thread lm.0 × IsCurrent k lm.0 lm.1

-- On the way the TEID that the CU has on F1-U stays `k`.
unfoldable pub keeps_teid : {pl : Platform} {s t : System} → ℕ → Reach pl s t → Bool
keeps_teid k here = true
keeps_teid k (after {t} {u} r st) = keeps_teid k r && u.learner.f1u_ul_teid == k

module _ (pl : Platform) (room : HasRoom pl.update) (k : ℕ) where
  f1ap_line-Followed :
      (s : System) (line : List ℕ)
      → Current k s
      → let lm = f1ap_line pl.inet pl.update line (s.learner, s.kernel.ul_session_map) in
        lm.0.f1u_ul_teid ≡ k → Followed k s lm
  f1ap_line-Followed s line c same =
      let l = s.learner in
      let m = s.kernel.ul_session_map in
      elim (f1ap_line_cases pl.inet pl.update (l, m) line) [
        | inl stays ↦ rw stays (c.tracks, c.current)
        | inr (x, e) ↦ rw e (
          ground (arith, c.tracks, f1ap_endpoint-Tracks pl.inet pl.update x.ip x.teid x.addr l m),
          f1ap_endpoint-IsCurrent pl.update room k pl.inet x.ip x.teid x.addr l m c.current
              (rw e at same),
        )
      ]

  ngap_line-Followed :
      (s : System) (line : List ℕ)
      → Current k s
      → Followed k s (ngap_line pl.inet pl.update line (s.learner, s.kernel.ul_session_map))
  ngap_line-Followed s line c =
      let l = s.learner in
      let m = s.kernel.ul_session_map in
      elim (ngap_line_cases pl.inet pl.update (l, m) line) [
        | inl stays ↦ rw stays (c.tracks, c.current)
        | inr (x, e) ↦ rw e (
          ground (arith, c.tracks, ngap_endpoint-Tracks pl.inet pl.update x.ip x.teid x.addr l m),
          ngap_endpoint-IsCurrent pl.update room k pl.inet x.ip x.teid x.addr l m c.current,
        )
      ]

  Step-Current :
      {s t : System} → Step pl s t → Current k s → t.learner.f1u_ul_teid ≡ k → Current k t
  unfolding du_mac_refresh ul_session
  Step-Current (receive s p) c same = record {
    tracks = c.tracks;
    current = (
      c.current.0,
      ap (λ (m : SessionMap). m k) (parse_gtpu-ul_map pl.helpers s.kernel p) ∙ c.current.1,
    );
  }
  Step-Current (poll s e es taken) c same = record { tracks = c.tracks; current = c.current }
  Step-Current (f1ap s line) c same =
      let f = f1ap_line-Followed s line c same in record { tracks = f.0; current = f.1 }
  Step-Current (ngap s line) c same =
      let f = ngap_line-Followed s line c in record { tracks = f.0; current = f.1 }
  Step-Current (du_mac s none) c same = c
  Step-Current (du_mac s (some mac)) c same = record {
    tracks = c.tracks;
    current = ground (arith, c.current);
  }
  Step-Current (upf_mac s arp) c same =
      let f = upf_mac_refresh-Rounds pl.update room k arp _ (c.tracks, c.current) in
      record { tracks = f.0; current = f.1 }
  Step-Current (seed s variable addr fits reads) c same = record {
    tracks = c.tracks;
    current = c.current;
  }

  Reach-Current :
      {s t : System} (r : Reach pl s t) → Current k s → keeps_teid k r ≡ true → Current k t
  unfolding keeps_teid
  Reach-Current here c keeps = c
  Reach-Current (after r st) c keeps =
      Step-Current st (Reach-Current r c (ground (arith, keeps))) (ground (arith, keeps))

-- What was learned of the F1-U end of the uplink before, under the TEID `k`.
pub record KnowsF1u (k : ℕ) (l : Learner) : Type 0 where
  pub on : l.disable_offload ≡ false
  pub open_map : l.ul_map_open ≡ true
  pub f1u : l.f1u_ul_known ≡ true
  pub teid : l.f1u_ul_teid ≡ k

-- A line that names an endpoint on N3 which is not our own.
pub record NamesUpf (inet : Inet) (own_ip : ℕ) (line : List ℕ) : Type 0 where
  pub text : List ℕ
  pub ip : List ℕ
  pub addr : ℕ
  pub fields : fields_of line ≡ some (text, ip)
  pub nonzero : parse_colon_hex_teid (skip_0x text) ≢ 0
  pub address : inet.pton ip ≡ some addr
  pub other : str_eq ip (inet.ntop own_ip) ≡ false

ngap_line-learns :
    (inet : Inet) (update : UpdateElem) (line : List ℕ) (l : Learner) (m : SessionMap)
    (x : NamesUpf inet l.own_ip line)
    → let l' : Learner = record l {
      n3_ul_teid = parse_colon_hex_teid (skip_0x x.text);
      n3_ul_ip = x.addr;
      n3_ul_known = true;
    } in
      ngap_line inet update line (l, m) ≡ (l', maybe_complete_ul_session_map update l' m)
unfolding ngap_line ngap_endpoint
ngap_line-learns inet update line l m x = ground (arith, x.fields, x.nonzero, x.address, x.other)

-- A G-PDU with F1-U framing for which the ring buffer has room.
pub record IsF1uPdu (h : Helpers) (s : KernelState) (p : Packet) : Type 0 where
  pub udp : is_ipv4_udp p ≡ true
  pub room : h.reserve s.events ≡ true
  pub g_pdu : is_g_pdu p ≡ true
  pub f1u : (parsed s p).0.is_f1u ≡ true

-- The state after a line of the NGAP watcher.
abbrev pub heard : Platform → System → List ℕ → System
heard pl t line =
    after_line t (ngap_line pl.inet pl.update line (t.learner, t.kernel.ul_session_map))

ul_session-ready :
    (l : Learner)
    → l.upf_mac_valid ≡ true
    → ((ul_session l).ready ≡ true) × ((ul_session l).egress_ifindex ≡ l.egress_ifindex)
unfolding ul_session
ul_session-ready l valid = ground arith

-- The fast path is on and ul_session_map open, and the CU has its TEID `k` on F1-U, when a line of the
-- NGAP watcher names the UPF's endpoint. Then in every later state in which it still has that TEID
-- and the UPF's MAC address is known, every F1-U packet under `k` for which the ring buffer has room
-- and whose sizes fit is redirected to the egress interface, and leaves as a correct N3 packet for
-- the endpoint and the MAC address that are known by then. A round of a thread is one step here.
-- Assumed: the state was valid, the kernel's helpers and inet_pton keep their word, the map has room,
-- bpf_xdp_adjust_tail has four bytes to spare, the MAC address that the ARP thread has logged is the
-- one in use, the packet's cells are bytes, and its source port is not 2153.
pub heard_redirects :
    {pl : Platform} {t u : System} (k : ℕ) (line : List ℕ) (r : Reach pl (heard pl t line) u)
    (q : Packet)
    → IsPlatform pl
    → HasRoom pl.update
    → CanResize pl.helpers.adjust_tail 4
    → IsValid t
    → Tracks t.upf_thread t.learner
    → KnowsF1u k t.learner
    → NamesUpf pl.inet t.learner.own_ip line
    → keeps_teid k r ≡ true
    → u.learner.upf_mac_valid ≡ true
    → IsF1uPdu pl.helpers u.kernel q
    → (parsed u.kernel q).0.teid ≡ k
    → ul_fits q (parsed u.kernel q).1 ≡ true
    → IsBytes q.at
    → be16 q.at 34 ≢ 2153
    → ((parse_gtpu pl.helpers u.kernel q).verdict ≡ redirect u.learner.egress_ifindex)
      × DeliversN3
          (ul_session u.learner)
          q
          (parsed u.kernel q)
          (parse_gtpu pl.helpers u.kernel q).packet
heard_redirects {pl} {t} {u} k line r q is room resize v tracks knows x keeps valid next teid fits
      bytes source =
    let l' : Learner = record t.learner {
      n3_ul_teid = parse_colon_hex_teid (skip_0x x.text);
      n3_ul_ip = x.addr;
      n3_ul_known = true;
    } in
    let learns = ngap_line-learns pl.inet pl.update line t.learner t.kernel.ul_session_map x in
    let knows' : KnowsUplink k l' = ground (arith, knows) in
    let start : Current k (heard pl t line) = rw learns (record {
      tracks = tracks;
      current = complete-IsCurrent pl.update room k l' t.kernel.ul_session_map knows';
    }) in
    let now : Current k u = Reach-Current pl room k r start keeps in
    let found : u.kernel.ul_session_map (parsed u.kernel q).0.teid ≡ some (ul_session u.learner) =
      ap u.kernel.ul_session_map teid ∙ now.current.1 in
    let goes : (parse_gtpu pl.helpers u.kernel q).verdict ≡ redirect u.learner.egress_ifindex =
      ground (
        arith,
        parse_gtpu-verdict pl.helpers is.tail resize u.kernel q,
        next,
        found,
        fits,
        ul_session-ready u.learner valid,
      ) in
    let v' : IsValid u = Reach-IsValid is (Reach-IsValid is v (after here (ngap t line))) r in
    let (sess', found', ready, delivers, reads) =
      redirect-DeliversN3 pl.helpers u.kernel q u.learner.egress_ifindex is.tail bytes v'.ul source
        goes next.f1u 1 in
    (
      goes,
      subst (λ y. DeliversN3 y q (parsed u.kernel q) (parse_gtpu pl.helpers u.kernel q).packet)
          (cc (found, found')) delivers,
    )
