-- ===== src/Downlink/Framing.antt =====
-- What a redirected downlink packet looks like to its receiver: a correct F1-U packet.
use cu_ebpf.Base.{ℕ, ◌+◌, ◌-◌, ◌*◌, ◌/◌, ◌%◌, ◌≤◌, ◌<◌, ◌≡◌, ◌∙◌, refl, arith}
use cu_ebpf.Packet.{Mem, Packet, IsBytes, be16, be32}
use cu_ebpf.Packet.Copy.{copy_forward_outside}
use cu_ebpf.Packet.Checksum.{header_sum, write_checksum, HeaderIsBytes}
use cu_ebpf.Session.{SessionCtx, SessionFits}
use cu_ebpf.Event.{GtpEvent}
use cu_ebpf.Parse.Shapes.{PlainUdp, F1uShape}
use cu_ebpf.Xdp.{KernelState, Helpers, IsAdjustTail}
use cu_ebpf.Rewrite.{mac_at, write_headers, write_pdcp_sdap}
use cu_ebpf.Rewrite.HeaderSum.{write_headers-header_sum}
use cu_ebpf.Downlink.{dl_delta, dl_compact, dl_framing, dl_bytes, dl_rewrite, qfi_to_write}
use cu_ebpf.Downlink.Offload.{DlSizes}
use cu_ebpf.Downlink.Payload.{DlRedirect, dl_write-packet, cut_len, len-dl_compact}

-- The fields of the rewritten headers, read back from the bytes.
record Written (qfi len : ℕ) (sess : SessionCtx) (m m' : Mem) : Type 0 where
  proto : be16 m' 12 ≡ be16 m 12
  ihl : m' 14 ≡ m 14
  udp : m' 23 ≡ m 23
  src : be32 m' 26 ≡ sess.src_ip
  dst : be32 m' 30 ≡ sess.dst_ip
  port : be16 m' 36 ≡ sess.dst_port
  flags : m' 42 ≡ 0x30
  kind : m' 43 ≡ 255
  teid : be32 m' 46 ≡ sess.peer_teid
  ip_len : be16 m' 16 ≡ 40 + len
  udp_len : be16 m' 38 ≡ 20 + len
  gtp_len : be16 m' 44 ≡ 4 + len
  udp_check : be16 m' 40 ≡ 0
  sn : m' 50 % 4 * 65536 + m' 51 * 256 + m' 52 ≡ (sess.next_dl_pdcp_sn + 1) % 262144
  dc : m' 50 / 4 ≡ 32
  sdap : m' 53 ≡ qfi % 64

dl_bytes-Written :
    (qfi len : ℕ) (sess : SessionCtx) (m : Mem)
    → SessionFits sess
    → len ≤ 1400
    → Written qfi len sess m (dl_bytes 20 qfi len sess m)
unfolding dl_bytes write_headers write_checksum write_pdcp_sdap
dl_bytes-Written qfi len sess m fits h = omega arith

dl_bytes-macs :
    (qfi len : ℕ) (sess : SessionCtx) (m : Mem)
    → (mac_at (dl_bytes 20 qfi len sess m) 0 ≡ sess.dst_mac)
      × (mac_at (dl_bytes 20 qfi len sess m) 6 ≡ sess.src_mac)
unfolding dl_bytes write_headers write_checksum write_pdcp_sdap
dl_bytes-macs qfi len sess m = (refl, refl)

-- Bytes of the old headers that are not written stay as they were.
compact-header : (p : Packet) (c i : ℕ) → DlSizes p c → i < 54 → (dl_compact p c).at i ≡ p.at i
unfolding dl_compact
compact-header p c i z h =
    ground (arith, z, copy_forward_outside 512 0 (p.len - c) c 54 p.len i p.at)

-- A correct F1-U packet for the session: its shape, MAC and IP addresses, TEID, PDCP sequence number
-- and QFI; the three length fields agree with the length of the packet, the IP checksum is right, and
-- the UDP checksum is 0, which says that there is none.
pub record F1uPacket (sess : SessionCtx) (qfi_written : ℕ) (q : Packet) : Type 0 where
  pub shape : F1uShape q
  pub dst_mac : mac_at q.at 0 ≡ sess.dst_mac
  pub src_mac : mac_at q.at 6 ≡ sess.src_mac
  pub src : be32 q.at 26 ≡ sess.src_ip
  pub dst : be32 q.at 30 ≡ sess.dst_ip
  pub teid : be32 q.at 46 ≡ sess.peer_teid
  pub dc : q.at 50 / 4 ≡ 32
  pub sn : q.at 50 % 4 * 65536 + q.at 51 * 256 + q.at 52 ≡ (sess.next_dl_pdcp_sn + 1) % 262144
  pub sdap : q.at 53 ≡ qfi_written % 64
  pub ip_len : be16 q.at 16 + 14 ≡ q.len
  pub udp_len : be16 q.at 38 + 34 ≡ q.len
  pub gtp_len : be16 q.at 44 + 50 ≡ q.len
  pub checksum : header_sum 14 q.at % 65535 ≡ 0
  pub udp_check : be16 q.at 40 ≡ 0

framing-header :
    (qfi i : ℕ) (sess : SessionCtx) (m : Mem) → i < 50 → dl_framing 20 qfi sess m i ≡ m i
unfolding dl_framing write_pdcp_sdap
framing-header qfi i sess m h = ground arith

dl_bytes-header_sum :
    (qfi len : ℕ) (sess : SessionCtx) (m : Mem)
    → HeaderIsBytes (dl_framing 20 qfi sess m)
    → header_sum 14 (dl_bytes 20 qfi len sess m) % 65535 ≡ 0
unfolding dl_bytes
dl_bytes-header_sum qfi len sess m h =
    write_headers-header_sum 0x30 4 len sess (dl_framing 20 qfi sess m) h

-- A packet `cut` of the right size, with the old headers of `p`, behind the header writes.
module _ (p cut : Packet) (qfi len : ℕ) (sess : SessionCtx) (bytes : IsBytes p.at)
    (plain : PlainUdp p) (fits : SessionFits sess) (port : sess.dst_port ≡ 2153)
    (small : len ≤ 1400) (size : cut.len ≡ 54 + len)
    (kept : (i : ℕ) → i < 54 → cut.at i ≡ p.at i) where
  framing_bytes : HeaderIsBytes (dl_framing 20 qfi sess cut.at)
  framing_bytes i lo hi =
      omega (arith, framing-header qfi i sess cut.at (omega arith), kept i (omega arith), bytes i)

  written : Written qfi len sess cut.at (dl_bytes 20 qfi len sess cut.at)
  written = dl_bytes-Written qfi len sess cut.at fits small

  pub dl_bytes-F1uPacket :
      F1uPacket sess qfi (record { at = dl_bytes 20 qfi len sess cut.at; len = cut.len })
  dl_bytes-F1uPacket = record {
    shape = record {
      plain = record {
        proto = omega (arith, written, kept 12 (omega arith), kept 13 (omega arith), plain);
        ihl = omega (arith, written, kept 14 (omega arith), plain);
        udp = omega (arith, written, kept 23 (omega arith), plain);
      };
      room = omega (arith, size);
      port = written.port ∙ port;
      flags = written.flags;
      kind = written.kind;
    };
    dst_mac = (dl_bytes-macs qfi len sess cut.at).0;
    src_mac = (dl_bytes-macs qfi len sess cut.at).1;
    src = written.src;
    dst = written.dst;
    teid = written.teid;
    dc = written.dc;
    sn = written.sn;
    sdap = written.sdap;
    ip_len = omega (arith, written.ip_len, size);
    udp_len = omega (arith, written.udp_len, size);
    gtp_len = omega (arith, written.gtp_len, size);
    checksum = dl_bytes-header_sum qfi len sess cut.at framing_bytes;
    udp_check = written.udp_check;
  }

module _ (h : Helpers) (s : KernelState) (p : Packet) (e : GtpEvent) (c : ℕ) (sess : SessionCtx)
    (ok : IsAdjustTail h.adjust_tail) (bytes : IsBytes p.at) (plain : PlainUdp p)
    (fits : SessionFits sess) (port : sess.dst_port ≡ 2153) (d : DlRedirect h s p e c sess) where
  header_kept : (i : ℕ) → i < 54 → d.cut.at i ≡ p.at i
  header_kept i hi =
      ok.kept (dl_compact p c) d.cut (dl_delta p c) d.resized i
        (omega (arith, len-dl_compact p c, d.sizes)) (omega (arith, d.room))
      ∙ compact-header p c i d.sizes hi

  cut_size : d.cut.len ≡ 54 + (p.len - c)
  cut_size = cut_len p d.cut c d.sizes (ok.resized (dl_compact p c) d.cut (dl_delta p c) d.resized)

  pub dl_rewrite-F1uPacket : F1uPacket sess (qfi_to_write e) (dl_rewrite h s p e c sess).packet
  dl_rewrite-F1uPacket =
      rw (d.wrote, dl_write-packet s _ e.teid (p.len - c) sess d.cut d.room)
        (dl_bytes-F1uPacket p d.cut (qfi_to_write e) (p.len - c) sess bytes plain fits port
          (omega (arith, d.sizes)) cut_size header_kept)
