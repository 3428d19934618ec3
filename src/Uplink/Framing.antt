-- ===== src/Uplink/Framing.antt =====
-- What a redirected uplink packet looks like to its receiver: a correct N3 packet.
use cu_ebpf.Base.{ℕ, ◌+◌, ◌-◌, ◌%◌, ◌*◌, ◌≤◌, ◌<◌, ◌≡◌, ◌≢◌, ◌∙◌, refl, inl, arith}
use cu_ebpf.Packet.{Mem, Packet, IsBytes, be16, be32}
use cu_ebpf.Packet.Copy.{copy_backward_outside}
use cu_ebpf.Packet.Checksum.{header_sum, write_checksum, HeaderIsBytes}
use cu_ebpf.Session.{SessionCtx, SessionFits}
use cu_ebpf.Event.{GtpEvent}
use cu_ebpf.Parse.Shapes.{PlainUdp, N3Shape}
use cu_ebpf.Xdp.{KernelState, Helpers, IsAdjustTail}
use cu_ebpf.Rewrite.{mac_at, write_headers, write_container}
use cu_ebpf.Rewrite.HeaderSum.{write_headers-header_sum}
use cu_ebpf.Downlink.{qfi_to_write}
use cu_ebpf.Uplink.{ul_delta, ul_shift, ul_framing, ul_bytes, ul_rewrite}
use cu_ebpf.Uplink.Offload.{UlRedirect}
use cu_ebpf.Uplink.Payload.{ul_write-packet, grown_len}

-- The fields of the rewritten headers, read back from the bytes; `m` is the memory behind the shift.
record Written (qfi len : ℕ) (sess : SessionCtx) (m m' : Mem) : Type 0 where
  proto : be16 m' 12 ≡ be16 m 12
  ihl : m' 14 ≡ m 14
  udp : m' 23 ≡ m 23
  src : be32 m' 26 ≡ sess.src_ip
  dst : be32 m' 30 ≡ sess.dst_ip
  source : be16 m' 34 ≡ be16 m 34
  port : be16 m' 36 ≡ sess.dst_port
  flags : m' 42 ≡ 0x34
  kind : m' 43 ≡ 255
  teid : be32 m' 46 ≡ sess.peer_teid
  udp_check : be16 m' 40 ≡ 0
  ip_len : be16 m' 16 ≡ 44 + len
  udp_len : be16 m' 38 ≡ 24 + len
  gtp_len : be16 m' 44 ≡ 8 + len
  sequence : be16 m' 50 ≡ 0
  npdu : m' 52 ≡ 0
  next_type : m' 53 ≡ 0x85
  units : m' 54 ≡ 1
  pdu_type : m' 55 ≡ 16
  container_qfi : m' 56 ≡ qfi % 64
  last_type : m' 57 ≡ 0

ul_bytes-Written :
    (qfi len limit : ℕ) (sess : SessionCtx) (m : Mem)
    → SessionFits sess
    → len ≤ 512
    → Written qfi len sess (ul_shift 20 len limit m) (ul_bytes 20 qfi len sess limit m)
unfolding ul_bytes write_headers write_checksum write_container
ul_bytes-Written qfi len limit sess m fits h = omega arith

ul_bytes-macs :
    (qfi len limit : ℕ) (sess : SessionCtx) (m : Mem)
    → (mac_at (ul_bytes 20 qfi len sess limit m) 0 ≡ sess.dst_mac)
      × (mac_at (ul_bytes 20 qfi len sess limit m) 6 ≡ sess.src_mac)
unfolding ul_bytes write_headers write_checksum write_container
ul_bytes-macs qfi len limit sess m = (refl, refl)

shift-header : (len limit i : ℕ) (m : Mem) → i < 58 → ul_shift 20 len limit m i ≡ m i
unfolding ul_shift
shift-header len limit i m h = copy_backward_outside 512 0 len 54 58 limit i m (inl h)

framing-header :
    (qfi len limit i : ℕ) (m : Mem)
    → i < 50
    → ul_framing 20 qfi len limit m i ≡ ul_shift 20 len limit m i
unfolding ul_framing write_container
framing-header qfi len limit i m h = ground arith

ul_bytes-header_sum :
    (qfi len limit : ℕ) (sess : SessionCtx) (m : Mem)
    → HeaderIsBytes (ul_framing 20 qfi len limit m)
    → header_sum 14 (ul_bytes 20 qfi len sess limit m) % 65535 ≡ 0
unfolding ul_bytes
ul_bytes-header_sum qfi len limit sess m h =
    write_headers-header_sum 0x34 8 len sess (ul_framing 20 qfi len limit m) h

-- A correct N3 packet for the session: its shape, MAC and IP addresses, TEID, PDU type and QFI; the
-- three length fields agree with the length of the packet, the IP checksum is right, and the UDP
-- checksum is 0, which says that there is none.
pub record N3Packet (sess : SessionCtx) (qfi_written : ℕ) (q : Packet) : Type 0 where
  pub shape : N3Shape q
  pub dst_mac : mac_at q.at 0 ≡ sess.dst_mac
  pub src_mac : mac_at q.at 6 ≡ sess.src_mac
  pub src : be32 q.at 26 ≡ sess.src_ip
  pub dst : be32 q.at 30 ≡ sess.dst_ip
  pub teid : be32 q.at 46 ≡ sess.peer_teid
  pub optional : be16 q.at 50 * 256 + q.at 52 ≡ 0
  pub pdu_type : q.at 55 ≡ 16
  pub container_qfi : q.at 56 ≡ qfi_written % 64
  pub ip_len : be16 q.at 16 + 14 ≡ q.len
  pub udp_len : be16 q.at 38 + 34 ≡ q.len
  pub gtp_len : be16 q.at 44 + 50 ≡ q.len
  pub checksum : header_sum 14 q.at % 65535 ≡ 0
  pub udp_check : be16 q.at 40 ≡ 0

module _ (h : Helpers) (s : KernelState) (p : Packet) (e : GtpEvent) (c : ℕ) (sess : SessionCtx)
    (ok : IsAdjustTail h.adjust_tail) (bytes : IsBytes p.at) (plain : PlainUdp p)
    (source : be16 p.at 34 ≢ 2153) (fits : SessionFits sess) (port : sess.dst_port ≡ 2152)
    (d : UlRedirect h s p e c sess) where
  header_kept : (i : ℕ) → i < 54 → ul_shift 20 (p.len - c) d.grown.len d.grown.at i ≡ p.at i
  header_kept i hi =
      shift-header (p.len - c) d.grown.len i d.grown.at (omega arith)
      ∙ ok.kept p d.grown (ul_delta p c) d.resized i (omega (arith, d.sizes))
          (omega (arith, d.room))

  framing_bytes : HeaderIsBytes (ul_framing 20 (qfi_to_write e) (p.len - c) d.grown.len d.grown.at)
  framing_bytes i lo hi = omega (
    arith,
    framing-header (qfi_to_write e) (p.len - c) d.grown.len i d.grown.at (omega arith),
    header_kept i (omega arith),
    bytes i,
  )

  size : d.grown.len ≡ p.len + 4
  size = grown_len p d.grown c d.sizes (ok.resized p d.grown (ul_delta p c) d.resized)

  written :
      Written
        (qfi_to_write e)
        (p.len - c)
        sess
        (ul_shift 20 (p.len - c) d.grown.len d.grown.at)
        (ul_bytes 20 (qfi_to_write e) (p.len - c) sess d.grown.len d.grown.at)
  written =
      ul_bytes-Written (qfi_to_write e) (p.len - c) d.grown.len sess d.grown.at fits
        (omega (arith, d.sizes))

  macs :
      let q = ul_bytes 20 (qfi_to_write e) (p.len - c) sess d.grown.len d.grown.at in
      (mac_at q 0 ≡ sess.dst_mac) × (mac_at q 6 ≡ sess.src_mac)
  macs = ul_bytes-macs (qfi_to_write e) (p.len - c) d.grown.len sess d.grown.at

  pub ul_rewrite-N3Packet : N3Packet sess (qfi_to_write e) (ul_rewrite h s p e c sess).packet
  ul_rewrite-N3Packet =
      rw (d.wrote, ul_write-packet s _ (p.len - c) sess d.grown d.room)
        (record {
          shape = record {
            plain = record {
              proto = omega (
                arith,
                written,
                header_kept 12 (omega arith),
                header_kept 13 (omega arith),
                plain,
              );
              ihl = omega (arith, written, header_kept 14 (omega arith), plain);
              udp = omega (arith, written, header_kept 23 (omega arith), plain);
            };
            room = d.room;
            source = omega (
              arith,
              written,
              header_kept 34 (omega arith),
              header_kept 35 (omega arith),
              source,
            );
            port = written.port ∙ port;
            flags = written.flags;
            kind = written.kind;
            next_type = written.next_type;
            units = written.units;
            last_type = written.last_type;
          };
          dst_mac = macs.0;
          src_mac = macs.1;
          src = written.src;
          dst = written.dst;
          teid = written.teid;
          optional = omega (arith, written.sequence, written.npdu);
          pdu_type = written.pdu_type;
          container_qfi = written.container_qfi;
          ip_len = omega (arith, written.ip_len, size, d.sizes);
          udp_len = omega (arith, written.udp_len, size, d.sizes);
          gtp_len = omega (arith, written.gtp_len, size, d.sizes);
          checksum =
              ul_bytes-header_sum (qfi_to_write e) (p.len - c) d.grown.len sess d.grown.at
                framing_bytes;
          udp_check = written.udp_check;
        })
