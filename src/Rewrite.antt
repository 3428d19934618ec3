-- ===== src/Rewrite.antt =====
-- The header writes that the two offload blocks of parse_gtpu
-- (artifact/stage_4/xdp_gtp_inner_parser.bpf.c) have in common; they differ in the flags byte and
-- in the number of bytes between the GTP-U header and the inner packet.
pub mod Outside
pub mod HeaderSum
use cu_ebpf.Base.{ℕ, ◌+◌, ◌/◌, ◌%◌}
use cu_ebpf.Packet.{Mem, write, write16, write32}
use cu_ebpf.Packet.Checksum.{write_checksum}
use cu_ebpf.Session.{Mac, SessionCtx}
use cu_ebpf.Parse.{gtpu_g_pdu}

-- __builtin_memcpy of ETH_ALEN bytes
abbrev pub write_mac : ℕ → Mac → Mem → Mem
write_mac i a m = write (i + 5) a.b5 (
    write (i + 4) a.b4
      (write (i + 3) a.b3 (write (i + 2) a.b2 (write (i + 1) a.b1 (write i a.b0 m)))))

-- The ETH_ALEN bytes from an offset on: what a receiver reads as a MAC address.
abbrev pub mac_at : Mem → ℕ → Mac
mac_at m i = record {
  b0 = m i;
  b1 = m (i + 1);
  b2 = m (i + 2);
  b3 = m (i + 3);
  b4 = m (i + 4);
  b5 = m (i + 5);
}

-- MAC and IP addresses, the destination port, and the GTP-U flags; `ihl` is outer_ihl.
unfoldable pub write_route : ℕ → ℕ → SessionCtx → Mem → Mem
write_route ihl flags sess m = write (14 + ihl + 8) flags (
    write16 (14 + ihl + 2) sess.dst_port (
      write32 30 sess.dst_ip
        (write32 26 sess.src_ip (write_mac 6 sess.src_mac (write_mac 0 sess.dst_mac m)))))

-- Message type, TEID and the three lengths; a length is cut to a __u16 by its store.
unfoldable pub write_lengths : ℕ → ℕ → ℕ → SessionCtx → Mem → Mem
write_lengths ihl hdr_bytes move_len sess m =
    write16 (14 + ihl + 4) (8 + 8 + hdr_bytes + move_len) (
      write16 16 (ihl + 8 + 8 + hdr_bytes + move_len) (
        write16 (14 + ihl + 8 + 2) (hdr_bytes + move_len)
          (write32 (14 + ihl + 8 + 4) sess.peer_teid (write (14 + ihl + 8 + 1) gtpu_g_pdu m))))

-- The IP checksum, and udp->check = 0.
unfoldable pub write_checks : ℕ → Mem → Mem
write_checks ihl m = write16 (14 + ihl + 6) 0 (write_checksum 14 m)

unfoldable pub write_headers : ℕ → ℕ → ℕ → ℕ → SessionCtx → Mem → Mem
unfolding write_route write_lengths write_checks
write_headers ihl flags hdr_bytes move_len sess m =
    write_checks ihl (write_lengths ihl hdr_bytes move_len sess (write_route ihl flags sess m))

-- 3-byte PDCP header with an 18-bit sequence number, D/C = 1, and the 1-byte SDAP header.
unfoldable pub write_pdcp_sdap : ℕ → ℕ → ℕ → Mem → Mem
write_pdcp_sdap i sn qfi m =
    write (i + 3) (qfi % 64)
      (write (i + 2) (sn % 256) (write (i + 1) (sn / 256 % 256) (write i (128 + sn / 65536 % 4) m)))

-- Four optional bytes that announce a PDU Session Container, and the container: length 1, PDU type
-- UL, the QFI, no further extension.
unfoldable pub write_container : ℕ → ℕ → Mem → Mem
write_container i qfi m = write (i + 7) 0 (
    write (i + 6) (qfi % 64) (
      write (i + 5) 16
        (write (i + 4) 1 (write (i + 3) 0x85 (write (i + 2) 0 (write (i + 1) 0 (write i 0 m)))))))
