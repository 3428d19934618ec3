-- ===== src/Stage1/Relayed.antt =====
-- The bytes that stage 1 (artifact/stage_1/xdp_gtp_inner_parser.bpf.c) writes.
use cu_ebpf.Base.{ℕ, ◌+◌, ◌%◌, ◌^◌, ◌<◌, ◌≡◌, Bool, true, ◌&&◌, ◌||◌, ◌∙◌, ltb, leb, arith}
use cu_ebpf.Packet.{Mem, be16, be32, write16, write32}
use cu_ebpf.Packet.Checksum.{header_sum, header_sum-write_checksum, write_checksum, HeaderIsBytes}
use cu_ebpf.Session.{Mac}
use cu_ebpf.Rewrite.{write_mac, write_checks}
use cu_ebpf.Stage1.{SessionCtx, relay_route, relay_bytes}

-- The fields of an entry are machine words.
pub record SessionFits (sess : SessionCtx) : Type 0 where
  pub teid : sess.peer_teid < 2 ^ 32
  pub dst_ip : sess.dst_ip < 2 ^ 32
  pub dst_port : sess.dst_port < 2 ^ 16

-- Neither a MAC address, nor the IP checksum or destination, nor the UDP destination port or
-- checksum, nor the TEID.
abbrev pub is_left_alone : ℕ → Bool
is_left_alone j =
    leb 12 j && ltb j 24
    || leb 26 j && ltb j 30
    || leb 34 j && ltb j 36
    || leb 38 j && ltb j 40
    || leb 42 j && ltb j 46
    || leb 50 j

abbrev pub MacAt : Mem → ℕ → Mac → Type 0
MacAt m i a =
    (m i ≡ a.b0)
    × (m (i + 1) ≡ a.b1)
    × (m (i + 2) ≡ a.b2)
    × (m (i + 3) ≡ a.b3)
    × (m (i + 4) ≡ a.b4)
    × (m (i + 5) ≡ a.b5)

-- A relayed packet: the session's addresses, port and TEID, right checksums, and every other byte as
-- it was.
pub record Relayed (sess : SessionCtx) (m m' : Mem) : Type 0 where
  pub dst_mac : MacAt m' 0 sess.dst_mac
  pub src_mac : MacAt m' 6 sess.src_mac
  pub dst_ip : be32 m' 30 ≡ sess.dst_ip
  pub dst_port : be16 m' 36 ≡ sess.dst_port
  pub teid : be32 m' 46 ≡ sess.peer_teid
  pub udp_check : be16 m' 40 ≡ 0
  pub checksum : header_sum 14 m' % 65535 ≡ 0
  pub kept : (j : ℕ) → is_left_alone j ≡ true → m' j ≡ m j

record Fields (sess : SessionCtx) (m' : Mem) : Type 0 where
  dst_mac : MacAt m' 0 sess.dst_mac
  src_mac : MacAt m' 6 sess.src_mac
  dst_ip : be32 m' 30 ≡ sess.dst_ip
  dst_port : be16 m' 36 ≡ sess.dst_port
  teid : be32 m' 46 ≡ sess.peer_teid
  udp_check : be16 m' 40 ≡ 0

relay_bytes-Fields :
    (sess : SessionCtx) (m : Mem) → SessionFits sess → Fields sess (relay_bytes 20 sess m)
unfolding relay_bytes relay_route write_checks write_checksum
relay_bytes-Fields sess m fits = omega arith

write_checks-kept : (m : Mem) (j : ℕ) → is_left_alone j ≡ true → write_checks 20 m j ≡ m j
unfolding write_checks write_checksum
write_checks-kept m j alone = ground arith

macs_kept :
    (a b : Mac) (m : Mem) (j : ℕ) → is_left_alone j ≡ true → write_mac 6 a (write_mac 0 b m) j ≡ m j
macs_kept a b m j alone = ground arith

ids_kept :
    (teid port ip : ℕ) (m : Mem) (j : ℕ)
    → is_left_alone j ≡ true
    → write32 46 teid (write16 36 port (write32 30 ip m)) j ≡ m j
ids_kept teid port ip m j alone = ground arith

relay_bytes-kept :
    (sess : SessionCtx) (m : Mem) (j : ℕ) → is_left_alone j ≡ true → relay_bytes 20 sess m j ≡ m j
unfolding relay_bytes relay_route
relay_bytes-kept sess m j alone =
    write_checks-kept (relay_route 20 sess m) j alone
    ∙ ids_kept sess.peer_teid sess.dst_port sess.dst_ip
        (write_mac 6 sess.src_mac (write_mac 0 sess.dst_mac m)) j alone
    ∙ macs_kept sess.src_mac sess.dst_mac m j alone

relay_route-HeaderIsBytes :
    (sess : SessionCtx) (m : Mem) → HeaderIsBytes m → HeaderIsBytes (relay_route 20 sess m)
unfolding relay_route
relay_route-HeaderIsBytes sess m h i lo hi = ground (arith, h i)

relay_bytes-header_sum :
    (sess : SessionCtx) (m : Mem)
    → HeaderIsBytes m
    → header_sum 14 (relay_bytes 20 sess m) % 65535 ≡ 0
unfolding relay_bytes write_checks
relay_bytes-header_sum sess m h =
    header_sum-write_checksum (relay_route 20 sess m) (relay_route-HeaderIsBytes sess m h)

pub relay_bytes-Relayed :
    (sess : SessionCtx) (m : Mem)
    → SessionFits sess
    → HeaderIsBytes m
    → Relayed sess m (relay_bytes 20 sess m)
relay_bytes-Relayed sess m fits h =
    let f = relay_bytes-Fields sess m fits in
    record {
      dst_mac = f.dst_mac;
      src_mac = f.src_mac;
      dst_ip = f.dst_ip;
      dst_port = f.dst_port;
      teid = f.teid;
      udp_check = f.udp_check;
      checksum = relay_bytes-header_sum sess m h;
      kept = relay_bytes-kept sess m;
    }
