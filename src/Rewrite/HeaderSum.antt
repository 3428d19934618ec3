-- ===== src/Rewrite/HeaderSum.antt =====
-- The IP checksum of a rewritten packet is right.
use cu_ebpf.Base.{ℕ, ◌%◌, ◌≡◌, arith}
use cu_ebpf.Packet.{Mem}
use cu_ebpf.Packet.Checksum.{header_sum, header_sum-write_checksum, HeaderIsBytes}
use cu_ebpf.Session.{SessionCtx}
use cu_ebpf.Rewrite.{write_headers, write_route, write_lengths}

-- The cells that the checksum covers are bytes before it is written.
routed_bytes :
    (flags : ℕ) (sess : SessionCtx) (m : Mem)
    → HeaderIsBytes m
    → HeaderIsBytes (write_route 20 flags sess m)
unfolding write_route
routed_bytes flags sess m h i lo hi = ground (arith, h i)

pub prepared_bytes :
    (flags hdr_bytes len : ℕ) (sess : SessionCtx) (m : Mem)
    → HeaderIsBytes m
    → HeaderIsBytes (write_lengths 20 hdr_bytes len sess (write_route 20 flags sess m))
unfolding write_lengths
prepared_bytes flags hdr_bytes len sess m h i lo hi = ground (arith, routed_bytes flags sess m h i)

pub write_headers-header_sum :
    (flags hdr_bytes len : ℕ) (sess : SessionCtx) (m : Mem)
    → HeaderIsBytes m
    → header_sum 14 (write_headers 20 flags hdr_bytes len sess m) % 65535 ≡ 0
unfolding write_headers
write_headers-header_sum flags hdr_bytes len sess m h =
    header_sum-write_checksum (write_lengths 20 hdr_bytes len sess (write_route 20 flags sess m))
      (prepared_bytes flags hdr_bytes len sess m h)
