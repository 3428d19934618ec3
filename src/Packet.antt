-- ===== src/Packet.antt =====
-- The memory that an XDP program sees: the bytes from ctx->data on, and ctx->data_end.
pub mod Copy
pub mod Checksum
use cu_ebpf.Base.{ℕ, ◌+◌, ◌*◌, ◌/◌, ◌%◌, ◌<◌, Bool, ◌==◌, if◌then◌else◌}

-- Bytes by offset from ctx->data. What stands at ctx->data_end and beyond is never read.
abbrev pub Mem : Type 0
Mem = ℕ → ℕ

-- ctx->data is offset 0, and `len` is ctx->data_end.
pub record Packet : Type 0 where
  pub at : Mem
  pub len : ℕ

-- Every cell holds a byte.
abbrev pub IsBytes : Mem → Type 0
IsBytes m = (i : ℕ) → m i < 256

-- A 16-bit or 32-bit field in network byte order, after bpf_ntohs or bpf_ntohl.
abbrev pub be16 : Mem → ℕ → ℕ
be16 m i = m i * 256 + m (i + 1)

abbrev pub be32 : Mem → ℕ → ℕ
be32 m i = m i * 16777216 + m (i + 1) * 65536 + m (i + 2) * 256 + m (i + 3)

abbrev pub write : ℕ → ℕ → Mem → Mem
write i v m j = if j == i then v else m j

-- A 16-bit or 32-bit store of bpf_htons or bpf_htonl of `v`.
abbrev pub write16 : ℕ → ℕ → Mem → Mem
write16 i v m = write (i + 1) (v % 256) (write i (v / 256 % 256) m)

abbrev pub write32 : ℕ → ℕ → Mem → Mem
write32 i v m = write (i + 3) (v % 256) (
    write (i + 2) (v / 256 % 256)
      (write (i + 1) (v / 65536 % 256) (write i (v / 16777216 % 256) m)))
