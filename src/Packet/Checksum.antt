-- ===== src/Packet/Checksum.antt =====
-- The IPv4 header checksum, as parse_gtpu recomputes it: a sum of ten 16-bit words, folded twice.
-- The program is built for a little-endian machine, so a word is read with its low byte first.
use cu_ebpf.Base.{ℕ, zero, suc, ◌+◌, ◌-◌, ◌*◌, ◌/◌, ◌%◌, ◌≤◌, ◌<◌, ◌≡◌, arith}
use cu_ebpf.Packet.{Mem, be16, write}

-- hwords[w] of a header at offset `i`.
abbrev pub le16 : Mem → ℕ → ℕ
le16 m i = m i + 256 * m (i + 1)

-- A 16-bit store in the machine's own order.
abbrev pub write_le16 : ℕ → ℕ → Mem → Mem
write_le16 i v m = write (i + 1) (v / 256 % 256) (write i (v % 256) m)

-- The loop over hwords, with the rounds that are left; csum is a __u32.
unfoldable pub sum_words : ℕ → ℕ → ℕ → Mem → ℕ
sum_words zero i csum m = csum
sum_words (suc rounds) i csum m = sum_words rounds (i + 2) ((csum + le16 m i) % 4294967296) m

abbrev pub fold : ℕ → ℕ
fold csum = csum % 65536 + csum / 65536

-- `~csum` stored into a __u16, after the two folds.
unfoldable pub checksum : ℕ → Mem → ℕ
unfolding sum_words
checksum i m = 65535 - fold (fold (sum_words 10 i 0 m)) % 65536

-- outer_ip->check = 0, the sum, and the store of the result; the field is at offset 10.
unfoldable pub write_checksum : ℕ → Mem → Mem
unfolding checksum
write_checksum i m =
    write_le16 (i + 10) (checksum i (write_le16 (i + 10) 0 m)) (write_le16 (i + 10) 0 m)

-- The sum of the header's words in network byte order, which a receiver checks.
abbrev pub header_sum : ℕ → Mem → ℕ
header_sum i m =
    be16 m i
    + be16 m (i + 2)
    + be16 m (i + 4)
    + be16 m (i + 6)
    + be16 m (i + 8)
    + be16 m (i + 10)
    + be16 m (i + 12)
    + be16 m (i + 14)
    + be16 m (i + 16)
    + be16 m (i + 18)

-- The stored result completes the sum to a multiple of 65535.
folds_complete : (s : ℕ) → s ≤ 655350 → (s + (65535 - fold (fold s) % 65536)) % 65535 ≡ 0
folds_complete s h = omega arith

-- The cells of an IP header at offset 14 are bytes.
abbrev pub HeaderIsBytes : Mem → Type 0
HeaderIsBytes m = (i : ℕ) → 14 ≤ i → i < 34 → m i < 256

-- With the field at 0 the loop's sum does not wrap.
sum_words-eq :
    (m : Mem)
    → HeaderIsBytes m
    → sum_words 10 14 0 (write_le16 24 0 m)
      ≡ le16 m 14
        + le16 m 16
        + le16 m 18
        + le16 m 20
        + le16 m 22
        + le16 m 26
        + le16 m 28
        + le16 m 30
        + le16 m 32
unfolding sum_words
sum_words-eq m h = omega (
  arith,
  h 14 (omega arith) (omega arith),
  h 15 (omega arith) (omega arith),
  h 16 (omega arith) (omega arith),
  h 17 (omega arith) (omega arith),
  h 18 (omega arith) (omega arith),
  h 19 (omega arith) (omega arith),
  h 20 (omega arith) (omega arith),
  h 21 (omega arith) (omega arith),
  h 22 (omega arith) (omega arith),
  h 23 (omega arith) (omega arith),
  h 26 (omega arith) (omega arith),
  h 27 (omega arith) (omega arith),
  h 28 (omega arith) (omega arith),
  h 29 (omega arith) (omega arith),
  h 30 (omega arith) (omega arith),
  h 31 (omega arith) (omega arith),
  h 32 (omega arith) (omega arith),
  h 33 (omega arith) (omega arith),
)

-- Swapping the bytes of each word multiplies the sum by 256, modulo 65535.
swapped_sum :
    (lo hi c : ℕ)
    → c ≤ 65535
    → (lo + 256 * hi + c) % 65535 ≡ 0
    → (lo * 256 + hi + (c % 256 * 256 + c / 256 % 256)) % 65535 ≡ 0
swapped_sum lo hi c hc h = omega arith

checksum-le : (i : ℕ) (m : Mem) → checksum i m ≤ 65535
unfolding checksum
checksum-le i m = omega arith

checksum_completes :
    (m : Mem)
    → HeaderIsBytes m
    → (m 14
          + m 16
          + m 18
          + m 20
          + m 22
          + m 26
          + m 28
          + m 30
          + m 32
          + 256 * (m 15 + m 17 + m 19 + m 21 + m 23 + m 27 + m 29 + m 31 + m 33)
          + checksum 14 (write_le16 24 0 m))
        % 65535
      ≡ 0
unfolding checksum
checksum_completes m h = omega (
  arith,
  sum_words-eq m h,
  folds_complete (sum_words 10 14 0 (write_le16 24 0 m)),
  h 14 (omega arith) (omega arith),
  h 15 (omega arith) (omega arith),
  h 16 (omega arith) (omega arith),
  h 17 (omega arith) (omega arith),
  h 18 (omega arith) (omega arith),
  h 19 (omega arith) (omega arith),
  h 20 (omega arith) (omega arith),
  h 21 (omega arith) (omega arith),
  h 22 (omega arith) (omega arith),
  h 23 (omega arith) (omega arith),
  h 26 (omega arith) (omega arith),
  h 27 (omega arith) (omega arith),
  h 28 (omega arith) (omega arith),
  h 29 (omega arith) (omega arith),
  h 30 (omega arith) (omega arith),
  h 31 (omega arith) (omega arith),
  h 32 (omega arith) (omega arith),
  h 33 (omega arith) (omega arith),
)

-- For an IP header of bytes at offset 14, a receiver's sum over the header, the new checksum
-- included, is a multiple of 65535.
pub header_sum-write_checksum :
    (m : Mem) → HeaderIsBytes m → header_sum 14 (write_checksum 14 m) % 65535 ≡ 0
unfolding write_checksum
header_sum-write_checksum m h = omega (
  arith,
  swapped_sum (m 14 + m 16 + m 18 + m 20 + m 22 + m 26 + m 28 + m 30 + m 32)
      (m 15 + m 17 + m 19 + m 21 + m 23 + m 27 + m 29 + m 31 + m 33)
      (checksum 14 (write_le16 24 0 m)) (checksum-le 14 (write_le16 24 0 m))
      (checksum_completes m h),
)
