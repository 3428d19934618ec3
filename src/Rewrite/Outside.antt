-- ===== src/Rewrite/Outside.antt =====
-- The header writes stay in front of the payload, and write bytes.
use cu_ebpf.Base.{ℕ, ◌+◌, ◌≤◌, ◌≡◌, ◌∙◌, arith}
use cu_ebpf.Packet.{Mem}
use cu_ebpf.Packet.Checksum.{write_checksum}
use cu_ebpf.Session.{SessionCtx}
use cu_ebpf.Rewrite.{
  write_route, write_lengths, write_checks, write_headers, write_pdcp_sdap, write_container,
}

write_route-outside :
    (flags j : ℕ) (sess : SessionCtx) (m : Mem) → 43 ≤ j → write_route 20 flags sess m j ≡ m j
unfolding write_route
write_route-outside flags j sess m h = ground arith

write_lengths-outside :
    (hdr_bytes len j : ℕ) (sess : SessionCtx) (m : Mem)
    → 50 ≤ j
    → write_lengths 20 hdr_bytes len sess m j ≡ m j
unfolding write_lengths
write_lengths-outside hdr_bytes len j sess m h = ground arith

write_checks-outside : (j : ℕ) (m : Mem) → 42 ≤ j → write_checks 20 m j ≡ m j
unfolding write_checks write_checksum
write_checks-outside j m h = ground arith

pub write_headers-outside :
    (flags hdr_bytes len j : ℕ) (sess : SessionCtx) (m : Mem)
    → 50 ≤ j
    → write_headers 20 flags hdr_bytes len sess m j ≡ m j
unfolding write_headers
write_headers-outside flags hdr_bytes len j sess m h =
    let routed : Mem = write_route 20 flags sess m in
    write_checks-outside j (write_lengths 20 hdr_bytes len sess routed) (omega arith)
    ∙ write_lengths-outside hdr_bytes len j sess routed h
    ∙ write_route-outside flags j sess m (omega arith)

pub write_pdcp_sdap-outside :
    (i sn qfi j : ℕ) (m : Mem) → i + 4 ≤ j → write_pdcp_sdap i sn qfi m j ≡ m j
unfolding write_pdcp_sdap
write_pdcp_sdap-outside i sn qfi j m h = ground arith

pub write_container-outside : (i qfi j : ℕ) (m : Mem) → i + 8 ≤ j → write_container i qfi m j ≡ m j
unfolding write_container
write_container-outside i qfi j m h = ground arith
