-- ===== src/Tests/Switching.antt =====
-- The theorems on extension headers and on the switch, at concrete packets.
use cu_ebpf.Base.{◌≡◌, refl, true, [], ◌∷◌, some, arith}
use cu_ebpf.Session.{SessionCtx}
use cu_ebpf.Event.{zero_event}
use cu_ebpf.Parse.{walk_extensions, parse_g_pdu}
use cu_ebpf.Parse.Chain.{walk_extensions-ends}
use cu_ebpf.Parse.Extensions.{Walked, parse_g_pdu-Walked}
use cu_ebpf.Parse.Shapes.{N3Parsed}
use cu_ebpf.Program.{parse_gtpu}
use cu_ebpf.Program.Redirect.{parsed}
use cu_ebpf.Program.Delivery.{DeliversN3}
use cu_ebpf.Switch.{forward_offered, forward_all}
use cu_ebpf.Switch.Views.{offered, switch_of, left_by}
use cu_ebpf.Switch.Refines.{
  Serves, IsPlain, offers, run_left, parse_gtpu-forward_offered, run_left-forward_all,
}
use cu_ebpf.System.{here}
use cu_ebpf.System.Delivery.{reached-DeliversN3}
use cu_ebpf.Tests.{
  tail-IsAdjustTail, tail-CanResize, helpers, kernel, kernel-ServesF1u, kernel-ServesN3, platform,
  platform-IsPlatform, system, system-IsValid, n3_packet, f1u_packet, n3_packet-IsBytes,
  f1u_packet-IsBytes,
}
use cu_ebpf.Tests.Runs.{f1u_redirected, f1u_parsed}

-- The packet has one extension header, a PDU Session Container of four bytes.
walk_extensions-ends_example :
    walk_extensions 7 n3_packet (record zero_event { flag_e = true }) 54 0x85
    ≡ walk_extensions 40 n3_packet (record zero_event { flag_e = true }) 54 0x85
walk_extensions-ends_example =
    walk_extensions-ends 7 40 n3_packet (record zero_event { flag_e = true }) 54 0x85 (omega arith)
      (omega arith) (omega arith)

parse_g_pdu-Walked_example : Walked (parse_g_pdu 1 n3_packet) (0x85 ∷ []) 58
parse_g_pdu-Walked_example =
    parse_g_pdu-Walked 1 n3_packet refl (omega arith) (0x85 ∷ []) 58 (omega arith) (omega arith)

kernel-Serves : Serves kernel
kernel-Serves = record { dl = kernel-ServesF1u; ul = kernel-ServesN3 }

n3_packet-IsPlain : IsPlain n3_packet
n3_packet-IsPlain = record { bytes = n3_packet-IsBytes; source = omega arith }

f1u_packet-IsPlain : IsPlain f1u_packet
f1u_packet-IsPlain = record { bytes = f1u_packet-IsBytes; source = omega arith }

parse_gtpu-forward_offered_example :
    left_by (parse_gtpu helpers kernel n3_packet)
    ≡ forward_offered (switch_of kernel) (offered n3_packet)
parse_gtpu-forward_offered_example =
    parse_gtpu-forward_offered helpers tail-IsAdjustTail tail-CanResize kernel n3_packet refl
      kernel-Serves n3_packet-IsPlain

run_left-forward_all_example :
    run_left helpers kernel (n3_packet ∷ f1u_packet ∷ [])
    ≡ forward_all (switch_of kernel) (offers (n3_packet ∷ f1u_packet ∷ []))
run_left-forward_all_example =
    run_left-forward_all helpers kernel (n3_packet ∷ f1u_packet ∷ []) tail-IsAdjustTail
      tail-CanResize (λ es. refl) kernel-Serves (n3_packet-IsPlain, (f1u_packet-IsPlain, tt))

reached-DeliversN3_example :
    (sess : SessionCtx) × (kernel.ul_session_map (parsed kernel f1u_packet).0.teid ≡ some sess)
    × (sess.ready ≡ true)
    × DeliversN3 sess f1u_packet
        (parsed kernel f1u_packet)
        (parse_gtpu platform.helpers kernel f1u_packet).packet
    × N3Parsed
        (parse_gtpu platform.helpers kernel f1u_packet).packet
        (parse_g_pdu 1 (parse_gtpu platform.helpers kernel f1u_packet).packet)
reached-DeliversN3_example =
    reached-DeliversN3 {s = system} f1u_packet 4 1 platform-IsPlatform system-IsValid here
      f1u_packet-IsBytes (omega arith) f1u_redirected f1u_parsed
