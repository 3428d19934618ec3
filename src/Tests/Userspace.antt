-- ===== src/Tests/Userspace.antt =====
-- The theorems on the userspace program and on the two programs together, at concrete inputs.
use cu_ebpf.Base.{◌≡◌, ◌+◌, ◌%◌, ◌^◌, refl, true, some, arith}
use cu_ebpf.Session.{SessionCtx}
use cu_ebpf.Xdp.{pass}
use cu_ebpf.Parse.{parse_g_pdu}
use cu_ebpf.Parse.Shapes.{F1uParsed}
use cu_ebpf.Program.{parse_gtpu}
use cu_ebpf.Program.Redirect.{parsed}
use cu_ebpf.Program.Delivery.{DeliversF1u}
use cu_ebpf.Learner.{Learner}
use cu_ebpf.Watcher.{du_mac_refresh, ngap_endpoint}
use cu_ebpf.Watcher.Learning.{learned, stale_mac}
use cu_ebpf.System.{System, Reach, here, after, du_mac, receive}
use cu_ebpf.System.Entries.{never_seeds, count_redirected, Reach-counts}
use cu_ebpf.System.Validity.{IsValid, Reach-IsValid}
use cu_ebpf.System.Baseline.{baseline_passes}
use cu_ebpf.System.Delivery.{reached-DeliversF1u}
use cu_ebpf.Tests.{
  inet, update, update-IsUpdateElem, update-HasRoom, platform, platform-IsPlatform, upf_text,
  kernel, learner, dl_entry, mac, system, system-IsValid, baseline, baseline-IsBaseline, n3_packet,
  n3_packet-IsBytes,
}
use cu_ebpf.Tests.Runs.{n3_redirected, n3_parsed}

-- The DU's MAC address has been found.
abbrev with_du : System
with_du = record system { learner = record learner { du_mac = mac 3; du_mac_valid = true } }

to_with_du : Reach platform system with_du
unfolding du_mac_refresh
to_with_du = after here (du_mac system (some (mac 3)))

reached-DeliversF1u_example :
    (sess : SessionCtx) × (kernel.session_map (parsed kernel n3_packet).0.teid ≡ some sess)
    × DeliversF1u sess n3_packet
        (parsed kernel n3_packet)
        (parse_gtpu platform.helpers kernel n3_packet).packet
    × F1uParsed
        (parse_gtpu platform.helpers kernel n3_packet).packet
        (parse_g_pdu 1 (parse_gtpu platform.helpers kernel n3_packet).packet)
reached-DeliversF1u_example =
    reached-DeliversF1u n3_packet 4 1 platform-IsPlatform system-IsValid to_with_du
      n3_packet-IsBytes n3_redirected n3_parsed

baseline_goes_on :
    Reach platform baseline (record baseline {
      learner = record baseline.learner { du_mac = mac 3; du_mac_valid = true };
    })
unfolding du_mac_refresh
baseline_goes_on = after here (du_mac baseline (some (mac 3)))

baseline_passes_example :
    ((parse_gtpu platform.helpers baseline.kernel n3_packet).verdict ≡ pass)
    × ((parse_gtpu platform.helpers baseline.kernel n3_packet).packet ≡ n3_packet)
baseline_passes_example = baseline_passes n3_packet baseline-IsBaseline baseline_goes_on

Reach-IsValid_example : IsValid with_du
Reach-IsValid_example = Reach-IsValid platform-IsPlatform system-IsValid to_with_du

-- The state behind a packet of TEID 7, which is redirected.
abbrev with_sent : System
with_sent = record with_du { kernel = (parse_gtpu platform.helpers kernel n3_packet).state }

-- The packet comes twice.
abbrev twice :
    Reach platform with_du
      (record with_sent { kernel = (parse_gtpu platform.helpers with_sent.kernel n3_packet).state })
twice = after (after here (receive with_du n3_packet)) (receive with_sent n3_packet)

Reach-counts_example :
    (parse_gtpu platform.helpers with_sent.kernel n3_packet).state.session_map 7
    ≡ some (record dl_entry {
      next_dl_pdcp_sn = (dl_entry.next_dl_pdcp_sn + count_redirected 7 twice) % 2 ^ 32;
    })
unfolding never_seeds
Reach-counts_example = Reach-counts 7 dl_entry twice update-IsUpdateElem refl (omega arith) refl

-- Both endpoints of the uplink are known, and the UPF's MAC address.
abbrev with_upf : Learner
with_upf = record (learned 0x11 0x99 0x0a000009 learner) { upf_mac = mac 9; upf_mac_valid = true }

stale_mac_example :
    (sess : SessionCtx) × ((ngap_endpoint inet update upf_text 0x55 0x0a00000a
          (with_upf, kernel.ul_session_map)).1
        0x11
      ≡ some sess)
    × (sess.dst_ip ≡ 0x0a00000a)
    × (sess.dst_mac ≡ mac 9)
    × (sess.ready ≡ true)
stale_mac_example =
    stale_mac inet update update-HasRoom with_upf kernel.ul_session_map 0x55 0x0a00000a upf_text
      refl refl refl refl refl
