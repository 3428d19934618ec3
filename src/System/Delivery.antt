-- ===== src/System/Delivery.antt =====
-- What leaves the fast path of the running system.
use cu_ebpf.Base.{ℕ, ◌≡◌, ◌≢◌, true, false, some}
use cu_ebpf.Packet.{Packet, IsBytes, be16}
use cu_ebpf.Session.{SessionCtx}
use cu_ebpf.Xdp.{redirect}
use cu_ebpf.Parse.{parse_g_pdu}
use cu_ebpf.Parse.Shapes.{F1uParsed, N3Parsed}
use cu_ebpf.Program.{parse_gtpu}
use cu_ebpf.Program.Redirect.{parsed}
use cu_ebpf.Program.Delivery.{DeliversF1u, redirect-DeliversF1u, DeliversN3, redirect-DeliversN3}
use cu_ebpf.System.{Platform, System, Reach}
use cu_ebpf.System.Validity.{IsValid, IsPlatform, Reach-IsValid}

-- In every state that the two programs reach from a valid one, a redirected N3 packet leaves as a
-- correct F1-U packet for the session that session_map has under its TEID, with the bytes from the
-- parser's cursor on unchanged at its end, and reads back as such. Assumed: the kernel's helpers
-- and inet_pton keep their word, and the packet's cells are bytes.
pub reached-DeliversF1u :
    {pl : Platform} {s t : System} (p : Packet) (i count : ℕ)
    → IsPlatform pl
    → IsValid s
    → Reach pl s t
    → IsBytes p.at
    → (parse_gtpu pl.helpers t.kernel p).verdict ≡ redirect i
    → (parsed t.kernel p).0.is_f1u ≡ false
    → let q = (parse_gtpu pl.helpers t.kernel p).packet in
      (sess : SessionCtx) × (t.kernel.session_map (parsed t.kernel p).0.teid ≡ some sess)
      × DeliversF1u sess p (parsed t.kernel p) q
      × F1uParsed q (parse_g_pdu count q)
reached-DeliversF1u {pl} {s} {t} p i count is v r bytes redirected n3 =
    redirect-DeliversF1u pl.helpers t.kernel p i is.tail bytes (Reach-IsValid is v r).dl redirected
      n3 count

-- In every state that the two programs reach from a valid one, a redirected F1-U packet leaves as a
-- correct N3 packet for the ready session that ul_session_map has under its TEID, with the bytes
-- from the parser's cursor on unchanged at its end, and reads back as such. Assumed: the kernel's
-- helpers and inet_pton keep their word, the packet's cells are bytes, and its source port, which
-- is not rewritten, is not 2153.
pub reached-DeliversN3 :
    {pl : Platform} {s t : System} (p : Packet) (i count : ℕ)
    → IsPlatform pl
    → IsValid s
    → Reach pl s t
    → IsBytes p.at
    → be16 p.at 34 ≢ 2153
    → (parse_gtpu pl.helpers t.kernel p).verdict ≡ redirect i
    → (parsed t.kernel p).0.is_f1u ≡ true
    → let q = (parse_gtpu pl.helpers t.kernel p).packet in
      (sess : SessionCtx) × (t.kernel.ul_session_map (parsed t.kernel p).0.teid ≡ some sess)
      × (sess.ready ≡ true)
      × DeliversN3 sess p (parsed t.kernel p) q
      × N3Parsed q (parse_g_pdu count q)
reached-DeliversN3 {pl} {s} {t} p i count is v r bytes source redirected f1u =
    redirect-DeliversN3 pl.helpers t.kernel p i is.tail bytes (Reach-IsValid is v r).ul source
      redirected f1u count
