-- ===== src/Parse/Bounds.antt =====
-- Where the parser of parse_gtpu leaves its cursor, and what it does to the event's header fields.
use cu_ebpf.Base.{ℕ, zero, suc, ◌≤◌, ◌≡◌, true, false, not, ◌||◌, ◌&&◌, ◌==◌, if◌then◌else◌, arith}
use cu_ebpf.Packet.{Packet}
use cu_ebpf.Event.{GtpEvent}
use cu_ebpf.Parse.{
  Flow, submit, next, gtp_end, is_g_pdu, header_event, parse_optional, walk_extension,
  walk_extensions, parse_f1u, after_f1u, after_walk, after_optional, parse_g_pdu,
  max_extension_headers,
}

-- The fields of the mandatory header, and what the offload blocks have not touched yet.
pub record SameHeader (e e' : GtpEvent) : Type 0 where
  pub teid : e'.teid ≡ e.teid
  pub is_gtpu : e'.is_gtpu ≡ e.is_gtpu
  pub is_f1u : e'.is_f1u ≡ e.is_f1u
  pub flag_e : e'.flag_e ≡ e.flag_e
  pub applied : e'.offload_applied ≡ e.offload_applied
  pub gtpu_count : e'.gtpu_count ≡ e.gtpu_count
  pub udp_count : e'.udp_non_gtpu_count ≡ e.udp_non_gtpu_count

-- A stage leaves the cursor between where it found it and data_end, and the header fields alone.
pub record Within (p : Packet) (low : ℕ) (e e' : GtpEvent) (cursor : ℕ) : Type 0 where
  pub above : low ≤ cursor
  pub below : cursor ≤ p.len
  pub header : SameHeader e e'

abbrev FlowWithin : Packet → ℕ → GtpEvent → Flow → Type 0
FlowWithin p low e (submit e' c) = Within p low e e' c
FlowWithin p low e (next e' c n) = Within p low e e' c

parse_optional-Within :
    (p : Packet) (e : GtpEvent) (c : ℕ) → c ≤ p.len → FlowWithin p c e (parse_optional p e c)
unfolding parse_optional
parse_optional-Within p e c h = ground arith

walk_extension-Within :
    (p : Packet) (e : GtpEvent) (c n : ℕ) → c ≤ p.len → FlowWithin p c e (walk_extension p e c n)
unfolding walk_extension
walk_extension-Within p e c n h = ground arith

walk_extensions-Within :
    (rounds : ℕ) (p : Packet) (e : GtpEvent) (c n : ℕ)
    → c ≤ p.len
    → FlowWithin p c e (walk_extensions rounds p e c n)
unfolding walk_extensions
walk_extensions-Within zero p e c n h = ground arith
walk_extensions-Within (suc r) p e c n h =
    step (walk_extension p e c n) (walk_extension-Within p e c n h) (walk_extensions-Within r p)
  where
    step :
        (f : Flow)
        → FlowWithin p c e f
        → ((e' : GtpEvent) (c' n' : ℕ)
            → c' ≤ p.len
            → FlowWithin p c' e' (walk_extensions r p e' c' n'))
        → FlowWithin p c e (elim (not e.flag_e || n == 0) [
          | true ↦ next e c n
          | false ↦ elim f [
            | submit e' c' ↦ submit e' c'
            | next e' c' n' ↦ walk_extensions r p e' c' n'
          ]
        ])
    step (submit e' c') w rest = ground arith
    step (next e' c' n') w rest = ground (arith, rest e' c' n' w.below)

parse_f1u-Within :
    (p : Packet) (e : GtpEvent) (c : ℕ) → c ≤ p.len → FlowWithin p c e (parse_f1u p e c)
unfolding parse_f1u
parse_f1u-Within p e c h = ground arith

abbrev PairWithin : Packet → ℕ → GtpEvent → GtpEvent × ℕ → Type 0
PairWithin p low e r = Within p low e r.0 r.1

after_f1u-Within :
    (p : Packet) (low : ℕ) (e : GtpEvent) (f : Flow)
    → FlowWithin p low e f
    → PairWithin p low e (after_f1u p f)
unfolding after_f1u
after_f1u-Within p low e (submit e' c) w = w
after_f1u-Within p low e (next e' c n) w = ground arith

after_walk-Within :
    (p : Packet) (low : ℕ) (e : GtpEvent) (f : Flow)
    → FlowWithin p low e f
    → PairWithin p low e (after_walk p f)
unfolding after_walk
after_walk-Within p low e (submit e' c) w = w
after_walk-Within p low e (next e' c n) w =
    after_test (parse_f1u p e' c) (parse_f1u-Within p e' c w.below)
  where
    after_test :
        (f : Flow)
        → FlowWithin p c e' f
        → PairWithin p low e (if e'.flag_e && not (n == 0) then (e', c) else after_f1u p f)
    after_test f v = ground (arith, after_f1u-Within p c e' f v)

after_optional-Within :
    (p : Packet) (low : ℕ) (e : GtpEvent) (f : Flow)
    → FlowWithin p low e f
    → PairWithin p low e (after_optional p f)
unfolding after_optional
after_optional-Within p low e (submit e' c) w = w
after_optional-Within p low e (next e' c n) w = ground (
  arith,
  after_walk-Within p c e' (walk_extensions max_extension_headers p e' c n)
      (walk_extensions-Within max_extension_headers p e' c n w.below),
)

-- For a G-PDU the parser ends with its cursor between the end of the mandatory GTP-U header and
-- data_end, and has not changed the TEID, the E flag, the classification, the counters and
-- offload_applied of the event.
pub parse_g_pdu-Within :
    (count : ℕ) (p : Packet)
    → is_g_pdu p ≡ true
    → Within p (gtp_end p) (header_event count p) (parse_g_pdu count p).0 (parse_g_pdu count p).1
unfolding parse_g_pdu is_g_pdu
parse_g_pdu-Within count p h =
    after_optional-Within p (gtp_end p) (header_event count p) _
      (parse_optional-Within p (header_event count p) (gtp_end p) (ground arith))
