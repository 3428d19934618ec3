-- ===== src/Watcher/Heard.antt =====
-- What the watcher threads know after a transcript of endpoints.
use cu_ebpf.Base.{
  ℕ, ◌≡◌, ◌≢◌, ◌∙◌, ap, refl, Bool, true, not, ◌&&◌, List, [], ◌∷◌, Option, none, some,
  if◌then◌else◌, length, arith, ◌<◌, ◌/◌, ◌%◌,
}
use cu_ebpf.Session.{SessionMap, UpdateElem}
use cu_ebpf.Learner.{Learner}
use cu_ebpf.Watcher.{
  Inet, fields_of, str_eq, du_ip, f1ap_endpoint, f1ap_line, ngap_endpoint, ngap_line, skip_0x,
}
use cu_ebpf.Watcher.HexTeid.{print_teid, hex_digit, parse-print_teid}
use cu_ebpf.Watcher.Stream.{f1ap_watcher_thread, ngap_watcher_thread}
use cu_ebpf.Watcher.Transcript.{
  Announcement, print_fields, with_newline, transcript, hear_all, fields_of-print_fields,
  print_teid-Printable, read_lines-transcript,
}

abbrev pub later : {A : Type 0} → Option A → Option A → Option A
later x none = x
later x (some y) = some y

-- The last endpoint whose address passes a test.
abbrev pub last :
    {inet : Inet} → (List ℕ → Bool) → List (Announcement inet) → Option (Announcement inet)
last test [] = none
last test (x ∷ xs) = later (if test x.ip then some x else none) (last test xs)

abbrev pub is_du : List ℕ → Bool
is_du ip = str_eq ip du_ip

-- Our own address, which is not the DU's.
abbrev pub is_own : List ℕ → List ℕ → Bool
is_own own ip = not (str_eq ip du_ip) && str_eq ip own

abbrev pub is_other : List ℕ → List ℕ → Bool
is_other own ip = not (str_eq ip own)

abbrev pub with_dl : {inet : Inet} → Option (Announcement inet) → Learner → Learner
with_dl none l = l
with_dl (some x) l = record l { f1u_dl_teid = x.teid; f1u_dl_ip = x.addr; f1u_dl_known = true }

abbrev pub with_f1u : {inet : Inet} → Option (Announcement inet) → Learner → Learner
with_f1u none l = l
with_f1u (some x) l = record l { f1u_ul_teid = x.teid; f1u_ul_known = true }

abbrev pub with_n3 : {inet : Inet} → Option (Announcement inet) → Learner → Learner
with_n3 none l = l
with_n3 (some x) l = record l { n3_ul_teid = x.teid; n3_ul_ip = x.addr; n3_ul_known = true }

hex_digit-ne-x : (n : ℕ) → n < 16 → (hex_digit n ≢ b'x') × (hex_digit n ≢ b'X')
hex_digit-ne-x n h = ground arith

-- The second character of a printed TEID is a digit.
skip_0x-print_teid : (t : ℕ) → skip_0x (print_teid t) ≡ print_teid t
unfolding skip_0x
skip_0x-print_teid t = ground (arith, hex_digit-ne-x (t / 16777216 % 16))

module _ (inet : Inet) (update : UpdateElem) where
  -- The text of an endpoint's line.
  abbrev line_of : Announcement inet → List ℕ
  line_of x = with_newline (print_fields (print_teid x.teid) x.ip) []

  fields_of-line_of :
      (x : Announcement inet) → fields_of (line_of x) ≡ some (print_teid x.teid, x.ip)
  fields_of-line_of x =
      fields_of-print_fields (print_teid x.teid) x.ip (print_teid-Printable x.teid) x.printable refl
        x.there (omega arith) x.short

  f1ap_line-line_of :
      (x : Announcement inet) (lm : Learner × SessionMap)
      → f1ap_line inet update (line_of x) lm ≡ f1ap_endpoint inet update x.ip x.teid x.addr lm
  unfolding f1ap_line
  f1ap_line-line_of x lm =
      ground (arith, fields_of-line_of x, parse-print_teid x.teid x.fits, x.nonzero, x.reads)

  ngap_line-line_of :
      (x : Announcement inet) (lm : Learner × SessionMap)
      → ngap_line inet update (line_of x) lm ≡ ngap_endpoint inet update x.ip x.teid x.addr lm
  unfolding ngap_line
  ngap_line-line_of x lm = ground (
    arith,
    fields_of-line_of x,
    skip_0x-print_teid x.teid,
    parse-print_teid x.teid x.fits,
    x.nonzero,
    x.reads,
  )

  -- What one endpoint teaches the F1AP watcher.
  f1ap_endpoint-learner :
      (x : Announcement inet) (l : Learner) (m : SessionMap)
      → (f1ap_endpoint inet update x.ip x.teid x.addr (l, m)).0 ≡ (
          if is_du x.ip
          then with_dl (some x) l
          else if is_own (inet.ntop l.own_ip) x.ip
          then with_f1u (some x) l
          else l)
  unfolding f1ap_endpoint
  f1ap_endpoint-learner x l m = ground arith

  ngap_endpoint-learner :
      (x : Announcement inet) (l : Learner) (m : SessionMap)
      → (ngap_endpoint inet update x.ip x.teid x.addr (l, m)).0
        ≡ (if is_other (inet.ntop l.own_ip) x.ip then with_n3 (some x) l else l)
  unfolding ngap_endpoint
  ngap_endpoint-learner x l m = ground arith

  f1ap_later :
      (x : Announcement inet) (d o : Option (Announcement inet)) (l : Learner) (own : List ℕ)
      → with_f1u o (
          with_dl d (
            if is_du x.ip
            then with_dl (some x) l
            else if is_own own x.ip
            then with_f1u (some x) l
            else l))
        ≡ with_f1u
            (later (if is_own own x.ip then some x else none) o)
            (with_dl (later (if is_du x.ip then some x else none) d) l)
  f1ap_later x none none l own = ground arith
  f1ap_later x none (some b) l own = ground arith
  f1ap_later x (some a) none l own = ground arith
  f1ap_later x (some a) (some b) l own = ground arith

  f1ap_endpoint-own :
      (x : Announcement inet) (lm : Learner × SessionMap)
      → (f1ap_endpoint inet update x.ip x.teid x.addr lm).0.own_ip ≡ lm.0.own_ip
  unfolding f1ap_endpoint
  f1ap_endpoint-own x (l, m) = ground arith

  f1ap_hears :
      (xs : List (Announcement inet)) (lm : Learner × SessionMap) (own : List ℕ)
      → inet.ntop lm.0.own_ip ≡ own
      → (hear_all (f1ap_line inet update) xs lm).0
        ≡ with_f1u (last (is_own own) xs) (with_dl (last is_du xs) lm.0)
  f1ap_hears [] lm own same = refl
  f1ap_hears (x ∷ xs) (l, m) own same =
      let next = f1ap_endpoint inet update x.ip x.teid x.addr (l, m) in
      let knows = λ (l' : Learner). with_f1u (last (is_own own) xs) (with_dl (last is_du xs) l') in
      ap (λ (s : Learner × SessionMap). (hear_all (f1ap_line inet update) xs s).0)
        (f1ap_line-line_of x (l, m))
      ∙ f1ap_hears xs next own (ap inet.ntop (f1ap_endpoint-own x (l, m)) ∙ same)
      ∙ ap knows (f1ap_endpoint-learner x l m)
      ∙ rw same (f1ap_later x (last is_du xs) (last (is_own own) xs) l own)

  ngap_later :
      (x : Announcement inet) (o : Option (Announcement inet)) (l : Learner) (own : List ℕ)
      → with_n3 o (if is_other own x.ip then with_n3 (some x) l else l)
        ≡ with_n3 (later (if is_other own x.ip then some x else none) o) l
  ngap_later x none l own = ground arith
  ngap_later x (some a) l own = ground arith

  ngap_endpoint-own :
      (x : Announcement inet) (lm : Learner × SessionMap)
      → (ngap_endpoint inet update x.ip x.teid x.addr lm).0.own_ip ≡ lm.0.own_ip
  unfolding ngap_endpoint
  ngap_endpoint-own x (l, m) = ground arith

  ngap_hears :
      (xs : List (Announcement inet)) (lm : Learner × SessionMap) (own : List ℕ)
      → inet.ntop lm.0.own_ip ≡ own
      → (hear_all (ngap_line inet update) xs lm).0 ≡ with_n3 (last (is_other own) xs) lm.0
  ngap_hears [] lm own same = refl
  ngap_hears (x ∷ xs) (l, m) own same =
      let next = ngap_endpoint inet update x.ip x.teid x.addr (l, m) in
      ap (λ (s : Learner × SessionMap). (hear_all (ngap_line inet update) xs s).0)
        (ngap_line-line_of x (l, m))
      ∙ ngap_hears xs next own (ap inet.ntop (ngap_endpoint-own x (l, m)) ∙ same)
      ∙ ap (with_n3 (last (is_other own) xs)) (ngap_endpoint-learner x l m)
      ∙ rw same (ngap_later x (last (is_other own) xs) l own)

  -- After the text that tshark prints of any sequence of endpoints, byte by byte through fgets, the
  -- F1AP watcher has the downlink tunnel of the last endpoint at the DU's address and the uplink TEID
  -- of the last one at the CU's own, and the NGAP watcher the uplink tunnel of the last endpoint that
  -- is not the CU's own; what was not announced, and everything else, is as it was. An endpoint is a
  -- line of a TEID of 32 bits other than 0, as octets between colons, a tab, and a text of 1 to 63
  -- printable bytes that inet_pton reads.
  pub threads_hear :
      (xs : List (Announcement inet)) (l : Learner) (m : SessionMap)
      → let own = inet.ntop l.own_ip in
        ((f1ap_watcher_thread inet update (some (transcript xs)) (l, m)).0
          ≡ with_f1u (last (is_own own) xs) (with_dl (last is_du xs) l))
        × ((ngap_watcher_thread inet update (some (transcript xs)) (l, m)).0
            ≡ with_n3 (last (is_other own) xs) l)
  unfolding f1ap_watcher_thread ngap_watcher_thread
  threads_hear xs l m = (
    ap (λ (s : Learner × SessionMap). s.0)
          (read_lines-transcript (f1ap_line inet update) xs (length (transcript xs)) (l, m)
            (omega arith))
        ∙ f1ap_hears xs (l, m) _ refl,
    ap (λ (s : Learner × SessionMap). s.0)
          (read_lines-transcript (ngap_line inet update) xs (length (transcript xs)) (l, m)
            (omega arith))
        ∙ ngap_hears xs (l, m) _ refl,
  )
