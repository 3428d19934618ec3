-- ===== src/Watcher/Lines.antt =====
-- What a line of tshark's output leads to.
use cu_ebpf.Base.{
  ℕ, ◌<◌, ◌^◌, ◌≡◌, ◌≢◌, ◌⊎◌, inl, inr, Bool-cases, Option-cases, List, none, some, ◌==◌, arith,
}
use cu_ebpf.Session.{SessionMap, UpdateElem}
use cu_ebpf.Learner.{Learner}
use cu_ebpf.Watcher.{
  Inet, fields_of, skip_0x, parse_colon_hex_teid, f1ap_endpoint, f1ap_line, ngap_endpoint,
  ngap_line,
}
use cu_ebpf.Watcher.HexTeid.{parse_colon_hex_teid-lt}

-- A line is ignored, or names an endpoint: a TEID of 32 bits that is not 0, and an address that
-- inet_pton reads.
pub record Endpoint (inet : Inet) : Type 0 where
  pub ip : List ℕ
  pub teid : ℕ
  pub addr : ℕ
  pub fits : teid < 2 ^ 32
  pub nonzero : teid ≢ 0
  pub reads : inet.pton ip ≡ some addr

module _ (inet : Inet) (update : UpdateElem) (lm : Learner × SessionMap) where
  f1ap_fields :
      (line : List ℕ) (teid ip : List ℕ)
      → fields_of line ≡ some (teid, ip)
      → (f1ap_line inet update line lm ≡ lm)
        ⊎ ((x : Endpoint inet) × (f1ap_line inet update line lm
              ≡ f1ap_endpoint inet update x.ip x.teid x.addr lm))
  unfolding f1ap_line
  f1ap_fields line teid ip f = elim (Bool-cases (parse_colon_hex_teid teid == 0)) [
    | inl zero ↦ inl (rw (f, f1ap_line) (rw zero))
    | inr nonzero ↦ elim (Option-cases (inet.pton ip)) [
      | inl n ↦ inl (rw (f, f1ap_line) (rw nonzero (rw (n, f1ap_line))))
      | inr (a, r) ↦ inr (
        record {
          ip = ip;
          teid = parse_colon_hex_teid teid;
          addr = a;
          fits = parse_colon_hex_teid-lt teid;
          nonzero = ground arith;
          reads = r;
        },
        rw (f, f1ap_line) (rw nonzero (rw (r, f1ap_line))),
      )
    ]
  ]

  f1ap_skipped : (line : List ℕ) → fields_of line ≡ none → f1ap_line inet update line lm ≡ lm
  unfolding f1ap_line
  f1ap_skipped line n = rw (n, f1ap_line)

  -- The F1AP watcher ignores a line, or acts on the endpoint that it names.
  pub f1ap_line_cases :
      (line : List ℕ)
      → (f1ap_line inet update line lm ≡ lm)
        ⊎ ((x : Endpoint inet) × (f1ap_line inet update line lm
              ≡ f1ap_endpoint inet update x.ip x.teid x.addr lm))
  f1ap_line_cases line = elim (Option-cases (fields_of line)) [
    | inl n ↦ inl (f1ap_skipped line n)
    | inr (fields, f) ↦ f1ap_fields line fields.0 fields.1 f
  ]

  ngap_fields :
      (line : List ℕ) (teid ip : List ℕ)
      → fields_of line ≡ some (teid, ip)
      → (ngap_line inet update line lm ≡ lm)
        ⊎ ((x : Endpoint inet) × (ngap_line inet update line lm
              ≡ ngap_endpoint inet update x.ip x.teid x.addr lm))
  unfolding ngap_line
  ngap_fields line teid ip f = elim (Bool-cases (parse_colon_hex_teid (skip_0x teid) == 0)) [
    | inl zero ↦ inl (rw (f, ngap_line) (rw zero))
    | inr nonzero ↦ elim (Option-cases (inet.pton ip)) [
      | inl n ↦ inl (rw (f, ngap_line) (rw nonzero (rw (n, ngap_line))))
      | inr (a, r) ↦ inr (
        record {
          ip = ip;
          teid = parse_colon_hex_teid (skip_0x teid);
          addr = a;
          fits = parse_colon_hex_teid-lt (skip_0x teid);
          nonzero = ground arith;
          reads = r;
        },
        rw (f, ngap_line) (rw nonzero (rw (r, ngap_line))),
      )
    ]
  ]

  ngap_skipped : (line : List ℕ) → fields_of line ≡ none → ngap_line inet update line lm ≡ lm
  unfolding ngap_line
  ngap_skipped line n = rw (n, ngap_line)

  -- So does the NGAP watcher.
  pub ngap_line_cases :
      (line : List ℕ)
      → (ngap_line inet update line lm ≡ lm)
        ⊎ ((x : Endpoint inet) × (ngap_line inet update line lm
              ≡ ngap_endpoint inet update x.ip x.teid x.addr lm))
  ngap_line_cases line = elim (Option-cases (fields_of line)) [
    | inl n ↦ inl (ngap_skipped line n)
    | inr (fields, f) ↦ ngap_fields line fields.0 fields.1 f
  ]
