-- ===== src/Scitt/Token/Payload.antt =====
-- verify/scitt/status_token.go: what decoding leaves in a payload.
use mathlib.Core.Path.{subst}
use alibaba_ati_golang_sdk.Base.{
  ℕ, suc, ◌≤◌, ◌≡◌, true, false, List, [], ◌∷◌, Option, none, some, Bytes, arith, bytes_eq,
  is_empty, length, All, ok, Bool-cases, inl, inr, bind_ok, ensure_then, require_then, ok_eq,
  false_of_not, leb,
}
use alibaba_ati_golang_sdk.Base.Int.{int_eq, pos}
use alibaba_ati_golang_sdk.Scitt.Types.{CertEntry, StatusTokenPayload}
use alibaba_ati_golang_sdk.Scitt.Cose.{Cbor, AnyMap}
use alibaba_ati_golang_sdk.Scitt.Token.{
  zero_fingerprint, cert_entry, keep_entry, decode_entries, decode_cert_array, cert_array_at,
  decode_payload_fields, decode_status_payload,
}

-- A certificate that is no blank.
abbrev pub IsEntry : CertEntry → Type 0
IsEntry e = bytes_eq e.fingerprint zero_fingerprint ≡ false

abbrev pub IsCertArray : List CertEntry → Type 0
IsCertArray es = All IsEntry es × (length es ≤ 128)

-- The required fields are there, and the arrays are bounded and without blanks.
pub record IsComplete (p : StatusTokenPayload) : Type 0 where
  pub agent_id : is_empty p.agent_id ≡ false
  pub ati_name : is_empty p.ati_name ≡ false
  pub status : is_empty p.status ≡ false
  pub exp : int_eq p.exp (pos 0) ≡ false
  pub identity : IsCertArray p.valid_identity_certs
  pub server : IsCertArray p.valid_server_certs

le_128 : (m n : ℕ) → m ≤ n → leb n 128 ≡ true → m ≤ 128
le_128 m n h b = ground arith

module _ (c : Cbor) where
  keep-All :
      (m : Option AnyMap) (es : List CertEntry)
      → All IsEntry es
      → All IsEntry (keep_entry c m es) × (length (keep_entry c m es) ≤ suc (length es))
  keep-All none es h = (h, omega arith)
  keep-All (some m) es h =
      elim (Bool-cases (bytes_eq (cert_entry c m).fingerprint zero_fingerprint)) [
        | inl e ↦ rw e (h, omega arith)
        | inr e ↦ rw e ((e, h), omega arith)
      ]

  entries-All :
      (items : List Bytes)
      → All IsEntry (decode_entries c items) × (length (decode_entries c items) ≤ length items)
  unfolding decode_entries
  entries-All [] = (tt, omega arith)
  entries-All (i ∷ is) =
      let (a, l) = entries-All is in
      let (b, k) = keep-All (c.any_map i) (decode_entries c is) a in (b, omega (arith, l, k))

  array-IsCertArray :
      (raw : Bytes) (es : List CertEntry) → decode_cert_array c raw ≡ ok es → IsCertArray es
  unfolding decode_cert_array
  array-IsCertArray raw es h =
      let (items, r, h) = require_then _ _ _ es h in
      let (b, h) = ensure_then _ _ _ es h in
      let (a, l) = entries-All items in
      subst IsCertArray (ok_eq (decode_entries c items) es h)
        (a, le_128 (length (decode_entries c items)) (length items) l b)

  field-IsCertArray :
      (raw : Option Bytes) (es : List CertEntry) → cert_array_at c raw ≡ ok es → IsCertArray es
  unfolding cert_array_at
  field-IsCertArray none es h = subst IsCertArray (ok_eq [] es h) (tt, omega arith)
  field-IsCertArray (some raw) es h = array-IsCertArray raw es h

  abbrev HasArrays : StatusTokenPayload → Type 0
  HasArrays p = IsCertArray p.valid_identity_certs × IsCertArray p.valid_server_certs

  fields-HasArrays :
      (m : AnyMap) (p : StatusTokenPayload) → decode_payload_fields c m ≡ ok p → HasArrays p
  unfolding decode_payload_fields
  fields-HasArrays m p h =
      let (identity, a, h) = bind_ok _ _ p h in
      let (server, b, h) = bind_ok _ _ p h in
      subst HasArrays (ok_eq _ p h) (field-IsCertArray _ identity a, field-IsCertArray _ server b)

  -- A decoded payload has an agent ID, a name, a status and an exp claim, and at most 128 certificates in each
  -- array, none of them with the zero fingerprint.
  pub decode-IsComplete :
      (bytes : Bytes) (p : StatusTokenPayload) → decode_status_payload c bytes ≡ ok p → IsComplete p
  unfolding decode_status_payload
  decode-IsComplete bytes p h =
      let (e, h) = ensure_then _ _ _ p h in
      let (m, r, h) = require_then _ _ _ p h in
      let (q, d, h) = bind_ok _ _ p h in
      let (agent, h) = ensure_then _ _ _ p h in
      let (status, h) = ensure_then _ _ _ p h in
      let (exp, h) = ensure_then _ _ _ p h in
      let (name, h) = ensure_then _ _ _ p h in
      let (identity, server) = fields-HasArrays m q d in
      subst IsComplete (ok_eq q p h) (record {
        agent_id = false_of_not _ agent;
        ati_name = false_of_not _ name;
        status = false_of_not _ status;
        exp = false_of_not _ exp;
        identity = identity;
        server = server;
      })
