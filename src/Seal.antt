-- ===== src/Seal.antt =====
-- verify/seal.go, verify/producer.go and verify/jws_detached.go: the signatures of the log, of the producer of a
-- record, and of a transaction. Keys, JSON and its canonical form, base64 and SHA-256 are parameters.
pub mod Claims
use alibaba_ati_golang_sdk.Base.{
  ℕ, ◌+◌, ◌-◌, Bool, true, false, not, ◌||◌, ◌&&◌, List, [], ◌∷◌, ◌++◌, map, Option, none, some,
  Bytes, leb, ◌==◌, if◌then◌else◌, Result, ok, err, ◌>>=◌, ensure, require, map_err, is_empty,
  bytes_eq, codes, cut_prefix, length, take, drop,
}
use alibaba_ati_golang_sdk.Base.Map.{Map, lookup, is_some}
use alibaba_ati_golang_sdk.Base.Split.{split}
use alibaba_ati_golang_sdk.Models.TlLog.{TlResponse, TlPayload, EvidenceRef}
use alibaba_ati_golang_sdk.Failure.{Failure}
use alibaba_ati_golang_sdk.Scitt.Cose.{from_bytes}
use alibaba_ati_golang_sdk.Trust.{
  AnsError, new_ans_error, severity_hard, stage_tl_verify, tl_receipt_sig_invalid,
  producer_sig_invalid,
}

pub data KeyKind : Type 0 where
  kind_ecdsa kind_rsa kind_other : KeyKind

-- The dynamic type of a crypto.PublicKey, ParsePublicKeyPEM, ecdsa.VerifyASN1, rsa.VerifyPKCS1v15 with SHA-256,
-- ecdsa.Verify, base64 in its two alphabets, json.Marshal for the four sealed fields, the canonical forms of JCS,
-- and SHA-256.
pub record SealCodec (K : Type 0) : Type 0 where
  pub kind : K → KeyKind
  pub parse_public_key_pem : Bytes → Option K
  pub verify_asn1 : K → Bytes → Bytes → Bool
  pub verify_pkcs1v15 : K → Bytes → Bytes → Bool
  pub verify_numbers : K → Bytes → ℕ → ℕ → Bool
  pub base64 : Bytes → Option Bytes
  pub base64_raw_url : Bytes → Option Bytes
  pub marshal_text : Bytes → Option Bytes
  pub marshal_payload : TlPayload → Option Bytes
  pub marshal_evidence_ref : EvidenceRef → Option Bytes
  pub canonicalize_fields : List (Bytes × Bytes) → Option Bytes
  pub canonicalize : Bytes → Option Bytes
  pub sha256 : Bytes → Bytes

abbrev upper_byte : ℕ → ℕ
upper_byte c = if leb b'a' c && leb c b'z' then c - 32 else c

-- strings.ToUpper, in ASCII
unfoldable pub to_upper : Bytes → Bytes
to_upper s = map upper_byte s

-- strings.Contains
unfoldable pub contains : Bytes → Bytes → Bool
contains [] sub = is_empty sub
contains (c ∷ s) sub = is_some (cut_prefix (c ∷ s) sub) || contains s sub

pub data Family : Type 0 where
  family_none family_ecdsa family_rsa family_unknown : Family

unfoldable pub family_of_upper : Bytes → Family
family_of_upper s =
    if bytes_eq s (codes "ES256") || bytes_eq s (codes "ES384") || bytes_eq s (codes "ES512")
    then family_ecdsa
    else if bytes_eq s (codes "RS256") || bytes_eq s (codes "RS384") || bytes_eq s (codes "RS512")
    then family_rsa
    else if contains s (codes "ECDSA")
    then family_ecdsa
    else if contains s (codes "RSA")
    then family_rsa
    else family_unknown

unfoldable pub seal_algorithm_family : Bytes → Family
seal_algorithm_family algorithm =
    if is_empty algorithm then family_none else family_of_upper (to_upper algorithm)

abbrev allows_ecdsa : Family → Bool
allows_ecdsa family_none = true
allows_ecdsa family_ecdsa = true
allows_ecdsa _ = false

abbrev allows_rsa : Family → Bool
allows_rsa family_none = true
allows_rsa family_rsa = true
allows_rsa _ = false

-- Every error of a seal has one code.
abbrev pub seal_error : AnsError
seal_error = new_ans_error tl_receipt_sig_invalid severity_hard stage_tl_verify

abbrev pub producer_error : AnsError
producer_error = new_ans_error producer_sig_invalid severity_hard stage_tl_verify

module _ {K : Type 0} (x : SealCodec K) where
  abbrev pub verify_kind : KeyKind → K → Family → Bytes → Bytes → Result AnsError (Unit {0})
  verify_kind kind_ecdsa key family digest sig =
      if not (allows_ecdsa family)
      then err seal_error
      else if not (x.verify_asn1 key digest sig)
      then err seal_error
      else ok tt
  verify_kind kind_rsa key family digest sig =
      if not (allows_rsa family)
      then err seal_error
      else if not (x.verify_pkcs1v15 key digest sig)
      then err seal_error
      else ok tt
  verify_kind kind_other key family digest sig = err seal_error

  unfoldable pub verify_seal_digest : K → Bytes → Bytes → Bytes → Result AnsError (Unit {0})
  verify_seal_digest key algorithm digest sig =
      verify_kind (x.kind key) key (seal_algorithm_family algorithm) digest sig

  abbrev pub raw_or_marshal {ℓ} :
      {A : Type ℓ} → Option Bytes → (A → Option Bytes) → A → Option Bytes
  raw_or_marshal (some raw) marshal v = some raw
  raw_or_marshal none marshal v = marshal v

  abbrev pub hash_of : Option Bytes → Result AnsError Bytes
  hash_of none = err seal_error
  hash_of (some canonical) = ok (x.sha256 canonical)

  unfoldable pub compute_seal_digest : TlResponse → Result AnsError Bytes
  compute_seal_digest r = do
    status ← require seal_error (raw_or_marshal r.raw_status x.marshal_text r.status)
    schema ←
        require seal_error (raw_or_marshal r.raw_schema_version x.marshal_text r.schema_version)
    payload ← require seal_error (raw_or_marshal r.raw_payload x.marshal_payload r.payload)
    evidence ←
        require seal_error (raw_or_marshal r.raw_evidence_ref x.marshal_evidence_ref r.evidence_ref)
    hash_of (
        x.canonicalize_fields (
          (codes "status", status)
          ∷ (codes "schemaVersion", schema)
          ∷ (codes "payload", payload)
          ∷ (codes "evidenceRef", evidence)
          ∷ []))

  -- The trusted key, or the one of the seal where there is none.
  unfoldable pub seal_key : Option K → Bytes → Result AnsError K
  seal_key (some key) pem = ok key
  seal_key none pem = do
    _ ← ensure seal_error (not (is_empty pem))
    require seal_error (x.parse_public_key_pem pem)

  unfoldable pub verify_seal_signature : TlResponse → Option K → Result AnsError (Unit {0})
  verify_seal_signature r trusted = do
    _ ← ensure seal_error (not (is_empty r.seal.signature))
    _ ← ensure seal_error (not (is_empty r.seal.key_id))
    key ← seal_key trusted r.seal.public_key
    digest ← compute_seal_digest r
    sig ← require seal_error (x.base64 r.seal.signature)
    verify_seal_digest key r.seal.signature_algorithm digest sig

  -- A TLKeyStore that is not nil is its map, in which a key may be nil, as none is here.
  unfoldable pub verify_seal_signature_with_key_store :
      TlResponse → Option (Map (Option K)) → Result AnsError (Unit {0})
  verify_seal_signature_with_key_store r store = do
    keys ← require seal_error store
    _ ← ensure seal_error (not (is_empty r.seal.key_id))
    key ← require seal_error (lookup r.seal.key_id keys)
    verify_seal_signature r key

  unfoldable pub compute_producer_digest : TlPayload → Result AnsError Bytes
  compute_producer_digest p = do
    json ← require producer_error (x.marshal_payload p)
    canonical ← require producer_error (x.canonicalize json)
    ok (x.sha256 canonical)

  -- `keys` is GetProducerKey.
  unfoldable pub check_producer : TlResponse → (Bytes → Option K) → Result AnsError (Unit {0})
  check_producer r keys = do
    _ ← ensure producer_error (not (is_empty r.evidence_ref.submitter_id))
    key ← require producer_error (keys r.evidence_ref.submitter_id)
    digest ← compute_producer_digest r.payload
    sig ← require producer_error (x.base64 r.evidence_ref.evidence_hash)
    ensure producer_error (x.verify_asn1 key digest sig)

  unfoldable pub verify_producer_signature :
      TlResponse → (Bytes → Option K) → Result AnsError (Unit {0})
  verify_producer_signature r keys =
      if not r.evidence_ref.signature_required then ok tt else check_producer r keys

pub record JwsHeader : Type 0 where
  pub alg : Bytes
  pub kid : Bytes
  pub b64 : Bool

pub data JwsError : Type 0 where
  not_three_parts payload_not_empty bad_header bad_json bad_algorithm not_detached : JwsError
  no_key bad_signature_encoding bad_signature_length bad_signature : JwsError

abbrev three_parts : List Bytes → Result JwsError (Bytes × Bytes × Bytes)
three_parts (a ∷ b ∷ c ∷ []) = ok (a, b, c)
three_parts _ = err not_three_parts

module _ {K : Type 0} (x : SealCodec K) (parse_header : Bytes → Option JwsHeader) where
  -- `parse_header` is json.Unmarshal into a jwsHeader.
  unfoldable pub verify_jws_detached :
      Bytes → Bytes → (Bytes → Option K) → Result JwsError (Unit {0})
  verify_jws_detached signature payload keys = do
    parts ← three_parts (split b'.' signature)
    _ ← ensure payload_not_empty (is_empty parts.1)
    json ← require bad_header (x.base64_raw_url parts.0)
    header ← require bad_json (parse_header json)
    _ ← ensure bad_algorithm (bytes_eq header.alg (codes "ES256"))
    _ ← ensure not_detached (not header.b64)
    key ← require no_key (keys header.kid)
    sig ← require bad_signature_encoding (x.base64_raw_url parts.2)
    _ ← ensure bad_signature_length (length sig == 64)
    ensure bad_signature (
        x.verify_numbers key (x.sha256 (parts.0 ++ b'.' ∷ payload)) (from_bytes 0 (take 32 sig))
          (from_bytes 0 (drop 32 sig)))
