-- ===== src/Stapling.antt =====
-- verify/stapling.go: the credential of its status that an agent presents. JSON, RFC 3339 and the keys are
-- parameters; times are not negative.
pub mod Claims
mod Tests
use alibaba_ati_golang_sdk.Base.{
  List, [], ◌∷◌, ℕ, ◌||◌, Option, none, some, Bytes, ltb, not, is_empty, bytes_eq, codes, Result,
  ok, ◌>>=◌, ensure, require,
}
use alibaba_ati_golang_sdk.Trust.{
  AnsError, new_ans_error, severity_soft, severity_hard, stage_session, stapling_expired,
  status_revoked,
}
use alibaba_ati_golang_sdk.Seal.{SealCodec}

pub record StapledCredential : Type 0 where
  pub ans_id : Bytes
  pub status : Bytes
  pub issued_at : ℕ
  pub expires_at : ℕ
  pub signature : Bytes
  pub kid : Bytes

pub data ParseError : Type 0 where
  bad_json missing_ans_id missing_status missing_signature : ParseError

-- `parse` is json.Unmarshal into a StapledCredential.
unfoldable pub parse_stapled_credential :
    (Bytes → Option StapledCredential) → Bytes → Result ParseError StapledCredential
parse_stapled_credential parse raw = do
  cred ← require bad_json (parse raw)
  _ ← ensure missing_ans_id (not (is_empty cred.ans_id))
  _ ← ensure missing_status (not (is_empty cred.status))
  _ ← ensure missing_signature (not (is_empty cred.signature))
  ok cred

-- All errors but that of the status have one code.
abbrev pub stapling_error : AnsError
stapling_error = new_ans_error stapling_expired severity_soft stage_session

-- `marshal` is json.Marshal of an object of texts with these names, and `rfc3339` the format of a time.
module _ {K : Type 0} (x : SealCodec K) (marshal : List (Bytes × Bytes) → Option Bytes)
    (rfc3339 : ℕ → Bytes) where
  unfoldable pub compute_stapling_digest : StapledCredential → Result AnsError Bytes
  compute_stapling_digest cred = do
    json ← require stapling_error (
        marshal (
          (codes "ansId", cred.ans_id)
          ∷ (codes "status", cred.status)
          ∷ (codes "issuedAt", rfc3339 cred.issued_at)
          ∷ (codes "expiresAt", rfc3339 cred.expires_at)
          ∷ []))
    canonical ← require stapling_error (x.canonicalize json)
    ok (x.sha256 canonical)

  -- VerifyStapledCredential; none is nil, and `keys` is GetProducerKey.
  unfoldable pub verify_stapled_credential :
      Option StapledCredential → Option (Bytes → Option K) → ℕ → Result AnsError (Unit {0})
  verify_stapled_credential credential keys now = do
    cred ← require stapling_error credential
    _ ← ensure stapling_error (not (ltb cred.expires_at now))
    _ ← ensure stapling_error (not (ltb now cred.issued_at))
    _ ←
        ensure (new_ans_error status_revoked severity_hard stage_session)
          (not (bytes_eq cred.status (codes "REVOKED") || bytes_eq cred.status (codes "EXPIRED")))
    get ← require stapling_error keys
    key ← require stapling_error (get cred.kid)
    digest ← compute_stapling_digest cred
    sig ← require stapling_error (x.base64 cred.signature)
    ensure stapling_error (x.verify_asn1 key digest sig)
