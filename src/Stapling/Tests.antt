-- ===== src/Stapling/Tests.antt =====
-- A credential that is accepted.
use alibaba_ati_golang_sdk.Base.{
  List, ℕ, ◌≡◌, refl, true, false, [], ◌∷◌, some, none, Option, Bytes, ok, ensure, require, codes,
  bytes_eq,
}
use alibaba_ati_golang_sdk.Seal.{SealCodec, kind_ecdsa}
use alibaba_ati_golang_sdk.Stapling.{
  StapledCredential, compute_stapling_digest, verify_stapled_credential,
}
use alibaba_ati_golang_sdk.Stapling.Claims.{IsCurrent, credential-IsCurrent}

abbrev codec : SealCodec ℕ
codec = record {
  kind = λ k. kind_ecdsa;
  parse_public_key_pem = λ s. none;
  verify_asn1 = λ k d s. true;
  verify_pkcs1v15 = λ k d s. false;
  verify_numbers = λ k d r s. false;
  base64 = λ s. some s;
  base64_raw_url = λ s. some s;
  marshal_text = λ s. some s;
  marshal_payload = λ p. some [];
  marshal_evidence_ref = λ e. some [];
  canonicalize_fields = λ fs. some [];
  canonicalize = λ s. some s;
  sha256 = λ s. s;
}

abbrev marshal : List (Bytes × Bytes) → Option Bytes
marshal fields = some []

abbrev rfc3339 : ℕ → Bytes
rfc3339 t = t ∷ []

abbrev credential : StapledCredential
credential = record {
  ans_id = codes "id";
  status = codes "ACTIVE";
  issued_at = 2;
  expires_at = 9;
  signature = 1 ∷ [];
  kid = codes "k";
}

abbrev get : Bytes → Option ℕ
get kid = some 5

accepted : verify_stapled_credential codec marshal rfc3339 (some credential) (some get) 5 ≡ ok tt
unfolding verify_stapled_credential compute_stapling_digest bytes_eq ensure require
accepted = refl

credential-IsCurrent_example :
    (cred : StapledCredential) × (g : Bytes → Option ℕ) × (some credential ≡ some cred)
    × (some get ≡ some g)
    × IsCurrent codec marshal rfc3339 g 5 cred
credential-IsCurrent_example =
    credential-IsCurrent codec marshal rfc3339 (some credential) (some get) 5 accepted
