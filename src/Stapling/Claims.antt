-- ===== src/Stapling/Claims.antt =====
-- What an accepted credential is.
use alibaba_ati_golang_sdk.Base.{
  List, ℕ, ◌≤◌, ◌≡◌, Bool, true, false, not, ◌||◌, Option, some, Bytes, ltb, bytes_eq, codes, ok,
  bind_ok, require_then, ensure_then, ensure_ok, arith,
}
use alibaba_ati_golang_sdk.Seal.{SealCodec}
use alibaba_ati_golang_sdk.Stapling.{
  StapledCredential, compute_stapling_digest, verify_stapled_credential,
}

-- A credential that is signed by the key under its key ID, within its times, and neither REVOKED nor EXPIRED.
pub record IsCurrent {K : Type 0} (x : SealCodec K) (marshal : List (Bytes × Bytes) → Option Bytes)
    (rfc3339 : ℕ → Bytes) (get : Bytes → Option K) (now : ℕ) (cred : StapledCredential)
    : Type 0 where
  pub key : K
  pub digest : Bytes
  pub signature : Bytes
  pub issued : cred.issued_at ≤ now
  pub unexpired : now ≤ cred.expires_at
  pub not_revoked : bytes_eq cred.status (codes "REVOKED") ≡ false
  pub not_expired : bytes_eq cred.status (codes "EXPIRED") ≡ false
  pub trusted : get cred.kid ≡ some key
  pub digested : compute_stapling_digest x marshal rfc3339 cred ≡ ok digest
  pub decoded : x.base64 cred.signature ≡ some signature
  pub verified : x.verify_asn1 key digest signature ≡ true

not_below : (a b : ℕ) → not (ltb a b) ≡ true → b ≤ a
not_below a b h = ground arith

neither : (a b : Bool) → not (a || b) ≡ true → (a ≡ false) × (b ≡ false)
neither a b h = ground arith

module _ {K : Type 0} (x : SealCodec K) (marshal : List (Bytes × Bytes) → Option Bytes)
    (rfc3339 : ℕ → Bytes) where
  -- A credential is accepted only if a key of the lookup, under the credential's key ID, accepts the signature, the
  -- time is between its issue and its expiry, and its status is neither REVOKED nor EXPIRED.
  pub credential-IsCurrent :
      (credential : Option StapledCredential) (keys : Option (Bytes → Option K)) (now : ℕ)
      → verify_stapled_credential x marshal rfc3339 credential keys now ≡ ok tt
      → (cred : StapledCredential) × (get : Bytes → Option K) × (credential ≡ some cred)
        × (keys ≡ some get)
        × IsCurrent x marshal rfc3339 get now cred
  unfolding verify_stapled_credential
  credential-IsCurrent credential keys now h =
      let (cred, c, h) = require_then _ _ _ tt h in
      let (e, h) = ensure_then _ _ _ tt h in
      let (i, h) = ensure_then _ _ _ tt h in
      let (s, h) = ensure_then _ _ _ tt h in
      let (get, g, h) = require_then _ _ _ tt h in
      let (key, k, h) = require_then _ _ _ tt h in
      let (digest, d, h) = bind_ok _ _ tt h in
      let (sig, b, h) = require_then _ _ _ tt h in
      let (revoked, expired) = neither _ _ s in
      (
        cred,
        get,
        c,
        g,
        record {
          key = key;
          digest = digest;
          signature = sig;
          issued = not_below now cred.issued_at i;
          unexpired = not_below cred.expires_at now e;
          not_revoked = revoked;
          not_expired = expired;
          trusted = k;
          digested = d;
          decoded = b;
          verified = ensure_ok _ _ tt h;
        },
      )
