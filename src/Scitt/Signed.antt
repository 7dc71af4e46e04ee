-- ===== src/Scitt/Signed.antt =====
-- The steps of verify/scitt/receipt.go and verify/scitt/status_token.go that bind a message to a trusted key.
use alibaba_ati_golang_sdk.Base.{
  ◌≡◌, true, Option, none, some, Bytes, bytes_eq_iff, arith, Result, ok, bind_ok, ensure_ok,
  require_ok, take, drop,
}
use alibaba_ati_golang_sdk.Scitt.KeyStore.{TrustedKey}
use alibaba_ati_golang_sdk.Scitt.Errors.{LookupError, issuer_mismatch}
use alibaba_ati_golang_sdk.Scitt.Cose.{
  Signing, ParsedCoseSign1, verify_ecdsa, compute_sig_structure_digest, from_bytes,
}
use alibaba_ati_golang_sdk.Scitt.Receipt.{issuer_matches}

-- A message that a key of the store signed, and whose issuer, if it claims one, is the name of the key.
pub record IsSigned {K : Type 0} (s : Signing K) (keys : Bytes → Result LookupError (TrustedKey K))
    (m : ParsedCoseSign1) : Type 0 where
  pub key : TrustedKey K
  pub digest : Bytes
  pub der : Bytes
  pub trusted : keys m.protected.kid ≡ ok key
  pub digested : compute_sig_structure_digest s m.protected_bytes m.payload ≡ some digest
  pub signature :
      s.marshal_der
        (from_bytes 0 (take 32 m.signature))
        (from_bytes 0 (drop 32 (take 64 m.signature)))
      ≡ some der
  pub verified : s.verify_asn1 key.key digest der ≡ true
  pub issuer : (iss : Bytes) → m.protected.cwt_iss ≡ some iss → iss ≡ key.name

matches_name :
    (kid name : Bytes) (claimed : Option Bytes) (u : Unit {0})
    → issuer_matches kid claimed name ≡ ok u
    → (iss : Bytes) → claimed ≡ some iss
    → iss ≡ name
unfolding issuer_matches
matches_name kid name none u h iss e = ground arith
matches_name kid name (some j) u h iss e =
    ground
      (arith, ensure_ok (issuer_mismatch kid) _ u h, bytes_eq_iff iss name, bytes_eq_iff j name)

module _ {K : Type 0} (s : Signing K) (keys : Bytes → Result LookupError (TrustedKey K)) where
  -- The steps that receipts and tokens share.
  pub steps-IsSigned :
      (m : ParsedCoseSign1) (key : TrustedKey K) (kid : Bytes) (u v : Unit {0})
      → keys m.protected.kid ≡ ok key
      → verify_ecdsa s key.key m.protected_bytes m.payload m.signature m.protected.kid ≡ ok u
      → issuer_matches kid m.protected.cwt_iss key.name ≡ ok v
      → IsSigned s keys m
  unfolding verify_ecdsa
  steps-IsSigned m key kid u v t h i =
      let (digest, d, h) = bind_ok _ _ u h in
      let (der, e, h) = bind_ok _ _ u h in
      record {
        key = key;
        digest = digest;
        der = der;
        trusted = t;
        digested = require_ok _ _ digest d;
        signature = require_ok _ _ der e;
        verified = ensure_ok _ _ u h;
        issuer = matches_name kid key.name m.protected.cwt_iss v i;
      }
