-- ===== src/Verifier/ScittTrust.antt =====
-- The SCITT path with the verifications of verify/scitt/receipt.go and verify/scitt/status_token.go.
mod Tests
use mathlib.Core.Bool.{false≢true}
use alibaba_ati_golang_sdk.Base.{
  ◌≡◌, refl, ap, ◌∙◌, ◌⊎◌, inl, inr, Bool, true, false, Option, none, some, Bytes, Result, ok, err,
  map_err, map_err_ok, arith,
}
use alibaba_ati_golang_sdk.Base.Int.{ℤ}
use alibaba_ati_golang_sdk.Models.Fqdn.{Fqdn}
use alibaba_ati_golang_sdk.Cert.{CertIdentity}
use alibaba_ati_golang_sdk.Failure.{Failure, scitt, falls_back, should_fallback_to_badge}
use alibaba_ati_golang_sdk.Outcome.{VerificationOutcome}
use alibaba_ati_golang_sdk.Verifier.Server as Server
use alibaba_ati_golang_sdk.BadgeCache.{MapOrder}
use alibaba_ati_golang_sdk.Scitt.Types.{VerifiedStatusToken}
use alibaba_ati_golang_sdk.Scitt.Headers.{Headers, has_both}
use alibaba_ati_golang_sdk.Scitt.KeyStore.{TrustedKey}
use alibaba_ati_golang_sdk.Scitt.Errors.{
  LookupError, store_failure, transport_failure, other_failure, ScittError, cose_error,
  signature_invalid, issuer_mismatch, key_error, token_error, merkle_error, cert_array,
  TransportErrorType, not_found, agent_terminal, not_supported, http_error, base64_decode,
}
use alibaba_ati_golang_sdk.Scitt.Cose.{Cbor, Signing}
use alibaba_ati_golang_sdk.Scitt.Receipt.{VerifiedReceipt, verify_receipt}
use alibaba_ati_golang_sdk.Scitt.Receipt.Claims as Receipts
use alibaba_ati_golang_sdk.Scitt.Receipt.Claims.{receipt-IsVerified}
use alibaba_ati_golang_sdk.Scitt.Token.{verify_status_token_at}
use alibaba_ati_golang_sdk.Scitt.Token.Claims as Tokens
use alibaba_ati_golang_sdk.Scitt.Token.Claims.{token-IsVerified}
use alibaba_ati_golang_sdk.Verifier.{VerifierConfig, Network, Clock, Cache}
use alibaba_ati_golang_sdk.Verifier.Scitt.{ScittChecks, role_server, verify_server}
use alibaba_ati_golang_sdk.Verifier.ScittSafety.{
  ScittSuccess, by_token, by_badge_receipt, by_badge_token, Succeeds, AdmitsToken, scitt_success,
}

abbrev pub forget {ℓ} : {E A : Type ℓ} → Result E A → Result E (Unit {ℓ})
forget (ok a) = ok tt
forget (err e) = err e

failure_eq : {A : Type 0} (e f : Failure) → Path (Result Failure A) (err e) (err f) → e ≡ f
failure_eq e f h = ground arith

module _ {K : Type 0} (c : Cbor) (s : Signing K) (leaf : Bytes → Bytes)
    (node : Bytes → Bytes → Bytes) (keys : Bytes → Result LookupError (TrustedKey K))
    (clock_skew now : ℤ) where
  -- The two calls of verifyWithHeaders.
  abbrev pub scitt_checks : ScittChecks
  scitt_checks = record {
    verify_receipt = λ b. map_err scitt (forget (verify_receipt c s leaf node keys b));
    verify_status_token = λ b. map_err scitt (verify_status_token_at c s keys clock_skew now b);
  }

  -- The key lookup of a verification failed in transport, in a way for which the badge is asked.
  abbrev pub LookupFailed : {A : Type 0} → Result ScittError A → Type 0
  LookupFailed r =
      (kind : TransportErrorType) × (text : Bytes) × (r
        ≡ err (key_error (transport_failure kind text)))
      × ((kind ≡ not_found) ⊎ ((kind ≡ not_supported) ⊎ (kind ≡ http_error)))

  falls_back_kind :
      (kind : TransportErrorType)
      → should_fallback_to_badge kind ≡ true
      → (kind ≡ not_found) ⊎ ((kind ≡ not_supported) ⊎ (kind ≡ http_error))
  unfolding should_fallback_to_badge
  falls_back_kind not_found h = inl refl
  falls_back_kind not_supported h = inr (inl refl)
  falls_back_kind http_error h = inr (inr refl)
  falls_back_kind agent_terminal h = absurd (false≢true h)
  falls_back_kind base64_decode h = absurd (false≢true h)

  error-LookupFailed :
      {A : Type 0} (r : Result ScittError A) (y : ScittError)
      → r ≡ err y
      → falls_back (scitt y) ≡ true
      → LookupFailed r
  unfolding falls_back
  error-LookupFailed r (key_error (transport_failure kind text)) e h =
      (kind, text, e, falls_back_kind kind h)
  error-LookupFailed r (key_error (store_failure k)) e h = absurd (false≢true h)
  error-LookupFailed r (key_error (other_failure k)) e h = absurd (false≢true h)
  error-LookupFailed r (cose_error k) e h = absurd (false≢true h)
  error-LookupFailed r (signature_invalid k) e h = absurd (false≢true h)
  error-LookupFailed r (issuer_mismatch k) e h = absurd (false≢true h)
  error-LookupFailed r (token_error k) e h = absurd (false≢true h)
  error-LookupFailed r (merkle_error k) e h = absurd (false≢true h)
  error-LookupFailed r cert_array e h = absurd (false≢true h)

  fallback-LookupFailed :
      {A : Type 0} (r : Result ScittError A) (e : Failure)
      → map_err scitt r ≡ err e
      → falls_back e ≡ true
      → LookupFailed r
  fallback-LookupFailed (ok a) e h f = ground arith
  fallback-LookupFailed (err x) e h f =
      error-LookupFailed (err x) x refl (ap falls_back (failure_eq (scitt x) e h) ∙ f)

  forgotten : {A : Type 0} (r : Result ScittError A) → forget r ≡ ok tt → (a : A) × (r ≡ ok a)
  forgotten (ok a) h = (a, refl)
  forgotten (err e) h = ground arith

  forgotten_failed :
      {A : Type 0} (r : Result ScittError A) → LookupFailed (forget r) → LookupFailed r
  forgotten_failed (ok a) (kind, text, h, k) = ground arith
  forgotten_failed (err e) (kind, text, h, k) = (kind, text, ground arith, k)

  -- A receipt and a token that trusted keys signed, of which the token admits the certificate.
  pub record IsTrusted (fqdn : Fqdn) (cert : CertIdentity) (h : Headers) : Type 0 where
    pub receipt : VerifiedReceipt
    pub token : VerifiedStatusToken
    pub receipt_verified : Receipts.IsVerified c s leaf node keys h.receipt receipt
    pub token_verified : Tokens.IsVerified c s keys clock_skew now h.status_token token
    pub admits : AdmitsToken fqdn cert role_server token.payload

  -- The receipt, or the token of a receipt that is verified, could not be verified for want of a key, and the result is that of the badge.
  abbrev pub BadgeDecides :
      Headers → VerificationOutcome × Cache → VerificationOutcome × Cache → Type 0
  BadgeDecides h badge result =
      (LookupFailed (verify_receipt c s leaf node keys h.receipt)
        ⊎ ((receipt : VerifiedReceipt) × Receipts.IsVerified c s leaf node keys h.receipt receipt
            × LookupFailed (verify_status_token_at c s keys clock_skew now h.status_token)))
      × (result ≡ badge)

  success-IsTrusted :
      (fqdn : Fqdn) (cert : CertIdentity) (h : Headers) (badge result : VerificationOutcome × Cache)
      → ScittSuccess scitt_checks h fqdn cert role_server badge result
      → IsTrusted fqdn cert h ⊎ BadgeDecides h badge result
  success-IsTrusted fqdn cert h badge result (by_token t r v a) =
      let (receipt, e) =
        forgotten (verify_receipt c s leaf node keys h.receipt) (map_err_ok _ _ tt r) in
      inl (record {
        receipt = receipt;
        token = t;
        receipt_verified = receipt-IsVerified c s leaf node keys h.receipt receipt e;
        token_verified =
            token-IsVerified c s keys clock_skew now h.status_token t (map_err_ok _ _ t v);
        admits = a;
      })
  success-IsTrusted fqdn cert h badge result (by_badge_receipt e r f q) = inr (
    inl (
        forgotten_failed (verify_receipt c s leaf node keys h.receipt)
          (fallback-LookupFailed _ e r f)),
    q,
  )
  success-IsTrusted fqdn cert h badge result (by_badge_token e v r f q) =
      let (receipt, i) =
        forgotten (verify_receipt c s leaf node keys h.receipt) (map_err_ok _ _ tt v) in
      inr (
        inr (
          receipt,
          receipt-IsVerified c s leaf node keys h.receipt receipt i,
          fallback-LookupFailed _ e r f,
        ),
        q,
      )

  -- With both headers and the verifications of this package, a server succeeds only by a receipt and a status token
  -- that keys of the lookup signed, the token neither expired nor terminal and admitting the certificate for the
  -- host, whatever the failure policy; or with the outcome of the badge, if the verification of the receipt, or that
  -- of the token where the receipt is verified, ended because the lookup of its key failed in transport: not
  -- found, not supported or an error of HTTP. An error of a store of keys is no such failure.
  pub scitt-IsTrusted :
      (o : MapOrder) (config : VerifierConfig) (net : Network) (clock : Clock) (cache : Cache)
      (fqdn : Fqdn) (cert : CertIdentity) (h : Headers)
      → has_both h ≡ true
      → Succeeds (verify_server o config net (some scitt_checks) clock cache fqdn cert (some h)).0
      → IsTrusted fqdn cert h
        ⊎ BadgeDecides h
            (Server.verify o config net clock cache fqdn cert)
            (verify_server o config net (some scitt_checks) clock cache fqdn cert (some h))
  scitt-IsTrusted o config net clock cache fqdn cert h b k =
      success-IsTrusted fqdn cert h _ _
        (scitt_success o config net scitt_checks clock cache fqdn cert h b k)
