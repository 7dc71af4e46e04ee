-- ===== src/Verifier/ScittSafety.antt =====
-- What the SCITT path lets pass.
use alibaba_ati_golang_sdk.Base.{
  ◌≡◌, refl, true, false, some, Result, ok, err, inl, inr, equal_fold, Bool-cases, arith,
}
use mathlib.Core.Bool.{false≢true}
use alibaba_ati_golang_sdk.Models.Fqdn.{Fqdn}
use alibaba_ati_golang_sdk.Scitt.Types.{
  StatusTokenPayload, VerifiedStatusToken, is_valid_for_connection,
}
use alibaba_ati_golang_sdk.Cert.{CertIdentity, AtiName, NameError, parse_ati_name}
use alibaba_ati_golang_sdk.Failure.{Failure, falls_back}
use alibaba_ati_golang_sdk.BadgeCache.{MapOrder}
use alibaba_ati_golang_sdk.Outcome.{VerificationOutcome, is_success}
use alibaba_ati_golang_sdk.Verifier.{VerifierConfig, Network, Clock, Cache}
use alibaba_ati_golang_sdk.Scitt.Headers.{Headers, headers_is_empty, has_both}
use alibaba_ati_golang_sdk.Verifier.Server as Server
use alibaba_ati_golang_sdk.Verifier.Scitt.{
  CertRole, role_server, ScittChecks, matches_role, check_token, bind_host, after_token,
  after_receipt, verify_with_headers, verify_server,
}

-- A payload that admits the certificate for the host in the role.
pub record AdmitsToken (fqdn : Fqdn) (cert : CertIdentity) (role : CertRole)
    (p : StatusTokenPayload) : Type 0 where
  pub status : is_valid_for_connection p.status ≡ true
  pub fingerprint : matches_role role p cert.fingerprint.bytes ≡ true
  pub name : AtiName
  pub is_name : parse_ati_name p.ati_name ≡ ok name
  pub host : equal_fold name.host fqdn.value ≡ true

-- Why the SCITT path ends in a success: the receipt and the token are valid and the token admits the
-- certificate, or a check had a transport error, that of the token only with a valid receipt, and the result is that
-- of the badge.
pub data ScittSuccess (s : ScittChecks) (h : Headers) (fqdn : Fqdn) (cert : CertIdentity)
    (role : CertRole) (badge result : VerificationOutcome × Cache) : Type 0 where
  by_token :
      (t : VerifiedStatusToken)
      → s.verify_receipt h.receipt ≡ ok tt
      → s.verify_status_token h.status_token ≡ ok t
      → AdmitsToken fqdn cert role t.payload
      → ScittSuccess s h fqdn cert role badge result
  by_badge_receipt :
      (e : Failure)
      → s.verify_receipt h.receipt ≡ err e
      → falls_back e ≡ true
      → result ≡ badge
      → ScittSuccess s h fqdn cert role badge result
  by_badge_token :
      (e : Failure)
      → s.verify_receipt h.receipt ≡ ok tt
      → s.verify_status_token h.status_token ≡ err e
      → falls_back e ≡ true
      → result ≡ badge
      → ScittSuccess s h fqdn cert role badge result

abbrev pub Succeeds : VerificationOutcome → Type 0
Succeeds o = is_success o ≡ true

bound_host :
    (fqdn : Fqdn) (cert : CertIdentity) (p : StatusTokenPayload) (n : Result NameError AtiName)
    → Succeeds (bind_host fqdn cert p n)
    → (name : AtiName) × (n ≡ ok name) × (equal_fold name.host fqdn.value ≡ true)
unfolding is_success
bound_host fqdn cert p (err e) h = absurd (false≢true h)
bound_host fqdn cert p (ok n) h = (n, refl, ground arith)

token_admits :
    (fqdn : Fqdn) (cert : CertIdentity) (role : CertRole) (p : StatusTokenPayload)
    → Succeeds (check_token fqdn cert role p)
    → AdmitsToken fqdn cert role p
unfolding check_token is_success
token_admits fqdn cert role p h = elim (Bool-cases (is_valid_for_connection p.status)) [
  | inr a ↦ absurd (false≢true (rw a at h))
  | inl a ↦ elim (Bool-cases (matches_role role p cert.fingerprint.bytes)) [
    | inr b ↦ absurd (false≢true (rw (a, b) at h))
    | inl b ↦
        let (n, e, f) = bound_host fqdn cert p (parse_ati_name p.ati_name) (rw (a, b) at h) in
        record { status = a; fingerprint = b; name = n; is_name = e; host = f }
  ]
]

module _ (s : ScittChecks) (h : Headers) (fqdn : Fqdn) (cert : CertIdentity) (role : CertRole)
    (cache : Cache) (fallback : VerificationOutcome × Cache) where
  token_success :
      (t : Result Failure VerifiedStatusToken)
      → s.verify_receipt h.receipt ≡ ok tt
      → s.verify_status_token h.status_token ≡ t
      → Succeeds (after_token fqdn cert role cache fallback t).0
      → ScittSuccess s h fqdn cert role fallback (after_token fqdn cert role cache fallback t)
  unfolding is_success
  token_success (ok t) a b k = by_token t a b (token_admits fqdn cert role t.payload k)
  token_success (err e) a b k = elim (Bool-cases (falls_back e)) [
    | inl f ↦ by_badge_token e a b f (rw f refl)
    | inr f ↦ absurd (false≢true (rw f at k))
  ]

  receipt_success :
      (r : Result Failure (Unit {0}))
      → s.verify_receipt h.receipt ≡ r
      → Succeeds
          (after_receipt fqdn cert role cache fallback (s.verify_status_token h.status_token) r).0
      → ScittSuccess s h fqdn cert role fallback
          (after_receipt fqdn cert role cache fallback (s.verify_status_token h.status_token) r)
  unfolding is_success
  receipt_success (ok u) a k = token_success (s.verify_status_token h.status_token) a refl k
  receipt_success (err e) a k = elim (Bool-cases (falls_back e)) [
    | inl f ↦ by_badge_receipt e a f (rw f refl)
    | inr f ↦ absurd (false≢true (rw f at k))
  ]

both-not_empty : (h : Headers) → has_both h ≡ true → headers_is_empty h ≡ false
unfolding has_both headers_is_empty
both-not_empty h b = ground arith

-- Where both headers are there, the outcome for a server is a success, whatever the failure policy, only if the
-- receipt and the token are valid and the token's status, server fingerprints and host admit the certificate,
-- or the check of the receipt, or that of the token where the receipt is valid, had a transport error that is
-- eligible for the badge, and the outcome, and the cache that is left, are those of the verification by the badge.
pub scitt_success :
    (o : MapOrder) (config : VerifierConfig) (net : Network) (s : ScittChecks) (clock : Clock)
    (cache : Cache) (fqdn : Fqdn) (cert : CertIdentity) (h : Headers)
    → has_both h ≡ true
    → Succeeds (verify_server o config net (some s) clock cache fqdn cert (some h)).0
    → ScittSuccess s h fqdn cert role_server
        (Server.verify o config net clock cache fqdn cert)
        (verify_server o config net (some s) clock cache fqdn cert (some h))
unfolding verify_server verify_with_headers
scitt_success o config net s clock cache fqdn cert h b k =
    let r =
      receipt_success s h fqdn cert role_server cache
        (Server.verify o config net clock cache fqdn cert) (s.verify_receipt h.receipt) refl
        (rw (both-not_empty h b, b) at k) in
    rw (both-not_empty h b, b) r
