-- ===== src/Verifier/ClientErrors.antt =====
-- Which outcomes of ClientVerifier.Verify fail open, and which report an error.
use alibaba_ati_golang_sdk.Base.{
  ◌≡◌, refl, ◌∙◌, sym, true, not, Bytes, Option, none, some, Result, ok, err, inl, inr, ◌⊎◌, arith,
}
use alibaba_ati_golang_sdk.Base.Map.{is_some}
use mathlib.Core.Bool.{false≢true}
use alibaba_ati_golang_sdk.Models.Fqdn.{Fqdn, FqdnError, new_fqdn}
use alibaba_ati_golang_sdk.Models.TlLog.{TlResponse}
use alibaba_ati_golang_sdk.Cert.{CertIdentity, AtiName, cert_ati_name, cert_fqdn}
use alibaba_ati_golang_sdk.BadgeCache.{CachedBadge, MapOrder}
use alibaba_ati_golang_sdk.Outcome.{
  VerificationOutcome, to_error, is_success, is_fail_open, fail_open,
}
use alibaba_ati_golang_sdk.Verifier.{VerifierConfig, Network, Clock, Cache}
use alibaba_ati_golang_sdk.Verifier.Client as Client
use alibaba_ati_golang_sdk.Verifier.Policy.{LetsPass, NetworkFailed, client_fetch_failed}
use alibaba_ati_golang_sdk.Verifier.Errors.{
  Decided, DecidedOrOpen, client-Decided, apply_dane-Decided, failed_decided,
}

-- The lookup failed for the host and the version of the ATI name of the certificate.
abbrev pub ClientFailed : VerifierConfig → Network → CertIdentity → Type 0
ClientFailed config net cert =
    (n : AtiName) × (fqdn : Fqdn) × (cert_ati_name cert ≡ some n)
    × (new_fqdn n.host ≡ ok fqdn)
    × NetworkFailed config net (net.find_badge_for_version fqdn n.version)

abbrev pub ClientCases : VerifierConfig → Network → CertIdentity → VerificationOutcome → Type 0
ClientCases config net cert x =
    Decided x
    ⊎ ((x.outcome_type ≡ fail_open) × LetsPass config.failure_policy × ClientFailed config net cert)

module _ (o : MapOrder) (config : VerifierConfig) (net : Network) (clock : Clock) (cache : Cache)
    (cert : CertIdentity) where
  module _ (n : AtiName) (fqdn : Fqdn) (is_name : cert_ati_name cert ≡ some n)
      (is_fqdn : new_fqdn n.host ≡ ok fqdn) where
    named_cases :
        (x : VerificationOutcome)
        → DecidedOrOpen config net (net.find_badge_for_version fqdn n.version) x
        → ClientCases config net cert x
    named_cases x (inl d) = inl d
    named_cases x (inr (a, b, c)) = inr (a, b, (n, fqdn, is_name, is_fqdn, c))

    fetched_cases :
        (f : Result VerificationOutcome TlResponse)
        → Client.fetch_tl_response config net clock cache fqdn n.version ≡ f
        → ClientCases config net cert
            (Client.verify_fetched o config clock cache fqdn n.version cert f).0
    fetched_cases (ok r) e = inl (apply_dane-Decided config fqdn cert _ (client-Decided r cert))
    fetched_cases (err x) e = named_cases x (
        failed_decided config net _ x
          (client_fetch_failed config net clock cache fqdn n.version x e))

    cached_cases :
        (fetch : VerificationOutcome × Cache) (b : Option CachedBadge)
        → ClientCases config net cert fetch.0
        → ClientCases config net cert (Client.verify_cached config cache fqdn cert fetch b).0
    cached_cases fetch none k = k
    cached_cases fetch (some b) k =
        inl (apply_dane-Decided config fqdn cert _ (client-Decided b.tl_response cert))

  fqdn_cases :
      (n : AtiName) (f : Result FqdnError Fqdn)
      → cert_ati_name cert ≡ some n
      → new_fqdn n.host ≡ f
      → ClientCases config net cert (Client.verify_name o config net clock cache cert n f).0
  unfolding to_error
  fqdn_cases n (err e) i j = inl (refl, inr refl)
  fqdn_cases n (ok fqdn) i j =
      cached_cases n fqdn i j _ (Client.cached_response clock fqdn n.version cache) (
        fetched_cases n fqdn i j (Client.fetch_tl_response config net clock cache fqdn n.version)
          refl)

  ati_name_cases :
      (n : Option AtiName)
      → cert_ati_name cert ≡ n
      → ClientCases config net cert (Client.verify_named o config net clock cache cert n).0
  unfolding to_error
  ati_name_cases none e = inl (refl, inr refl)
  ati_name_cases (some n) e = fqdn_cases n (new_fqdn n.host) e refl

  subject_cases :
      (s : Option Bytes)
      → ClientCases config net cert (Client.verify_subject o config net clock cache cert s).0
  unfolding to_error
  subject_cases none = inl (refl, inr refl)
  subject_cases (some s) = ati_name_cases (cert_ati_name cert) refl

  client_cases : ClientCases config net cert (Client.verify o config net clock cache cert).0
  unfolding Client.verify
  client_cases = subject_cases (cert_fqdn cert)

-- The outcome for a client fails open only if the policy is not FailClosed, and for the host and the version of
-- the ATI name of the certificate DNS failed otherwise than by having no record, or the log failed for the record
-- that DNS gave.
pub client_fail_cause :
    (o : MapOrder) (config : VerifierConfig) (net : Network) (clock : Clock) (cache : Cache)
    (cert : CertIdentity)
    → is_fail_open (Client.verify o config net clock cache cert).0 ≡ true
    → LetsPass config.failure_policy × ClientFailed config net cert
unfolding is_fail_open
client_fail_cause o config net clock cache cert h =
    elim (client_cases o config net clock cache cert) [
      | inl (a, b) ↦ absurd (false≢true (sym a ∙ h))
      | inr (a, b, c) ↦ (b, c)
    ]

case_error :
    (config : VerifierConfig) (net : Network) (cert : CertIdentity) (x : VerificationOutcome)
    → ClientCases config net cert x
    → is_some (to_error x) ≡ not (is_success x)
unfolding to_error is_success
case_error config net cert x (inl (a, inl v)) = ground arith
case_error config net cert x (inl (a, inr e)) = ground arith
case_error config net cert x (inr (e, k, n)) = ground arith

-- ToError gives an error for the outcome of a client exactly when the outcome is no success, whatever path the
-- verification took.
pub client_error :
    (o : MapOrder) (config : VerifierConfig) (net : Network) (clock : Clock) (cache : Cache)
    (cert : CertIdentity)
    → is_some (to_error (Client.verify o config net clock cache cert).0)
      ≡ not (is_success (Client.verify o config net clock cache cert).0)
client_error o config net clock cache cert =
    case_error config net cert _ (client_cases o config net clock cache cert)
