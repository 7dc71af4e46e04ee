-- ===== src/Verifier/Errors.antt =====
-- Which outcomes fail open, and which report an error.
use alibaba_ati_golang_sdk.Base.{
  ◌≡◌, refl, ◌∙◌, sym, true, false, not, List, Option, none, some, Bytes, Result, ok, err, arith,
  Bool-cases, inl, inr, ◌⊎◌, equal_fold,
}
use alibaba_ati_golang_sdk.Base.Map.{is_some}
use mathlib.Core.Bool.{false≢true}
use alibaba_ati_golang_sdk.Models.Fqdn.{Fqdn}
use alibaba_ati_golang_sdk.Models.TlLog.{
  TlResponse, is_valid_for_connection, server_cert_fingerprint, previous_server_cert_fingerprint,
  identity_host,
}
use alibaba_ati_golang_sdk.Cert.{
  CertIdentity, AtiName, NameError, parse_ati_name, matches_with_renewal,
}
use alibaba_ati_golang_sdk.Failure.{Failure}
use alibaba_ati_golang_sdk.Dane.{
  DaneResolver, DaneOutcome, is_reject, is_pass, is_verified, verify_with_lookup, rejects,
  after_lookup, TlsaLookupResult, match_records, after_match,
}
use alibaba_ati_golang_sdk.Dane as Dane
use alibaba_ati_golang_sdk.Dns.{AtiBadgeRecord}
use alibaba_ati_golang_sdk.BadgeCache.{MapOrder, CachedBadge}
use alibaba_ati_golang_sdk.Outcome.{
  VerificationOutcome, type_is_verified, type_is_fail_open, type_is_fingerprint_mismatch, to_error,
  is_success, is_fail_open, fail_open,
}
use alibaba_ati_golang_sdk.Verifier.{
  VerifierConfig, Network, Clock, Cache, apply_dane, verify_dane, after_dane, default_dane_port,
}
use alibaba_ati_golang_sdk.Verifier.Server as Server
use alibaba_ati_golang_sdk.Verifier.Client as Client
use alibaba_ati_golang_sdk.Verifier.Policy.{
  LetsPass, NetworkFailed, FailedLookup, server_fetch_failed,
}

-- An outcome is verified or reports an error.
abbrev pub Decided : VerificationOutcome → Type 0
Decided o =
    (type_is_fail_open o.outcome_type ≡ false)
    × ((type_is_verified o.outcome_type ≡ true) ⊎ (is_some (to_error o) ≡ true))

access-Decided : (r : TlResponse) (cert : CertIdentity) → Decided (Server.check_access_host r cert)
unfolding to_error
access-Decided r cert = ground arith

identity-Decided :
    (r : TlResponse) (cert : CertIdentity) (fqdn : Fqdn) (n : Result NameError AtiName)
    → Decided (Server.check_identity r cert fqdn n)
unfolding to_error
identity-Decided r cert fqdn (ok n) = elim (Bool-cases (equal_fold n.host fqdn.value)) [
  | inl e ↦ rw e (access-Decided r cert)
  | inr e ↦ rw e (refl, inr refl)
]
identity-Decided r cert fqdn (err x) =
    elim (Bool-cases (equal_fold (identity_host r.payload) fqdn.value)) [
      | inl e ↦ rw e (access-Decided r cert)
      | inr e ↦ rw e (refl, inr refl)
    ]

server-Decided :
    (r : TlResponse) (cert : CertIdentity) (fqdn : Fqdn)
    → Decided (Server.verify_with_tl_response r cert fqdn)
unfolding Server.verify_with_tl_response to_error
server-Decided r cert fqdn = elim (Bool-cases (is_valid_for_connection r.payload.agent_status)) [
  | inr s ↦ rw s (refl, inr refl)
  | inl s ↦
      elim (Bool-cases (
        matches_with_renewal cert.fingerprint (server_cert_fingerprint r.payload)
          (previous_server_cert_fingerprint r.payload))) [
            | inr f ↦ rw (s, f) (refl, inr refl)
            | inl f ↦ rw (s, f) (identity-Decided r cert fqdn (parse_ati_name r.payload.agent_name))
          ]
]

pub client-Decided :
    (r : TlResponse) (cert : CertIdentity) → Decided (Client.verify_with_tl_response r cert)
unfolding Client.verify_with_tl_response to_error
client-Decided r cert = ground arith

-- A rejection of DANE has an error.
match_error :
    (spki : Bytes) (rs : List Dane.TlsaRecord) (m : Result Bytes Bytes)
    → is_reject (after_match spki rs m) ≡ true
    → is_some (after_match spki rs m).error ≡ true
unfolding is_reject
match_error spki rs (ok h) e = ground arith
match_error spki rs (err h) e = refl

reject_error :
    (fqdn : Fqdn) (cert : CertIdentity) (l : Result Failure TlsaLookupResult)
    → is_reject (verify_with_lookup fqdn (some cert) l) ≡ true
    → is_some (verify_with_lookup fqdn (some cert) l).error ≡ true
unfolding verify_with_lookup is_reject
reject_error fqdn cert (err e) h = ground arith
reject_error fqdn cert (ok l) h = elim (Bool-cases l.found) [
  | inr f ↦ rw f refl
  | inl f ↦ elim (Bool-cases l.dnssec_valid) [
    | inr d ↦ rw (f, d) refl
    | inl d ↦ rw (f, d) (match_error _ l.records _ (rw (f, d) at h))
  ]
]

verified-Decided : (o : VerificationOutcome) → type_is_verified o.outcome_type ≡ true → Decided o
verified-Decided o h = (ground arith, inl h)

dane-Decided :
    (o : VerificationOutcome) (d : DaneOutcome)
    → (is_reject d ≡ true → is_some d.error ≡ true)
    → type_is_verified o.outcome_type ≡ true
    → Decided (after_dane o d)
unfolding to_error
dane-Decided o d h k = elim (Bool-cases (is_reject d)) [
  | inl r ↦ rw r (refl, inr (h r))
  | inr r ↦ verified-Decided (after_dane o d) (ground arith)
]

verify_dane-Decided :
    (d : Option DaneResolver) (fqdn : Fqdn) (cert : CertIdentity) (o : VerificationOutcome)
    → type_is_verified o.outcome_type ≡ true
    → Decided (verify_dane d fqdn cert o)
unfolding verify_dane Dane.verify
verify_dane-Decided none fqdn cert o k = verified-Decided o k
verify_dane-Decided (some d) fqdn cert o k =
    dane-Decided o _ (reject_error fqdn cert (d.lookup_tlsa fqdn default_dane_port)) k

pub apply_dane-Decided :
    (config : VerifierConfig) (fqdn : Fqdn) (cert : CertIdentity) (o : VerificationOutcome)
    → Decided o
    → Decided (apply_dane config fqdn cert o)
unfolding apply_dane
apply_dane-Decided config fqdn cert o k = elim (Bool-cases (type_is_verified o.outcome_type)) [
  | inl v ↦ rw v (verify_dane-Decided config.dane_resolver fqdn cert o v)
  | inr v ↦ rw v k
]

-- The outcome is decided, or the policy is open and the network failed for what was asked.
abbrev pub DecidedOrOpen :
    VerifierConfig → Network → Result Failure (Option AtiBadgeRecord) → VerificationOutcome → Type 0
DecidedOrOpen config net answer o =
    Decided o
    ⊎ ((o.outcome_type ≡ fail_open)
        × LetsPass config.failure_policy
        × NetworkFailed config net answer)

pub failed_decided :
    (config : VerifierConfig) (net : Network) (answer : Result Failure (Option AtiBadgeRecord))
    (o : VerificationOutcome)
    → FailedLookup config net answer o
    → DecidedOrOpen config net answer o
failed_decided config net answer o (inl p) = inl (p.closed, inr p.reports)
failed_decided config net answer o (inr k) = inr k

server_fetched_decided :
    (o : MapOrder) (config : VerifierConfig) (net : Network) (clock : Clock) (cache : Cache)
    (fqdn : Fqdn) (cert : CertIdentity) (f : Result VerificationOutcome TlResponse)
    → Server.fetch_tl_response config net clock cache fqdn ≡ f
    → DecidedOrOpen config net
        (net.find_preferred_badge fqdn)
        (Server.verify_fetched o config clock cache fqdn cert f).0
server_fetched_decided o config net clock cache fqdn cert (ok r) e =
    inl (apply_dane-Decided config fqdn cert _ (server-Decided r cert fqdn))
server_fetched_decided o config net clock cache fqdn cert (err x) e =
    failed_decided config net _ x (server_fetch_failed config net clock cache fqdn x e)

server_cached_decided :
    (config : VerifierConfig) (net : Network) (cache : Cache) (fqdn : Fqdn) (cert : CertIdentity)
    (fetch : VerificationOutcome × Cache) (b : Option CachedBadge)
    → DecidedOrOpen config net (net.find_preferred_badge fqdn) fetch.0
    → DecidedOrOpen config net
        (net.find_preferred_badge fqdn)
        (Server.verify_cached config cache fqdn cert fetch b).0
server_cached_decided config net cache fqdn cert fetch none k = k
server_cached_decided config net cache fqdn cert fetch (some b) k =
    elim (Bool-cases (
      type_is_fingerprint_mismatch
        (Server.verify_with_tl_response b.tl_response cert fqdn).outcome_type)) [
          | inl m ↦ rw m k
          | inr m ↦
              rw m (
                inl
                  (apply_dane-Decided config fqdn cert _ (server-Decided b.tl_response cert fqdn)))
        ]

pub server_cases :
    (o : MapOrder) (config : VerifierConfig) (net : Network) (clock : Clock) (cache : Cache)
    (fqdn : Fqdn) (cert : CertIdentity)
    → DecidedOrOpen config net
        (net.find_preferred_badge fqdn)
        (Server.verify o config net clock cache fqdn cert).0
unfolding Server.verify
server_cases o config net clock cache fqdn cert =
    server_cached_decided config net cache fqdn cert _ (Server.cached_response clock fqdn cache)
      (server_fetched_decided o config net clock cache fqdn cert _ refl)

-- The outcome for a server fails open only if the policy is not FailClosed, and DNS failed otherwise than by
-- having no record, or the log failed for the record that DNS gave.
pub fail_open_cause :
    (o : MapOrder) (config : VerifierConfig) (net : Network) (clock : Clock) (cache : Cache)
    (fqdn : Fqdn) (cert : CertIdentity)
    → is_fail_open (Server.verify o config net clock cache fqdn cert).0 ≡ true
    → LetsPass config.failure_policy × NetworkFailed config net (net.find_preferred_badge fqdn)
unfolding is_fail_open
fail_open_cause o config net clock cache fqdn cert h =
    elim (server_cases o config net clock cache fqdn cert) [
      | inl (a, b) ↦ absurd (false≢true (sym a ∙ h))
      | inr (a, b, c) ↦ (b, c)
    ]

success_error :
    (config : VerifierConfig) (net : Network) (answer : Result Failure (Option AtiBadgeRecord))
    (x : VerificationOutcome)
    → DecidedOrOpen config net answer x
    → is_some (to_error x) ≡ not (is_success x)
unfolding to_error is_success
success_error config net answer x (inl (a, inl v)) = ground arith
success_error config net answer x (inl (a, inr e)) = ground arith
success_error config net answer x (inr (e, k, n)) = ground arith

-- ToError gives an error for the outcome of a server exactly when the outcome is no success, whatever path
-- the verification took.
pub server_error :
    (o : MapOrder) (config : VerifierConfig) (net : Network) (clock : Clock) (cache : Cache)
    (fqdn : Fqdn) (cert : CertIdentity)
    → is_some (to_error (Server.verify o config net clock cache fqdn cert).0)
      ≡ not (is_success (Server.verify o config net clock cache fqdn cert).0)
server_error o config net clock cache fqdn cert =
    success_error config net _ _ (server_cases o config net clock cache fqdn cert)
