-- ===== src/Verifier.antt =====
-- verify/verify.go, verify/policy.go and the configuration of verify/options.go: what the verifiers of
-- servers and of clients share. The resolver, the client of the log and the SCITT checks are interfaces; a
-- value of them says what they answer during one call.
pub mod Server
pub mod Client
pub mod Scitt
pub mod Safety
pub mod Policy
pub mod ServerSafety
pub mod ClientSafety
pub mod Errors
pub mod ClientErrors
pub mod Reuse
pub mod ScittSafety
pub mod ScittTrust
mod Tests
use alibaba_ati_golang_sdk.Base.{
  ℕ, ◌≡◌, Bool, true, false, not, List, [], ◌∷◌, ◌++◌, Option, none, some, Bytes, Result, ok, err,
  codes, is_empty, bytes_eq, if◌then◌else◌,
}
use alibaba_ati_golang_sdk.Models.Version.{Version}
use alibaba_ati_golang_sdk.Models.Fqdn.{Fqdn}
use alibaba_ati_golang_sdk.Models.TlLog.{TlResponse, TlAgentStatus, status_deprecated}
use alibaba_ati_golang_sdk.Cert.{CertIdentity}
use alibaba_ati_golang_sdk.Failure.{Failure, is_record_not_found}
use alibaba_ati_golang_sdk.Dane.{DaneResolver, DaneOutcome, is_pass, is_reject, is_verified, verify}
use alibaba_ati_golang_sdk.Dns.{AtiBadgeRecord}
use alibaba_ati_golang_sdk.BadgeCache.{
  BadgeCache, CachedBadge, MapOrder, get_stale_by_fqdn, get_stale_by_fqdn_version,
}
use alibaba_ati_golang_sdk.Outcome.{
  VerificationOutcome, OutcomeType, fail_open, of_type, new_fail_open_outcome,
  new_dns_error_outcome, new_tlog_error_outcome, new_not_ati_agent_outcome,
  new_dane_rejection_outcome, type_is_verified,
}

pub data FailurePolicy : Type 0 where
  fail_closed fail_open_with_cache fail_open_always : FailurePolicy

-- The fields that verify.go reads, but for the keys of SCITT and the cache, which is the state.
pub record VerifierConfig : Type 0 where
  pub failure_policy : FailurePolicy
  pub max_staleness : ℕ
  pub trusted_tl_host : Bytes
  pub dane_resolver : Option DaneResolver

-- DNSResolver, TransparencyLogClient and RewriteBadgeURLHost (net/url). The answer none is a nil record.
pub record Network : Type 0 where
  pub find_preferred_badge : Fqdn → Result Failure (Option AtiBadgeRecord)
  pub find_badge_for_version : Fqdn → Version → Result Failure (Option AtiBadgeRecord)
  pub fetch_tl_response : Bytes → Result Failure TlResponse
  pub rewrite_badge_url_host : Bytes → Bytes → Result Failure Bytes

-- The times that one call reads, each at its own place.
pub record Clock : Type 0 where
  pub lookup_at : ℕ
  pub stale_at : ℕ
  pub insert_at : ℕ
  pub cleanup_at : ℕ

-- The cache is nil or shared; a call returns it as it leaves it.
abbrev pub Cache : Type 0
Cache = Option BadgeCache

abbrev pub stale_outcome : VerificationOutcome → Option CachedBadge → VerificationOutcome
stale_outcome error_outcome none = error_outcome
stale_outcome error_outcome (some cached) = record (of_type fail_open) {
  tl_response = some cached.tl_response;
}

unfoldable pub apply_fail_open_with_cache :
    VerifierConfig → ℕ → Cache → Fqdn → Option Version → VerificationOutcome → VerificationOutcome
apply_fail_open_with_cache config now none fqdn version error_outcome = error_outcome
apply_fail_open_with_cache config now (some c) fqdn (some v) error_outcome =
    stale_outcome error_outcome (get_stale_by_fqdn_version now fqdn v config.max_staleness c)
apply_fail_open_with_cache config now (some c) fqdn none error_outcome =
    stale_outcome error_outcome (get_stale_by_fqdn now fqdn config.max_staleness c)

abbrev pub policy_outcome :
    FailurePolicy
    → VerifierConfig
    → ℕ
    → Cache
    → Fqdn
    → Option Version
    → VerificationOutcome
    → VerificationOutcome
policy_outcome fail_closed config now cache fqdn version error_outcome = error_outcome
policy_outcome fail_open_with_cache config now cache fqdn version error_outcome =
    apply_fail_open_with_cache config now cache fqdn version error_outcome
policy_outcome fail_open_always config now cache fqdn version error_outcome =
    new_fail_open_outcome error_outcome.error

unfoldable pub apply_failure_policy :
    VerifierConfig → ℕ → Cache → Fqdn → Option Version → VerificationOutcome → VerificationOutcome
apply_failure_policy config = policy_outcome config.failure_policy config

abbrev pub default_dane_port : ℕ
default_dane_port = 443

-- What verifyDANE does with the outcome of the check: the rejection, or the outcome with it written in.
abbrev pub after_dane : VerificationOutcome → DaneOutcome → VerificationOutcome
after_dane outcome d =
    if is_reject d
    then new_dane_rejection_outcome outcome.tl_response d
    else if is_pass d
    then if is_verified d then record outcome { dane_outcome = some d } else outcome
    else outcome

unfoldable pub verify_dane :
    Option DaneResolver → Fqdn → CertIdentity → VerificationOutcome → VerificationOutcome
verify_dane none fqdn cert outcome = outcome
verify_dane (some d) fqdn cert outcome =
    after_dane outcome (verify d fqdn default_dane_port (some cert))

-- applyDANE and the statement after it, which returns the rejection or the outcome.
unfoldable pub apply_dane :
    VerifierConfig → Fqdn → CertIdentity → VerificationOutcome → VerificationOutcome
apply_dane config fqdn cert outcome =
    if not (type_is_verified outcome.outcome_type)
    then outcome
    else verify_dane config.dane_resolver fqdn cert outcome

abbrev ok_or : Bytes → Result Failure Bytes → Bytes
ok_or raw (ok rewritten) = rewritten
ok_or raw (err e) = raw

unfoldable pub rewrite_tl_host : VerifierConfig → Network → Bytes → Bytes
rewrite_tl_host config net raw =
    if is_empty config.trusted_tl_host
    then raw
    else ok_or raw (net.rewrite_badge_url_host raw config.trusted_tl_host)

abbrev fetched :
    (VerificationOutcome → VerificationOutcome)
    → Result Failure TlResponse
    → Result VerificationOutcome TlResponse
fetched policy (ok r) = ok r
fetched policy (err e) = err (policy (new_tlog_error_outcome e))

-- fetchTLResponse, of which the two verifiers have a copy each: from the answer of DNS on, where `policy`
-- is applyFailurePolicy for the rest of its arguments.
unfoldable pub fetch_after_dns :
    VerifierConfig
    → Network
    → (VerificationOutcome → VerificationOutcome)
    → Fqdn
    → Result Failure (Option AtiBadgeRecord)
    → Result VerificationOutcome TlResponse
unfolding rewrite_tl_host
fetch_after_dns config net policy fqdn (err e) =
    if is_record_not_found e
    then err (new_not_ati_agent_outcome fqdn.value)
    else err (policy (new_dns_error_outcome e))
fetch_after_dns config net policy fqdn (ok none) = err (new_not_ati_agent_outcome fqdn.value)
fetch_after_dns config net policy fqdn (ok (some r)) =
    fetched policy (net.fetch_tl_response (rewrite_tl_host config net r.url))

-- The end of verifyWithTLResponse.
abbrev pub deprecated_warning : Bytes
deprecated_warning = codes "agent status is DEPRECATED"

abbrev pub warn_if_deprecated : Bytes → VerificationOutcome → VerificationOutcome
warn_if_deprecated status o =
    if bytes_eq status status_deprecated
    then record o { warnings = o.warnings ++ deprecated_warning ∷ [] }
    else o
