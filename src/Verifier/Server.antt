-- ===== src/Verifier/Server.antt =====
-- verify/verify.go: ServerVerifier.
use alibaba_ati_golang_sdk.Base.{
  Bool, true, false, not, ◌&&◌, List, [], ◌∷◌, ◌++◌, Option, none, some, Bytes, Result, ok, err,
  codes, is_empty, equal_fold, if◌then◌else◌,
}
use alibaba_ati_golang_sdk.Models.Fqdn.{Fqdn}
use alibaba_ati_golang_sdk.Models.TlLog.{
  TlResponse, is_valid_for_connection, server_cert_fingerprint, previous_server_cert_fingerprint,
  identity_host, access_host,
}
use alibaba_ati_golang_sdk.Cert.{
  CertIdentity, AtiName, NameError, parse_ati_name, matches_with_renewal, fingerprint_string,
  covers_host,
}
use alibaba_ati_golang_sdk.Failure.{Failure}
use alibaba_ati_golang_sdk.BadgeCache.{CachedBadge, MapOrder, get_by_fqdn, insert_badge}
use alibaba_ati_golang_sdk.Outcome.{
  VerificationOutcome, new_verified_outcome, new_invalid_status_outcome,
  new_fingerprint_mismatch_outcome, new_hostname_mismatch_outcome, new_ati_name_mismatch_outcome,
  type_is_fingerprint_mismatch, to_error,
}
use alibaba_ati_golang_sdk.Verifier.{
  VerifierConfig, Network, Clock, Cache, apply_dane, apply_failure_policy, fetch_after_dns,
  warn_if_deprecated,
}

-- strings.Join(sans, ", ")
abbrev join : List Bytes → Bytes
join [] = []
join (s ∷ []) = s
join (s ∷ t ∷ ts) = s ++ (codes ", " ++ join (t ∷ ts))

-- len(cert.DNSSANs) > 0
abbrev pub has_sans : List Bytes → Bool
has_sans [] = false
has_sans (s ∷ ss) = true

-- From the access host on.
abbrev pub check_access_host : TlResponse → CertIdentity → VerificationOutcome
check_access_host r cert =
    let host = access_host r.payload in
    if not (is_empty host) && (has_sans cert.dns_sans && not (covers_host cert host))
    then new_hostname_mismatch_outcome r host (join cert.dns_sans)
    else warn_if_deprecated r.payload.agent_status (new_verified_outcome r cert.fingerprint)

-- The test of the identity that was looked up.
abbrev pub check_identity :
    TlResponse → CertIdentity → Fqdn → Result NameError AtiName → VerificationOutcome
check_identity r cert fqdn (ok name) =
    if not (equal_fold name.host fqdn.value)
    then new_ati_name_mismatch_outcome r r.payload.agent_name fqdn.value
    else check_access_host r cert
check_identity r cert fqdn (err e) =
    if not (equal_fold (identity_host r.payload) fqdn.value)
    then new_hostname_mismatch_outcome r fqdn.value (identity_host r.payload)
    else check_access_host r cert

unfoldable pub verify_with_tl_response : TlResponse → CertIdentity → Fqdn → VerificationOutcome
verify_with_tl_response r cert fqdn =
    if not (is_valid_for_connection r.payload.agent_status)
    then new_invalid_status_outcome r r.payload.agent_status
    else if not (
        matches_with_renewal cert.fingerprint (server_cert_fingerprint r.payload)
          (previous_server_cert_fingerprint r.payload))
    then new_fingerprint_mismatch_outcome r (server_cert_fingerprint r.payload)
        (fingerprint_string cert.fingerprint)
    else check_identity r cert fqdn (parse_ati_name r.payload.agent_name)

unfoldable pub fetch_tl_response :
    VerifierConfig → Network → Clock → Cache → Fqdn → Result VerificationOutcome TlResponse
fetch_tl_response config net clock cache fqdn =
    fetch_after_dns config net (apply_failure_policy config clock.stale_at cache fqdn none) fqdn
      (net.find_preferred_badge fqdn)

abbrev pub cached_response : Clock → Fqdn → Cache → Option CachedBadge
cached_response clock fqdn none = none
cached_response clock fqdn (some c) = get_by_fqdn clock.lookup_at fqdn c

abbrev pub cache_response : MapOrder → Clock → Fqdn → TlResponse → Cache → Cache
cache_response o clock fqdn r none = none
cache_response o clock fqdn r (some c) =
    some (insert_badge o clock.insert_at clock.cleanup_at fqdn r c)

-- Steps 3 and 4.
abbrev pub verify_fetched :
    MapOrder
    → VerifierConfig
    → Clock
    → Cache
    → Fqdn
    → CertIdentity
    → Result VerificationOutcome TlResponse
    → VerificationOutcome × Cache
verify_fetched o config clock cache fqdn cert (err outcome) = (outcome, cache)
verify_fetched o config clock cache fqdn cert (ok r) = (
  apply_dane config fqdn cert (verify_with_tl_response r cert fqdn),
  cache_response o clock fqdn r cache,
)

-- Step 1: `fetch` is what follows it.
abbrev pub verify_cached :
    VerifierConfig
    → Cache
    → Fqdn
    → CertIdentity
    → VerificationOutcome × Cache
    → Option CachedBadge
    → VerificationOutcome × Cache
verify_cached config cache fqdn cert fetch none = fetch
verify_cached config cache fqdn cert fetch (some cached) =
    let result = verify_with_tl_response cached.tl_response cert fqdn in
    if not (type_is_fingerprint_mismatch result.outcome_type)
    then (apply_dane config fqdn cert result, cache)
    else fetch

-- The method Verify: the outcome, and the cache as it is left.
unfoldable pub verify :
    MapOrder
    → VerifierConfig
    → Network
    → Clock
    → Cache
    → Fqdn
    → CertIdentity
    → VerificationOutcome × Cache
verify o config net clock cache fqdn cert =
    verify_cached config cache fqdn cert
      (verify_fetched o config clock cache fqdn cert
        (fetch_tl_response config net clock cache fqdn))
      (cached_response clock fqdn cache)

abbrev prefetched :
    MapOrder
    → Clock
    → Cache
    → Fqdn
    → Result VerificationOutcome TlResponse
    → Result (Option Failure) TlResponse × Cache
prefetched o clock cache fqdn (err outcome) = (err (to_error outcome), cache)
prefetched o clock cache fqdn (ok r) = (ok r, cache_response o clock fqdn r cache)

abbrev prefetch_cached :
    Cache
    → Result (Option Failure) TlResponse × Cache
    → Option CachedBadge
    → Result (Option Failure) TlResponse × Cache
prefetch_cached cache fetch none = fetch
prefetch_cached cache fetch (some cached) = (ok cached.tl_response, cache)

-- The error `err none` is a nil response with a nil error.
unfoldable pub prefetch :
    MapOrder
    → VerifierConfig
    → Network
    → Clock
    → Cache
    → Fqdn
    → Result (Option Failure) TlResponse × Cache
prefetch o config net clock cache fqdn =
    prefetch_cached cache
      (prefetched o clock cache fqdn (fetch_tl_response config net clock cache fqdn))
      (cached_response clock fqdn cache)
