-- ===== src/Verifier/Client.antt =====
-- verify/verify.go: ClientVerifier.
use alibaba_ati_golang_sdk.Base.{
  not, [], Option, none, some, Bytes, Result, ok, err, equal_fold, any, if◌then◌else◌,
}
use alibaba_ati_golang_sdk.Models.Version.{Version}
use alibaba_ati_golang_sdk.Models.Fqdn.{Fqdn, FqdnError, new_fqdn}
use alibaba_ati_golang_sdk.Models.TlLog.{
  TlResponse, is_valid_for_connection, identity_cert_fingerprint,
  previous_identity_cert_fingerprint,
}
use alibaba_ati_golang_sdk.Cert.{
  CertIdentity, AtiName, cert_fqdn, cert_ati_name, cert_ati_names, matches_with_renewal,
  fingerprint_string,
}
use alibaba_ati_golang_sdk.Failure.{no_cn, no_uri_san, bad_fqdn}
use alibaba_ati_golang_sdk.BadgeCache.{
  CachedBadge, MapOrder, get_by_fqdn_version, insert_for_version,
}
use alibaba_ati_golang_sdk.Outcome.{
  VerificationOutcome, new_verified_outcome, new_invalid_status_outcome,
  new_fingerprint_mismatch_outcome, new_ati_name_mismatch_outcome, new_cert_error_outcome,
}
use alibaba_ati_golang_sdk.Verifier.{
  VerifierConfig, Network, Clock, Cache, apply_dane, apply_failure_policy, fetch_after_dns,
  warn_if_deprecated,
}

-- certATIName; the method String of a name gives its text back.
abbrev raw_or_empty : Option AtiName → Bytes
raw_or_empty none = []
raw_or_empty (some n) = n.raw

unfoldable pub verify_with_tl_response : TlResponse → CertIdentity → VerificationOutcome
verify_with_tl_response r cert =
    if not (is_valid_for_connection r.payload.agent_status)
    then new_invalid_status_outcome r r.payload.agent_status
    else if not (
        matches_with_renewal cert.fingerprint (identity_cert_fingerprint r.payload)
          (previous_identity_cert_fingerprint r.payload))
    then new_fingerprint_mismatch_outcome r (identity_cert_fingerprint r.payload)
        (fingerprint_string cert.fingerprint)
    else if not (any (λ n. equal_fold r.payload.agent_name n.raw) (cert_ati_names cert))
    then new_ati_name_mismatch_outcome r r.payload.agent_name (raw_or_empty (cert_ati_name cert))
    else warn_if_deprecated r.payload.agent_status (new_verified_outcome r cert.fingerprint)

unfoldable pub fetch_tl_response :
    VerifierConfig
    → Network
    → Clock
    → Cache
    → Fqdn
    → Version
    → Result VerificationOutcome TlResponse
fetch_tl_response config net clock cache fqdn version =
    fetch_after_dns config net
      (apply_failure_policy config clock.stale_at cache fqdn (some version)) fqdn
      (net.find_badge_for_version fqdn version)

abbrev pub cached_response : Clock → Fqdn → Version → Cache → Option CachedBadge
cached_response clock fqdn version none = none
cached_response clock fqdn version (some c) = get_by_fqdn_version clock.lookup_at fqdn version c

abbrev pub cache_response : MapOrder → Clock → Fqdn → Version → TlResponse → Cache → Cache
cache_response o clock fqdn version r none = none
cache_response o clock fqdn version r (some c) =
    some (insert_for_version o clock.insert_at clock.cleanup_at fqdn version r c)

-- Steps 6 and 7.
abbrev pub verify_fetched :
    MapOrder
    → VerifierConfig
    → Clock
    → Cache
    → Fqdn
    → Version
    → CertIdentity
    → Result VerificationOutcome TlResponse
    → VerificationOutcome × Cache
verify_fetched o config clock cache fqdn version cert (err outcome) = (outcome, cache)
verify_fetched o config clock cache fqdn version cert (ok r) = (
  apply_dane config fqdn cert (verify_with_tl_response r cert),
  cache_response o clock fqdn version r cache,
)

-- Step 4: `fetch` is what follows it.
abbrev pub verify_cached :
    VerifierConfig
    → Cache
    → Fqdn
    → CertIdentity
    → VerificationOutcome × Cache
    → Option CachedBadge
    → VerificationOutcome × Cache
verify_cached config cache fqdn cert fetch none = fetch
verify_cached config cache fqdn cert fetch (some cached) =
    (apply_dane config fqdn cert (verify_with_tl_response cached.tl_response cert), cache)

-- From the FQDN on.
abbrev pub verify_name :
    MapOrder
    → VerifierConfig
    → Network
    → Clock
    → Cache
    → CertIdentity
    → AtiName
    → Result FqdnError Fqdn
    → VerificationOutcome × Cache
verify_name o config net clock cache cert name (err e) =
    (new_cert_error_outcome (bad_fqdn e), cache)
verify_name o config net clock cache cert name (ok fqdn) =
    verify_cached config cache fqdn cert
      (verify_fetched o config clock cache fqdn name.version cert
        (fetch_tl_response config net clock cache fqdn name.version))
      (cached_response clock fqdn name.version cache)

-- From the ATI name on.
abbrev pub verify_named :
    MapOrder
    → VerifierConfig
    → Network
    → Clock
    → Cache
    → CertIdentity
    → Option AtiName
    → VerificationOutcome × Cache
verify_named o config net clock cache cert none = (new_cert_error_outcome no_uri_san, cache)
verify_named o config net clock cache cert (some name) =
    verify_name o config net clock cache cert name (new_fqdn name.host)

abbrev pub verify_subject :
    MapOrder
    → VerifierConfig
    → Network
    → Clock
    → Cache
    → CertIdentity
    → Option Bytes
    → VerificationOutcome × Cache
verify_subject o config net clock cache cert none = (new_cert_error_outcome no_cn, cache)
verify_subject o config net clock cache cert (some _) =
    verify_named o config net clock cache cert (cert_ati_name cert)

-- The method Verify.
unfoldable pub verify :
    MapOrder → VerifierConfig → Network → Clock → Cache → CertIdentity → VerificationOutcome × Cache
verify o config net clock cache cert = verify_subject o config net clock cache cert (cert_fqdn cert)
