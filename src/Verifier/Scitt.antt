-- ===== src/Verifier/Scitt.antt =====
-- verify/verify.go: VerifyWithScitt of both verifiers and verifyWithHeaders, and the two functions of
-- verify/scitt/status_token.go that match a certificate with a token.
use alibaba_ati_golang_sdk.Base.{
  Bool, not, [], ◌∷◌, Option, none, some, Bytes, Result, ok, err, bytes_eq, equal_fold, any,
  if◌then◌else◌,
}
use alibaba_ati_golang_sdk.Models.Fqdn.{Fqdn, FqdnError, new_fqdn}
use alibaba_ati_golang_sdk.Scitt.Types.{
  StatusTokenPayload, VerifiedStatusToken, is_valid_for_connection, status_deprecated,
}
use alibaba_ati_golang_sdk.Scitt.Headers.{Headers, headers_is_empty, has_both}
use alibaba_ati_golang_sdk.Cert.{
  CertIdentity, AtiName, NameError, parse_ati_name, cert_fqdn, cert_ati_name,
}
use alibaba_ati_golang_sdk.Failure.{
  Failure, falls_back, no_cn, no_uri_san, bad_fqdn, bad_ati_name, no_key_lookup,
  both_headers_required, no_cert_match, status_not_allowed, wrong_token_host,
}
use alibaba_ati_golang_sdk.BadgeCache.{MapOrder}
use alibaba_ati_golang_sdk.Outcome.{
  VerificationOutcome, of_type, verified, tier_full_scitt, new_scitt_error_outcome,
  new_cert_error_outcome,
}
use alibaba_ati_golang_sdk.Verifier.{VerifierConfig, Network, Clock, Cache, deprecated_warning}
use alibaba_ati_golang_sdk.Verifier.Server as Server
use alibaba_ati_golang_sdk.Verifier.Client as Client

pub data CertRole : Type 0 where
  role_server role_identity : CertRole

-- VerifyReceipt and VerifyStatusToken, with the keys and the tolerance of the configuration. What a receipt
-- says besides that it is valid is only logged.
pub record ScittChecks : Type 0 where
  pub verify_receipt : Bytes → Result Failure (Unit {0})
  pub verify_status_token : Bytes → Result Failure VerifiedStatusToken

unfoldable pub matches_server_cert : StatusTokenPayload → Bytes → Bool
matches_server_cert p fingerprint =
    any (λ c. bytes_eq c.fingerprint fingerprint) p.valid_server_certs

unfoldable pub matches_identity_cert : StatusTokenPayload → Bytes → Bool
matches_identity_cert p fingerprint =
    any (λ c. bytes_eq c.fingerprint fingerprint) p.valid_identity_certs

abbrev pub matches_role : CertRole → StatusTokenPayload → Bytes → Bool
matches_role role_server = matches_server_cert
matches_role role_identity = matches_identity_cert

abbrev pub scitt_verified : CertIdentity → StatusTokenPayload → VerificationOutcome
scitt_verified cert p = record (of_type verified) {
  tier = tier_full_scitt;
  matched_fingerprint = some cert.fingerprint;
  warnings = if bytes_eq p.status status_deprecated then deprecated_warning ∷ [] else [];
}

abbrev pub bind_host :
    Fqdn → CertIdentity → StatusTokenPayload → Result NameError AtiName → VerificationOutcome
bind_host fqdn cert p (err e) = new_scitt_error_outcome (bad_ati_name e)
bind_host fqdn cert p (ok name) =
    if not (equal_fold name.host fqdn.value)
    then new_scitt_error_outcome (wrong_token_host name.host fqdn.value)
    else scitt_verified cert p

-- The tests of a token that was verified.
unfoldable pub check_token :
    Fqdn → CertIdentity → CertRole → StatusTokenPayload → VerificationOutcome
check_token fqdn cert role p =
    if not (is_valid_for_connection p.status)
    then new_scitt_error_outcome (status_not_allowed p.status)
    else if not (matches_role role p cert.fingerprint.bytes)
    then new_scitt_error_outcome no_cert_match
    else bind_host fqdn cert p (parse_ati_name p.ati_name)

-- `fallback` is what badgeFallback returns.
abbrev pub after_token :
    Fqdn
    → CertIdentity
    → CertRole
    → Cache
    → VerificationOutcome × Cache
    → Result Failure VerifiedStatusToken
    → VerificationOutcome × Cache
after_token fqdn cert role cache fallback (err e) =
    if falls_back e then fallback else (new_scitt_error_outcome e, cache)
after_token fqdn cert role cache fallback (ok token) =
    (check_token fqdn cert role token.payload, cache)

abbrev pub after_receipt :
    Fqdn
    → CertIdentity
    → CertRole
    → Cache
    → VerificationOutcome × Cache
    → Result Failure VerifiedStatusToken
    → Result Failure (Unit {0})
    → VerificationOutcome × Cache
after_receipt fqdn cert role cache fallback token (err e) =
    if falls_back e then fallback else (new_scitt_error_outcome e, cache)
after_receipt fqdn cert role cache fallback token (ok _) =
    after_token fqdn cert role cache fallback token

-- The checks are none where no key lookup is configured.
unfoldable pub verify_with_headers :
    Option ScittChecks
    → Fqdn
    → CertIdentity
    → Headers
    → CertRole
    → Cache
    → VerificationOutcome × Cache
    → VerificationOutcome × Cache
verify_with_headers none fqdn cert h role cache fallback =
    (new_scitt_error_outcome no_key_lookup, cache)
verify_with_headers (some s) fqdn cert h role cache fallback =
    after_receipt fqdn cert role cache fallback (s.verify_status_token h.status_token)
      (s.verify_receipt h.receipt)

-- The tests of the headers with which both methods begin; none is nil.
abbrev pub with_headers :
    Option Headers
    → Cache
    → VerificationOutcome × Cache
    → (Headers → VerificationOutcome × Cache)
    → VerificationOutcome × Cache
with_headers none cache badge scitt = badge
with_headers (some h) cache badge scitt =
    if headers_is_empty h
    then badge
    else if not (has_both h)
    then (new_scitt_error_outcome both_headers_required, cache)
    else scitt h

unfoldable pub verify_server :
    MapOrder
    → VerifierConfig
    → Network
    → Option ScittChecks
    → Clock
    → Cache
    → Fqdn
    → CertIdentity
    → Option Headers
    → VerificationOutcome × Cache
verify_server o config net s clock cache fqdn cert h =
    let badge = Server.verify o config net clock cache fqdn cert in
    with_headers h cache badge (λ h. verify_with_headers s fqdn cert h role_server cache badge)

abbrev client_named :
    Option ScittChecks
    → CertIdentity
    → Cache
    → VerificationOutcome × Cache
    → Headers
    → Fqdn
    → Option AtiName
    → VerificationOutcome × Cache
client_named s cert cache badge h fqdn none = (new_cert_error_outcome no_uri_san, cache)
client_named s cert cache badge h fqdn (some _) =
    verify_with_headers s fqdn cert h role_identity cache badge

abbrev client_fqdn :
    Option ScittChecks
    → CertIdentity
    → Cache
    → VerificationOutcome × Cache
    → Headers
    → Result FqdnError Fqdn
    → VerificationOutcome × Cache
client_fqdn s cert cache badge h (err e) = (new_cert_error_outcome (bad_fqdn e), cache)
client_fqdn s cert cache badge h (ok fqdn) =
    client_named s cert cache badge h fqdn (cert_ati_name cert)

abbrev client_subject :
    Option ScittChecks
    → CertIdentity
    → Cache
    → VerificationOutcome × Cache
    → Option Bytes
    → Headers
    → VerificationOutcome × Cache
client_subject s cert cache badge none h = (new_cert_error_outcome no_cn, cache)
client_subject s cert cache badge (some name) h = client_fqdn s cert cache badge h (new_fqdn name)

unfoldable pub verify_client :
    MapOrder
    → VerifierConfig
    → Network
    → Option ScittChecks
    → Clock
    → Cache
    → CertIdentity
    → Option Headers
    → VerificationOutcome × Cache
verify_client o config net s clock cache cert h =
    let badge = Client.verify o config net clock cache cert in
    with_headers h cache badge (client_subject s cert cache badge (cert_fqdn cert))
