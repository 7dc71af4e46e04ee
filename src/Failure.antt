-- ===== src/Failure.antt =====
-- verify/errors.go and verify/scitt/errors.go: the errors that a verification hands on, told apart as far
-- as the code tells them apart with errors.Is and errors.As. The texts that only a reader sees are left out.
use alibaba_ati_golang_sdk.Base.{Bool, true, false, Bytes}
use alibaba_ati_golang_sdk.Models.Fqdn.{FqdnError}
use alibaba_ati_golang_sdk.Cert.{NameError}
use alibaba_ati_golang_sdk.Scitt.Errors.{
  ScittError, key_error, transport_failure, TransportErrorType, not_found, agent_terminal,
  not_supported, http_error, base64_decode,
}

-- The method ShouldFallbackToBadge.
unfoldable pub should_fallback_to_badge : TransportErrorType → Bool
should_fallback_to_badge not_found = true
should_fallback_to_badge agent_terminal = false
should_fallback_to_badge not_supported = true
should_fallback_to_badge http_error = true
should_fallback_to_badge base64_decode = false

pub data Failure : Type 0 where
  -- an error that errors.Is takes for ErrRecordNotFound
  record_not_found : Bytes → Failure
  -- &DNSError{Type: DNSErrorNotFound}
  dns_not_found : Bytes → Failure
  -- an error that errors.As takes for a DANEError of type DANEErrorDNSSECFailed
  dnssec_failed : Bytes → Failure
  -- an error that errors.As takes for a scitt.TransportError
  transport : TransportErrorType → Bytes → Failure
  -- the errors of receipts and tokens
  scitt : ScittError → Failure
  -- VerificationError
  no_cn no_uri_san : Failure
  invalid_status : Bytes → Failure
  fingerprint_mismatch hostname_mismatch ati_name_mismatch : Bytes → Bytes → Failure
  bad_fqdn : FqdnError → Failure
  bad_ati_name : NameError → Failure
  -- errors.New and fmt.Errorf
  nil_certificate no_key_lookup both_headers_required no_cert_match tlsa_mismatch : Failure
  no_tlsa_records tlsa_without_dnssec : Bytes → Failure
  status_not_allowed : Bytes → Failure
  wrong_token_host : Bytes → Bytes → Failure
  -- any other error of a package that the code calls
  other : Bytes → Failure

unfoldable pub is_record_not_found : Failure → Bool
is_record_not_found (record_not_found text) = true
is_record_not_found _ = false

unfoldable pub is_dnssec_failed : Failure → Bool
is_dnssec_failed (dnssec_failed text) = true
is_dnssec_failed _ = false

-- errors.As(err, &transportErr) && transportErr.ShouldFallbackToBadge()
unfoldable pub falls_back : Failure → Bool
unfolding should_fallback_to_badge
falls_back (transport kind text) = should_fallback_to_badge kind
falls_back (scitt (key_error (transport_failure kind text))) = should_fallback_to_badge kind
falls_back _ = false
