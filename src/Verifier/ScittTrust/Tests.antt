-- ===== src/Verifier/ScittTrust/Tests.antt =====
-- A server with both headers while DNS and the log are out.
use alibaba_ati_golang_sdk.Verifier.Server as Server
use alibaba_ati_golang_sdk.Base.{
  ◌⊎◌, ◌≡◌, refl, true, [], err, none, some, to_lower, bytes_eq, cut_prefix, contains_byte,
  equal_fold, ensure, require,
}
use alibaba_ati_golang_sdk.Base.Int.{pos}
use alibaba_ati_golang_sdk.Base.Split.{cut, split, split_n, parse_uint32}
use alibaba_ati_golang_sdk.Models.Version.{parse_version, parse_parts}
use alibaba_ati_golang_sdk.Failure.{other}
use alibaba_ati_golang_sdk.Cert.{parse_ati_name}
use alibaba_ati_golang_sdk.BadgeCache.{MapOrder}
use alibaba_ati_golang_sdk.Merkle.{walk_inclusion_path, walk, strip}
use alibaba_ati_golang_sdk.Outcome.{is_success}
use alibaba_ati_golang_sdk.Sample.{host, cert}
use alibaba_ati_golang_sdk.Scitt.Sample.{cbor, signing, keys, message, leaf, node}
use alibaba_ati_golang_sdk.Scitt.Types as Types
use alibaba_ati_golang_sdk.Scitt.Cose.{
  parse_cose_sign1, parse_protected_header, verify_ecdsa, compute_sig_structure_digest,
}
use alibaba_ati_golang_sdk.Scitt.Receipt.{
  validate_vds, issuer_matches, verify_issuer_binding, decode_hashes, vdp_path, extract_vdp,
  verify_inclusion_proof, verify_receipt,
}
use alibaba_ati_golang_sdk.Scitt.Token.{
  get_field, decode_fingerprint_field, decode_entries, decode_cert_array, cert_array_at,
  decode_payload_fields, decode_status_payload, is_expired, skew_seconds, verify_status_token_at,
}
use alibaba_ati_golang_sdk.Scitt.Headers.{Headers, headers_is_empty, has_both}
use alibaba_ati_golang_sdk.Verifier.{VerifierConfig, Network, Clock, fail_closed}
use alibaba_ati_golang_sdk.Verifier.Scitt.{
  verify_server, verify_with_headers, check_token, matches_server_cert,
}
use alibaba_ati_golang_sdk.Verifier.ScittSafety.{Succeeds}
use alibaba_ati_golang_sdk.Verifier.ScittTrust.{
  scitt_checks, IsTrusted, BadgeDecides, scitt-IsTrusted,
}

abbrev outage : Network
outage = record {
  find_preferred_badge = λ f. err (other []);
  find_badge_for_version = λ f v. err (other []);
  fetch_tl_response = λ url. err (other []);
  rewrite_badge_url_host = λ url h. err (other []);
}

abbrev config : VerifierConfig
config = record {
  failure_policy = fail_closed;
  max_staleness = 0;
  trusted_tl_host = [];
  dane_resolver = none;
}

abbrev as_listed : MapOrder
as_listed = record {
  visit = λ m. m;
  length-visit = λ m. refl;
  lookup-visit = λ k m. refl;
  visit-IsUnique = λ m u. u;
}

abbrev clock : Clock
clock = record { lookup_at = 1; stale_at = 2; insert_at = 3; cleanup_at = 4 }

abbrev headers : Headers
headers = record { receipt = message; status_token = message }

has_headers : has_both headers ≡ true
unfolding has_both
has_headers = refl

passes :
    Succeeds
      (verify_server as_listed config outage
        (some (scitt_checks cbor signing leaf node keys (pos 0) (pos 5)))
        clock
        none
        host
        cert
        (some headers)).0
unfolding verify_server verify_with_headers headers_is_empty has_both check_token
    matches_server_cert Types.is_valid_for_connection parse_ati_name split_n cut parse_version
    parse_parts parse_uint32 split cut_prefix to_lower contains_byte bytes_eq equal_fold is_success
    verify_receipt verify_status_token_at parse_cose_sign1 parse_protected_header verify_ecdsa
    compute_sig_structure_digest validate_vds verify_issuer_binding issuer_matches
    verify_inclusion_proof extract_vdp vdp_path decode_hashes walk_inclusion_path walk strip
    decode_status_payload decode_payload_fields cert_array_at decode_cert_array decode_entries
    decode_fingerprint_field get_field is_expired skew_seconds Types.is_terminal ensure require
passes = refl

scitt-IsTrusted_example :
    IsTrusted cbor signing leaf node keys (pos 0) (pos 5) host cert headers
    ⊎ BadgeDecides cbor signing leaf node keys
        (pos 0)
        (pos 5)
        headers
        (Server.verify as_listed config outage clock none host cert)
        (verify_server as_listed config outage
          (some (scitt_checks cbor signing leaf node keys (pos 0) (pos 5)))
          clock
          none
          host
          cert
          (some headers))
scitt-IsTrusted_example =
    scitt-IsTrusted cbor signing leaf node keys (pos 0) (pos 5) as_listed config outage clock none
      host cert headers has_headers passes
