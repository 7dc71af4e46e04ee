-- ===== src/Verifier/Tests.antt =====
-- A server and a client that are registered, and a log that answers.
use alibaba_ati_golang_sdk.Base.{
  ◌+◌, ◌≡◌, ◌≤◌, refl, true, false, [], ◌∷◌, ok, err, none, some, codes, to_lower, bytes_eq,
  cut_prefix, contains_byte, equal_fold, arith,
}
use alibaba_ati_golang_sdk.Base.Map.{lookup}
use alibaba_ati_golang_sdk.Base.Hex.{encode, decode}
use alibaba_ati_golang_sdk.Base.Int.{pos}
use alibaba_ati_golang_sdk.Base.Split.{trim_suffix, cut_suffix, cut, split, split_n, parse_uint32}
use alibaba_ati_golang_sdk.Models.Version.{parse_version, parse_parts}
use alibaba_ati_golang_sdk.Models.Fqdn.{new_fqdn, check_label, check_labels}
use alibaba_ati_golang_sdk.Models.TlLog.{
  TlResponse, is_valid_for_connection, identity_host, access_host,
}
use alibaba_ati_golang_sdk.Cert.{
  parse_cert_fingerprint, fingerprint_string, matches, matches_any, matches_with_renewal,
  matches_dns_name, covers_host, valid_name, parse_ati_name, cert_fqdn, cert_ati_name,
  cert_ati_names,
}
use alibaba_ati_golang_sdk.Failure.{other, is_record_not_found}
use alibaba_ati_golang_sdk.Dns.{AtiBadgeRecord, source_ra_badge}
use alibaba_ati_golang_sdk.BadgeCache.{
  BadgeCache, MapOrder, new_badge_cache, default_cache_config, get_by_fqdn,
}
use alibaba_ati_golang_sdk.BadgeCache.Claims.{IsValid, HasRoom}
use alibaba_ati_golang_sdk.Outcome.{is_fail_open, is_success, type_is_fingerprint_mismatch}
use alibaba_ati_golang_sdk.Verifier.{
  VerifierConfig, Network, Clock, fail_open_always, apply_dane, verify_dane, fetch_after_dns,
  apply_failure_policy,
}
use alibaba_ati_golang_sdk.Verifier.Server as Server
use alibaba_ati_golang_sdk.Verifier.Client as Client
use alibaba_ati_golang_sdk.Scitt.Headers.{Headers, headers_is_empty, has_both}
use alibaba_ati_golang_sdk.Verifier.Scitt.{
  ScittChecks, role_server, verify_server, verify_with_headers, check_token, matches_server_cert,
}
use alibaba_ati_golang_sdk.Scitt.Types as Types
use alibaba_ati_golang_sdk.Scitt.Types.{VerifiedStatusToken}
use alibaba_ati_golang_sdk.Verifier.Policy.{LetsPass, NetworkFailed}
use alibaba_ati_golang_sdk.Verifier.ServerSafety.{ServerVerified, server_verified}
use alibaba_ati_golang_sdk.Verifier.ClientErrors.{ClientFailed, client_fail_cause}
use alibaba_ati_golang_sdk.Verifier.ClientSafety.{HasClientRecord, client_verified}
use alibaba_ati_golang_sdk.Verifier.Errors.{fail_open_cause}
use alibaba_ati_golang_sdk.Verifier.ScittSafety.{ScittSuccess, scitt_success}
use alibaba_ati_golang_sdk.Verifier.Reuse.{verify_twice}
use alibaba_ati_golang_sdk.Verifier.Safety.{IsVerified}
use alibaba_ati_golang_sdk.Sample.{copies, host, cert, response}

abbrev badge_record : AtiBadgeRecord
badge_record = record {
  format_version = codes "ra-badge1";
  version = none;
  url = codes "u";
  source = source_ra_badge;
}

abbrev network : Network
network = record {
  find_preferred_badge = λ f. ok (some badge_record);
  find_badge_for_version = λ f v. ok (some badge_record);
  fetch_tl_response = λ url. ok response;
  rewrite_badge_url_host = λ url h. ok url;
}

abbrev outage : Network
outage = record network { find_preferred_badge = λ f. err (other []) }

abbrev open_config : VerifierConfig
open_config = record {
  failure_policy = fail_open_always;
  max_staleness = 0;
  trusted_tl_host = [];
  dane_resolver = none;
}

abbrev as_listed : MapOrder
as_listed = record {
  visit = λ m. m;
  length-visit = λ m. refl;
  lookup-visit = λ k m. refl;
  visit-IsUnique = λ m u. u;
}

abbrev clock : Clock
clock = record { lookup_at = 1; stale_at = 2; insert_at = 3; cleanup_at = 4 }

abbrev later : Clock
later = record { lookup_at = 9; stale_at = 9; insert_at = 9; cleanup_at = 9 }

abbrev cache : BadgeCache
cache = new_badge_cache default_cache_config

record_verifies : IsVerified (Server.verify_with_tl_response response cert host)
unfolding Server.verify_with_tl_response matches_with_renewal matches matches_any matches_dns_name
    fingerprint_string parse_cert_fingerprint encode decode is_valid_for_connection parse_ati_name
    split_n cut parse_version parse_parts parse_uint32 split cut_prefix covers_host trim_suffix
    to_lower cut_suffix contains_byte bytes_eq equal_fold access_host identity_host
record_verifies = refl

admitted : IsVerified (Server.verify as_listed open_config network clock none host cert).0
unfolding Server.verify Server.fetch_tl_response fetch_after_dns apply_dane verify_dane
    Server.verify_with_tl_response matches_with_renewal matches matches_any matches_dns_name
    fingerprint_string parse_cert_fingerprint encode decode is_valid_for_connection parse_ati_name
    split_n cut parse_version parse_parts parse_uint32 split cut_prefix covers_host trim_suffix
    to_lower cut_suffix contains_byte bytes_eq equal_fold access_host identity_host
admitted = refl

server_verified_example :
    (r : TlResponse) × ServerVerified open_config network clock none host cert r
    × ((Server.verify as_listed open_config network clock none host cert).0.tl_response ≡ some r)
server_verified_example =
    server_verified as_listed open_config network clock none host cert admitted

admitted_client : IsVerified (Client.verify as_listed open_config network clock none cert).0
unfolding Client.verify Client.fetch_tl_response fetch_after_dns apply_dane verify_dane
    Client.verify_with_tl_response matches_with_renewal matches matches_any fingerprint_string
    parse_cert_fingerprint encode decode is_valid_for_connection parse_ati_name split_n cut
    parse_version parse_parts parse_uint32 split cut_prefix trim_suffix to_lower contains_byte
    bytes_eq equal_fold cert_fqdn cert_ati_name cert_ati_names valid_name new_fqdn check_labels
    check_label
admitted_client = refl

client_verified_example :
    HasClientRecord open_config network clock none cert
      (Client.verify as_listed open_config network clock none cert).0
client_verified_example =
    client_verified as_listed open_config network clock none cert admitted_client

opened : is_fail_open (Server.verify as_listed open_config outage clock none host cert).0 ≡ true
unfolding Server.verify Server.fetch_tl_response fetch_after_dns is_record_not_found
    apply_failure_policy is_fail_open
opened = refl

fail_open_cause_example :
    LetsPass open_config.failure_policy
    × NetworkFailed open_config outage (outage.find_preferred_badge host)
fail_open_cause_example = fail_open_cause as_listed open_config outage clock none host cert opened

cache-IsValid : IsValid cache
unfolding new_badge_cache
cache-IsValid = record { unique = tt; unique_ver = tt }

fetched_record : Server.fetch_tl_response open_config network clock (some cache) host ≡ ok response
unfolding Server.fetch_tl_response fetch_after_dns
fetched_record = refl

missed : get_by_fqdn 1 host cache ≡ none
unfolding get_by_fqdn new_badge_cache lookup
missed = refl

no_mismatch :
    type_is_fingerprint_mismatch (Server.verify_with_tl_response response cert host).outcome_type
    ≡ false
unfolding Server.verify_with_tl_response matches_with_renewal matches matches_any matches_dns_name
    fingerprint_string parse_cert_fingerprint encode decode is_valid_for_connection parse_ati_name
    split_n cut parse_version parse_parts parse_uint32 split cut_prefix covers_host trim_suffix
    to_lower cut_suffix contains_byte bytes_eq equal_fold access_host identity_host
no_mismatch = refl

has_room : HasRoom cache
unfolding new_badge_cache
has_room = omega arith

in_time : 9 ≤ 3 + cache.config.default_ttl
unfolding new_badge_cache
in_time = omega arith

verify_twice_example :
    Server.verify as_listed open_config outage later
      (Server.verify as_listed open_config network clock (some cache) host cert).1
      host
      cert
    ≡ Server.verify as_listed open_config network clock (some cache) host cert
verify_twice_example =
    verify_twice as_listed open_config open_config network outage clock later cache host cert
      response cache-IsValid has_room missed fetched_record no_mismatch (omega arith) in_time tt

abbrev headers : Headers
headers = record { receipt = 1 ∷ []; status_token = 2 ∷ [] }

abbrev token : VerifiedStatusToken
token = record {
  payload = record {
    agent_id = [];
    ati_name = codes "ati://v1.0.0.a.b";
    status = codes "ACTIVE";
    iat = pos 1;
    exp = pos 9;
    valid_identity_certs = [];
    valid_server_certs = record { fingerprint = copies 32; cert_type = [] } ∷ [];
    metadata_hashes = [];
  };
  key_id = [];
}

abbrev checks : ScittChecks
checks = record { verify_receipt = λ b. ok tt; verify_status_token = λ b. ok token }

scitt_passes :
    is_success
      (verify_server as_listed open_config outage
        (some checks)
        clock
        none
        host
        cert
        (some headers)).0
    ≡ true
unfolding verify_server verify_with_headers headers_is_empty has_both check_token
    matches_server_cert Types.is_valid_for_connection parse_ati_name split_n cut parse_version
    parse_parts parse_uint32 split cut_prefix to_lower contains_byte bytes_eq equal_fold is_success
scitt_passes = refl

has_headers : has_both headers ≡ true
unfolding has_both
has_headers = refl

scitt_success_example :
    ScittSuccess checks headers host cert role_server
      (Server.verify as_listed open_config outage clock none host cert)
      (verify_server as_listed open_config outage (some checks) clock none host cert (some headers))
scitt_success_example =
    scitt_success as_listed open_config outage checks clock none host cert headers has_headers
      scitt_passes

abbrev version_outage : Network
version_outage = record network { find_badge_for_version = λ f v. err (other []) }

opened_client :
    is_fail_open (Client.verify as_listed open_config version_outage clock none cert).0 ≡ true
unfolding Client.verify Client.fetch_tl_response fetch_after_dns is_record_not_found
    apply_failure_policy is_fail_open cert_fqdn cert_ati_name valid_name parse_ati_name split_n cut
    parse_version parse_parts parse_uint32 split cut_prefix trim_suffix to_lower contains_byte
    bytes_eq new_fqdn check_labels check_label
opened_client = refl

client_fail_cause_example :
    LetsPass open_config.failure_policy × ClientFailed open_config version_outage cert
client_fail_cause_example =
    client_fail_cause as_listed open_config version_outage clock none cert opened_client
