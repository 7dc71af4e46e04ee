-- ===== src/Agent/Tests.antt =====
-- A client and a server with certificates that fit their badges and their TLSA records.
use alibaba_ati_golang_sdk.Base.{
  ◌≡◌, refl, true, [], ◌∷◌, none, some, ok, codes, to_lower, bytes_eq, cut_prefix, contains_byte,
  ensure, require,
}
use alibaba_ati_golang_sdk.Base.Hex.{encode}
use alibaba_ati_golang_sdk.Base.Int.{le_int}
use alibaba_ati_golang_sdk.Base.Map.{lookup}
use alibaba_ati_golang_sdk.Base.Split.{trim_suffix, cut, split, split_n, parse_uint32}
use alibaba_ati_golang_sdk.Models.Version.{parse_version, parse_parts}
use alibaba_ati_golang_sdk.Models.Fqdn.{Fqdn, new_fqdn, check_label, check_labels}
use alibaba_ati_golang_sdk.Cert.{
  CertIdentity, to_hex, parse_ati_name, valid_name, cert_ati_name, cert_ati_names,
}
use alibaba_ati_golang_sdk.Dane.{
  DaneResolver, TlsaLookupResult, verify_identity, verify_with_lookup, match_records, is_verified,
}
use alibaba_ati_golang_sdk.Outcome.{VerificationOutcome, new_verified_outcome, is_success}
use alibaba_ati_golang_sdk.Sample.{cert, digest, response}
use alibaba_ati_golang_sdk.Agent.{
  policy_enhanced, policy_advanced, PeerCertificate, check_cert_validity,
}
use alibaba_ati_golang_sdk.Agent.Server.{
  Enforcement, Peers, badge_step, dane_step, verify_peer, verify_connection,
}
use alibaba_ati_golang_sdk.Agent.ServerSafety.{Accepted, connection-Accepted}
use alibaba_ati_golang_sdk.Agent.Client.{
  AgentClient, ClientState, Environment, Url, check_url, check_dns_discovery, resolve_identity_host,
  do_request, verify_response, level_step,
}
use alibaba_ati_golang_sdk.Agent.Client as Client
use alibaba_ati_golang_sdk.Agent.ClientSending.{Discovered, sent-Discovered}

abbrev fitting : TlsaLookupResult
fitting = record {
  found = true;
  records = record { usage = 3; selector = 0; matching_type = 1; cert_hash = to_hex digest } ∷ [];
  dnssec_valid = true;
}

abbrev resolver : DaneResolver
resolver = record { lookup_tlsa = λ f p. ok fitting; lookup_identity_tlsa = λ f. ok fitting }

abbrev peer : PeerCertificate
peer = record {
  identity = cert;
  x509 = record { address = 0; crl_distribution_points = []; serial_number = 1 };
  not_before = 2;
  not_after = 9;
}

abbrev strict : Enforcement
strict = record {
  level = some policy_advanced;
  crl_checker = none;
  dane_resolver = some resolver;
  badge = λ s c. (new_verified_outcome response digest, s);
}

abbrev peers : Peers
peers = record { cache = none; levels = [] }

accepted : (verify_connection strict 5 (peer ∷ []) peers).0 ≡ ok tt
unfolding verify_connection check_cert_validity verify_peer badge_step dane_step is_success
    cert_ati_name cert_ati_names valid_name parse_ati_name split_n cut parse_version parse_parts
    parse_uint32 split cut_prefix trim_suffix to_lower contains_byte bytes_eq new_fqdn check_labels
    check_label verify_identity verify_with_lookup match_records to_hex encode is_verified
accepted = refl

at_least_enhanced : le_int policy_enhanced policy_advanced ≡ true
at_least_enhanced = refl

connection-Accepted_example : Accepted strict policy_advanced 5 peer [] peers
connection-Accepted_example =
    connection-Accepted strict policy_advanced refl at_least_enhanced 5 peers peer [] accepted

abbrev client : AgentClient
client = record { trust_level = some policy_enhanced; identity_host = []; dane_resolver = none }

abbrev environment : Environment
environment = record {
  parse_url = λ s. some (record { hostname = codes "a.b"; scheme = codes "https"; port = [] });
  body_marshals = true;
  request_builds = true;
  respond = ok (peer ∷ []);
  discover = λ f. ok (record { found = true; ids = codes "id" ∷ [] });
  badge = λ s f c. (new_verified_outcome response digest, s);
}

abbrev state : ClientState
state = record { badges = none; verified = [] }

-- The badge of every agent is the one of the sample.
abbrev Gives : Fqdn → CertIdentity → VerificationOutcome → Type 0
Gives f c o = o ≡ new_verified_outcome response digest

sent : (do_request client environment (codes "https://a.b") state).sent ≡ true
unfolding do_request check_url check_dns_discovery resolve_identity_host new_fqdn check_labels
    check_label split trim_suffix to_lower contains_byte bytes_eq ensure require verify_response
    lookup Client.badge_step is_success Client.dane_step level_step
sent = refl

sent-Discovered_example : Discovered client environment (codes "https://a.b")
sent-Discovered_example =
    sent-Discovered client policy_enhanced refl environment (codes "https://a.b") state refl sent
