-- ===== src/Agent/Client/Request.antt =====
-- ati/mtls_client.go: the client, what surrounds a request, and the tests before it.
use alibaba_ati_golang_sdk.Base.{
  ℕ, Bool, true, false, not, ◌&&◌, List, [], ◌∷◌, Option, none, some, Bytes, if◌then◌else◌, Result,
  ok, err, ◌>>=◌, ensure, require, is_empty, cut_prefix, codes, bytes_eq, ltb,
}
use alibaba_ati_golang_sdk.Base.Int.{lt_int}
use alibaba_ati_golang_sdk.Base.Map.{Map, is_some}
use alibaba_ati_golang_sdk.Base.Split.{parse_uint32}
use alibaba_ati_golang_sdk.Models.Fqdn.{Fqdn, FqdnError}
use alibaba_ati_golang_sdk.Cert.{CertIdentity}
use alibaba_ati_golang_sdk.Failure.{Failure}
use alibaba_ati_golang_sdk.Dane.{DaneResolver, DaneOutcome}
use alibaba_ati_golang_sdk.Outcome.{VerificationOutcome}
use alibaba_ati_golang_sdk.Verifier.{Cache}
use alibaba_ati_golang_sdk.Agent.{
  VerificationPolicy, policy_basic, PeerCertificate, valid_for_client,
}

pub data ClientError : Type 0 where
  invalid_url missing_hostname not_https not_found unmarshalled_body bad_request : ClientError
  invalid_hostname : FqdnError → ClientError
  request_failed : Failure → ClientError
  badge_failed dane_failed : Option Failure → ClientError
  level_not_achieved : VerificationPolicy → VerificationPolicy → ClientError
  unsupported_level : VerificationPolicy → ClientError

-- WithTrustLevel: the level that the option sets.
unfoldable pub with_trust_level : VerificationPolicy → Result ClientError VerificationPolicy
with_trust_level level =
    if not (valid_for_client level) then err (unsupported_level level) else ok level

pub record TrustOutcome : Type 0 where
  pub dns_discovered : Bool
  pub ca_chain_valid : Bool
  pub san_matches : Bool
  pub agent_id : Bytes
  pub peer_ati_name : Bytes
  pub badge_verified : Bool
  pub dane_verified : Bool
  pub achieved_level : VerificationPolicy
  pub requested_level : Option VerificationPolicy
  pub badge_outcome : Option VerificationOutcome
  pub dane_details : Option DaneOutcome

-- &TrustOutcome{RequestedLevel: level}; the zero value of a level is PolicyBasic.
abbrev pub new_outcome : Option VerificationPolicy → TrustOutcome
new_outcome level = record {
  dns_discovered = false;
  ca_chain_valid = false;
  san_matches = false;
  agent_id = [];
  peer_ati_name = [];
  badge_verified = false;
  dane_verified = false;
  achieved_level = policy_basic;
  requested_level = level;
  badge_outcome = none;
  dane_details = none;
}

unfoldable pub outcome_is_verified : TrustOutcome → Bool
outcome_is_verified o = o.dns_discovered && o.ca_chain_valid && o.san_matches

pub record Url : Type 0 where
  pub hostname : Bytes
  pub scheme : Bytes
  pub port : Bytes

-- The result of LookupATIDiscovery: the IDs of its records.
pub record Discovery : Type 0 where
  pub found : Bool
  pub ids : List Bytes

-- What the environment answers during a call: url.Parse; whether the body is none or is marshalled, and the request
-- is built; the certificates of the peer in the TLS state of the response; the resolver; the method Verify of
-- the ServerVerifier, on the cache that is its state.
pub record Environment : Type 0 where
  pub parse_url : Bytes → Option Url
  pub body_marshals : Bool
  pub request_builds : Bool
  pub respond : Result Failure (List PeerCertificate)
  pub discover : Fqdn → Result Failure Discovery
  pub badge : Cache → Fqdn → CertIdentity → VerificationOutcome × Cache

-- The fields that Do reads, but for those of the environment.
pub record AgentClient : Type 0 where
  pub trust_level : Option VerificationPolicy
  pub identity_host : Bytes
  pub dane_resolver : Option DaneResolver

-- The cache of the ServerVerifier, and verifyCache.
pub record ClientState : Type 0 where
  pub badges : Cache
  pub verified : Map TrustOutcome

-- What Do returns and leaves; `sent` tells that a request was made, `closed` that the response was closed.
pub record Call : Type 0 where
  pub result : Result ClientError TrustOutcome
  pub state : ClientState
  pub sent : Bool
  pub closed : Bool

unfoldable pub resolve_identity_host : AgentClient → Bytes → Bytes
resolve_identity_host c host = if is_empty c.identity_host then host else c.identity_host

abbrev first_id : List Bytes → Bytes
first_id [] = []
first_id (id ∷ ids) = id

abbrev pub discovered : Result Failure Discovery → Bool × Bytes
discovered (err e) = (false, [])
discovered (ok d) = if d.found then (true, first_id d.ids) else (false, [])

unfoldable pub check_dns_discovery : Environment → Fqdn → Bool × Bytes
check_dns_discovery x fqdn = discovered (x.discover fqdn)

unfoldable pub check_url : Environment → Bytes → Result ClientError Url
check_url x text = do
  url ← require invalid_url (x.parse_url text)
  _ ← ensure missing_hostname (not (is_empty url.hostname))
  _ ← ensure not_https (bytes_eq url.scheme (codes "https"))
  ok url

-- The first URI that names an agent.
unfoldable pub first_ati_uri : List Bytes → Bytes
first_ati_uri [] = []
first_ati_uri (uri ∷ uris) =
    let rest = first_ati_uri uris in if is_some (cut_prefix uri (codes "ati://")) then uri else rest

abbrev pub uint16_or : ℕ → Option ℕ → ℕ
uint16_or d none = d
uint16_or d (some n) = if ltb n 65536 then n else d

unfoldable pub dane_port : Url → ℕ
dane_port url = if is_empty url.port then 443 else uint16_or 443 (parse_uint32 url.port)

-- The test for the requested level.
abbrev pub below : VerificationPolicy → Option VerificationPolicy → Result ClientError (Unit {0})
below achieved none = ok tt
below achieved (some level) =
    if lt_int achieved level then err (level_not_achieved level achieved) else ok tt
