-- ===== src/Agent/Server/Config.antt =====
-- ati/server.go: the TLS configuration of a server.
use alibaba_ati_golang_sdk.Base.{
  Bool, false, not, ◌&&◌, ◌||◌, Option, none, some, Bytes, if◌then◌else◌, Result, ok, err, ◌>>=◌,
  ensure, is_empty,
}
use alibaba_ati_golang_sdk.Base.Int.{le_int, int_eq}
use alibaba_ati_golang_sdk.Dane.{DaneResolver}
use alibaba_ati_golang_sdk.Agent.{
  VerificationPolicy, policy_basic, policy_enhanced, policy_advanced, policy_none, valid_for_server,
}
use alibaba_ati_golang_sdk.Agent.Server.{
  ServerError, no_server_cert, none_with_client_ca, bad_key_pair, bad_ca_bundle, no_idca_chain,
  no_discovery_resolver, unsupported_level,
}

-- WithClientVerifier: the level that the option sets.
unfoldable pub with_client_verifier : VerificationPolicy → Result ServerError VerificationPolicy
with_client_verifier level =
    if not (valid_for_server level) then err (unsupported_level level) else ok level

-- The options, as NewServerTLSConfig reads them; "" is a file that is not set.
pub record ServerConfig : Type 0 where
  pub server_cert_file : Bytes
  pub private_key_file : Bytes
  pub ca_bundle_file : Bytes
  pub trust_level : Option VerificationPolicy
  pub has_dns_resolver : Bool
  pub dane_resolver : Option DaneResolver
  pub crl_enabled : Option Bool

-- tls.LoadX509KeyPair, os.ReadFile with AppendCertsFromPEM, loadEmbeddedIdcaChain, whether
-- defaultDiscoveryResolver gives a resolver, and NewStandardDANEResolver. `P` is *x509.CertPool.
pub record Setup (P : Type 0) : Type 0 where
  pub key_pair_loads : Bytes → Bytes → Bool
  pub load_ca_bundle : Bytes → Option P
  pub embedded_idca_chain : Option P
  pub discovery_resolver : Bool
  pub standard_dane_resolver : DaneResolver

pub data ClientAuth : Type 0 where
  no_client_cert require_and_verify_client_cert : ClientAuth

-- The result: ClientCAs and ClientAuth of the tls.Config, and the level, the resolver of DANE and whether
-- revocation is checked, with which buildVerifyConnection is called, if it is.
pub record ServerTls (P : Type 0) : Type 0 where
  pub client_cas : Option P
  pub client_auth : ClientAuth
  pub verify_level : Option VerificationPolicy
  pub dane : Option DaneResolver
  pub checks_crl : Bool

abbrev pub at_least : VerificationPolicy → Option VerificationPolicy → Bool
at_least p none = false
at_least p (some level) = le_int p level

abbrev is_none_policy : Option VerificationPolicy → Bool
is_none_policy none = false
is_none_policy (some level) = int_eq level policy_none

-- cfg.trustLevel != nil && *cfg.trustLevel != PolicyNone
abbrev pub verifies : Option VerificationPolicy → Bool
verifies none = false
verifies (some level) = not (int_eq level policy_none)

abbrev or_enabled : Option VerificationPolicy → Option Bool → Bool
or_enabled level none = verifies level
or_enabled level (some enabled) = enabled

unfoldable pub should_enable_crl : ServerConfig → Bool
should_enable_crl cfg = or_enabled cfg.trust_level cfg.crl_enabled

-- A CA bundle implies PKIOnly.
abbrev pub effective_level : ServerConfig → Option VerificationPolicy
effective_level cfg = elim cfg.trust_level [
  | some level ↦ some level
  | none ↦ if is_empty cfg.ca_bundle_file then none else some policy_basic
]

module _ {P : Type 0} (x : Setup P) where
  abbrev pool_or : ServerError → Option P → Result ServerError (Option P × ClientAuth)
  pool_or e none = err e
  pool_or e (some pool) = ok (some pool, require_and_verify_client_cert)

  -- The switch over the level.
  unfoldable pub client_auth_mode :
      Bytes → Option VerificationPolicy → Result ServerError (Option P × ClientAuth)
  client_auth_mode bundle none = ok (none, no_client_cert)
  client_auth_mode bundle (some level) =
      if int_eq level policy_none
      then ok (none, no_client_cert)
      else if not (is_empty bundle)
      then pool_or bad_ca_bundle (x.load_ca_bundle bundle)
      else pool_or no_idca_chain x.embedded_idca_chain

  abbrev dane_or_standard : Option VerificationPolicy → Option DaneResolver → Option DaneResolver
  dane_or_standard level (some d) = some d
  dane_or_standard level none =
      if at_least policy_advanced level then some x.standard_dane_resolver else none

  unfoldable pub new_server_tls_config : ServerConfig → Result ServerError (ServerTls P)
  new_server_tls_config cfg = do
    _ ← ensure no_server_cert (not (is_empty cfg.server_cert_file || is_empty cfg.private_key_file))
    _ ←
        ensure none_with_client_ca
          (not (is_none_policy cfg.trust_level && not (is_empty cfg.ca_bundle_file)))
    _ ← ensure bad_key_pair (x.key_pair_loads cfg.server_cert_file cfg.private_key_file)
    mode ← client_auth_mode cfg.ca_bundle_file (effective_level cfg)
    _ ← ensure no_discovery_resolver (
        cfg.has_dns_resolver
        || not (at_least policy_enhanced (effective_level cfg))
        || x.discovery_resolver)
    ok (record {
      client_cas = mode.0;
      client_auth = mode.1;
      verify_level = if verifies (effective_level cfg) then effective_level cfg else none;
      dane = dane_or_standard (effective_level cfg) cfg.dane_resolver;
      checks_crl = should_enable_crl (record cfg { trust_level = effective_level cfg });
    })
