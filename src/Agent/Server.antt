-- ===== src/Agent/Server.antt =====
-- ati/server.go: the decision on a client that a server makes in the handshake. Config is its TLS configuration.
pub mod Config
use alibaba_ati_golang_sdk.Base.{
  ℕ, Bool, true, false, not, ◌&&◌, ◌||◌, List, [], ◌∷◌, Option, none, some, Bytes, if◌then◌else◌,
  Result, ok, err, ◌>>=◌, ensure, is_empty, cut_prefix, codes,
}
use alibaba_ati_golang_sdk.Base.Int.{le_int, lt_int, int_eq}
use alibaba_ati_golang_sdk.Base.Map.{Map, lookup, insert, is_some}
use alibaba_ati_golang_sdk.Models.Fqdn.{Fqdn, FqdnError, new_fqdn}
use alibaba_ati_golang_sdk.Cert.{
  CertIdentity, AtiName, NameError, to_hex, cert_ati_name, parse_ati_name,
}
use alibaba_ati_golang_sdk.Failure.{Failure}
use alibaba_ati_golang_sdk.Dane.{DaneResolver, DaneOutcome, verify_identity, is_pass, is_verified}
use alibaba_ati_golang_sdk.Crl.{Authority, check, should_reject}
use alibaba_ati_golang_sdk.Outcome.{VerificationOutcome, is_success, to_error}
use alibaba_ati_golang_sdk.Verifier.{Cache}
use alibaba_ati_golang_sdk.Agent.{
  VerificationPolicy, policy_basic, policy_enhanced, policy_advanced, policy_none, PeerCertificate,
  Validity, valid, check_cert_validity, x509_chain, valid_for_server,
}

pub data ServerError : Type 0 where
  unsupported_level : VerificationPolicy → ServerError
  no_server_cert none_with_client_ca bad_key_pair bad_ca_bundle no_idca_chain : ServerError
  no_discovery_resolver no_client_certificate crl_rejected : ServerError
  peer_invalid : Validity → ServerError
  badge_failed dane_failed : Option Failure → ServerError
  level_not_achieved : VerificationPolicy → VerificationPolicy → ServerError

-- What buildVerifyConnection closes over: `badge` is the method Verify of the ClientVerifier, on the cache that is
-- its state. The level none is the detection mode, in which nothing is required.
pub record Enforcement : Type 0 where
  pub level : Option VerificationPolicy
  pub crl_checker : Option Authority
  pub dane_resolver : Option DaneResolver
  pub badge : Cache → CertIdentity → VerificationOutcome × Cache

-- The cache, and the levels that peers achieved, by fingerprint.
pub record Peers : Type 0 where
  pub cache : Cache
  pub levels : Map VerificationPolicy

abbrev pub is_pki_only : Option VerificationPolicy → Bool
is_pki_only none = false
is_pki_only (some level) = int_eq level policy_basic

-- !explicit || *cfg.trustLevel >= p
abbrev pub wants : VerificationPolicy → Option VerificationPolicy → Bool
wants p none = true
wants p (some level) = le_int p level

abbrev pub explicit : Option VerificationPolicy → Bool
explicit none = false
explicit (some level) = true

abbrev pub crl_rejects : Option Authority → PeerCertificate → List PeerCertificate → Bool
crl_rejects none peer chain = false
crl_rejects (some a) peer chain = should_reject (check a peer.x509 (x509_chain chain))

abbrev pub achieves : VerificationPolicy → Option VerificationPolicy → Result ServerError (Unit {0})
achieves achieved none = ok tt
achieves achieved (some level) =
    if lt_int achieved level then err (level_not_achieved level achieved) else ok tt

module _ (cfg : Enforcement) where
  abbrev pub dane_passes : DaneOutcome → Bool
  dane_passes d = if explicit cfg.level then is_verified d else is_pass d

  abbrev pub after_dane : VerificationPolicy → DaneOutcome → Result ServerError VerificationPolicy
  after_dane achieved d =
      if dane_passes d
      then ok policy_advanced
      else if explicit cfg.level
      then err (dane_failed d.error)
      else ok achieved

  abbrev pub dane_at :
      DaneResolver
      → CertIdentity
      → VerificationPolicy
      → Result FqdnError Fqdn
      → Result ServerError VerificationPolicy
  dane_at d cert achieved (err e) = ok achieved
  dane_at d cert achieved (ok fqdn) = after_dane achieved (verify_identity d fqdn (some cert))

  abbrev pub dane_named :
      Option DaneResolver
      → CertIdentity
      → VerificationPolicy
      → Option AtiName
      → Result ServerError VerificationPolicy
  dane_named none cert achieved name = ok achieved
  dane_named (some d) cert achieved none = ok achieved
  dane_named (some d) cert achieved (some n) = dane_at d cert achieved (new_fqdn n.host)

  -- The level that is achieved after DANE.
  unfoldable pub dane_step :
      CertIdentity → VerificationPolicy → Result ServerError VerificationPolicy
  dane_step cert achieved =
      if le_int policy_enhanced achieved && wants policy_advanced cfg.level
      then dane_named cfg.dane_resolver cert achieved (cert_ati_name cert)
      else ok achieved

  -- The level after the badge, or the error.
  unfoldable pub badge_step : VerificationOutcome → Result ServerError VerificationPolicy
  badge_step o =
      if is_success o
      then ok policy_enhanced
      else if explicit cfg.level
      then err (badge_failed (to_error o))
      else ok policy_basic

  -- The level is stored, and compared with the required one.
  abbrev pub finish :
      CertIdentity
      → Peers
      → Result ServerError VerificationPolicy
      → Result ServerError (Unit {0}) × Peers
  finish cert s (err e) = (err e, s)
  finish cert s (ok achieved) = (
    achieves achieved cfg.level,
    record s { levels = insert (to_hex cert.fingerprint) achieved s.levels },
  )

  abbrev pub levels_of :
      CertIdentity → Result ServerError VerificationPolicy → Result ServerError VerificationPolicy
  levels_of cert (err e) = err e
  levels_of cert (ok achieved) = dane_step cert achieved

  abbrev pub after_badge :
      CertIdentity → Peers → VerificationOutcome × Cache → Result ServerError (Unit {0}) × Peers
  after_badge cert s (o, cache) =
      finish cert (record s { cache = cache }) (levels_of cert (badge_step o))

  -- From the identity of the certificate on.
  unfoldable pub verify_peer : CertIdentity → Peers → Result ServerError (Unit {0}) × Peers
  verify_peer cert s =
      if wants policy_enhanced cfg.level
      then after_badge cert s (cfg.badge s.cache cert)
      else finish cert s (levels_of cert (ok policy_basic))

  abbrev pub verify_valid :
      PeerCertificate
      → List PeerCertificate
      → Peers
      → Validity
      → Result ServerError (Unit {0}) × Peers
  verify_valid peer chain s valid =
      if is_pki_only cfg.level
      then (ok tt, s)
      else if crl_rejects cfg.crl_checker peer chain
      then (err crl_rejected, s)
      else verify_peer peer.identity s
  verify_valid peer chain s v = (err (peer_invalid v), s)

  -- The callback that buildVerifyConnection returns, at the time `now`, on the certificates of the peer.
  unfoldable pub verify_connection :
      ℕ → List PeerCertificate → Peers → Result ServerError (Unit {0}) × Peers
  verify_connection now [] s = (err no_client_certificate, s)
  verify_connection now (peer ∷ rest) s =
      verify_valid peer (peer ∷ rest) s (check_cert_validity peer now)

-- none is a nil state of the connection; the map is not nil.
unfoldable pub peer_trust_level :
    Option (List PeerCertificate) → Map VerificationPolicy → Option VerificationPolicy
peer_trust_level none levels = none
peer_trust_level (some []) levels = none
peer_trust_level (some (peer ∷ _)) levels = lookup (to_hex peer.identity.fingerprint) levels

abbrev ok_or_rest : Result NameError AtiName → Option AtiName → Option AtiName
ok_or_rest (ok name) rest = some name
ok_or_rest (err e) rest = rest

unfoldable pub first_ati_name : List Bytes → Option AtiName
first_ati_name [] = none
first_ati_name (uri ∷ uris) =
    let rest = first_ati_name uris in
    if is_some (cut_prefix uri (codes "ati://")) then ok_or_rest (parse_ati_name uri) rest else rest

unfoldable pub peer_ati_name : Option (List PeerCertificate) → Option AtiName
peer_ati_name none = none
peer_ati_name (some []) = none
peer_ati_name (some (peer ∷ _)) = first_ati_name peer.identity.uri_sans
