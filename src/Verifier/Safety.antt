-- ===== src/Verifier/Safety.antt =====
-- What a verified outcome of the badge path says of the certificate.
use alibaba_ati_golang_sdk.Base.{
  ◌≡◌, refl, ◌∙◌, sym, true, false, not, ◌||◌, Option, none, some, Bytes, Result, ok, err, is_empty,
  equal_fold, any, arith, Bool-cases, inl, inr,
}
use mathlib.Core.Bool.{false≢true}
use alibaba_ati_golang_sdk.Models.Fqdn.{Fqdn}
use alibaba_ati_golang_sdk.Models.TlLog.{
  TlResponse, TlPayload, is_valid_for_connection, server_cert_fingerprint,
  previous_server_cert_fingerprint, identity_cert_fingerprint, previous_identity_cert_fingerprint,
  identity_host, access_host,
}
use alibaba_ati_golang_sdk.Cert.{
  CertIdentity, AtiName, NameError, parse_ati_name, matches_with_renewal, covers_host,
  cert_ati_names,
}
use alibaba_ati_golang_sdk.Dane.{DaneResolver, DaneOutcome, is_reject, is_pass, is_verified}
use alibaba_ati_golang_sdk.Dane as Dane
use alibaba_ati_golang_sdk.Outcome.{VerificationOutcome, type_is_verified}
use alibaba_ati_golang_sdk.Verifier.{
  VerifierConfig, apply_dane, verify_dane, after_dane, warn_if_deprecated, default_dane_port,
}
use alibaba_ati_golang_sdk.Verifier.Server as Server
use alibaba_ati_golang_sdk.Verifier.Client as Client

abbrev pub IsVerified : VerificationOutcome → Type 0
IsVerified o = type_is_verified o.outcome_type ≡ true

-- The host of the name of a record, or its identity host where the name cannot be read, is `fqdn`.
abbrev pub NamesHost : TlPayload → Fqdn → Result NameError AtiName → Type 0
NamesHost p fqdn (ok name) = equal_fold name.host fqdn.value ≡ true
NamesHost p fqdn (err e) = equal_fold (identity_host p) fqdn.value ≡ true

-- The record `r` admits the certificate of a server.
pub record AdmitsServer (r : TlResponse) (cert : CertIdentity) (fqdn : Fqdn) : Type 0 where
  pub status : is_valid_for_connection r.payload.agent_status ≡ true
  pub fingerprint :
      matches_with_renewal cert.fingerprint
        (server_cert_fingerprint r.payload)
        (previous_server_cert_fingerprint r.payload)
      ≡ true
  pub name : NamesHost r.payload fqdn (parse_ati_name r.payload.agent_name)
  pub host :
      (is_empty (access_host r.payload)
        || (not (Server.has_sans cert.dns_sans) || covers_host cert (access_host r.payload)))
      ≡ true

-- The record `r` admits the certificate of a client.
pub record AdmitsClient (r : TlResponse) (cert : CertIdentity) : Type 0 where
  pub status : is_valid_for_connection r.payload.agent_status ≡ true
  pub fingerprint :
      matches_with_renewal cert.fingerprint
        (identity_cert_fingerprint r.payload)
        (previous_identity_cert_fingerprint r.payload)
      ≡ true
  pub name : any (λ n. equal_fold r.payload.agent_name n.raw) (cert_ati_names cert) ≡ true

-- No resolver is configured, or DANE does not reject the certificate.
abbrev pub DaneAllows : Option DaneResolver → Fqdn → CertIdentity → Type 0
DaneAllows none fqdn cert = Unit
DaneAllows (some d) fqdn cert = is_reject (Dane.verify d fqdn default_dane_port (some cert)) ≡ false

warned :
    (s : Bytes) (o : VerificationOutcome) → (warn_if_deprecated s o).tl_response ≡ o.tl_response
warned s o = ground arith

host_admitted :
    (r : TlResponse) (cert : CertIdentity)
    → IsVerified (Server.check_access_host r cert)
    → ((is_empty (access_host r.payload)
          || (not (Server.has_sans cert.dns_sans) || covers_host cert (access_host r.payload)))
        ≡ true)
      × ((Server.check_access_host r cert).tl_response ≡ some r)
host_admitted r cert h = ground arith

name_admitted :
    (r : TlResponse) (cert : CertIdentity) (fqdn : Fqdn) (n : Result NameError AtiName)
    → IsVerified (Server.check_identity r cert fqdn n)
    → NamesHost r.payload fqdn n
      × ((is_empty (access_host r.payload)
            || (not (Server.has_sans cert.dns_sans) || covers_host cert (access_host r.payload)))
          ≡ true)
      × ((Server.check_identity r cert fqdn n).tl_response ≡ some r)
name_admitted r cert fqdn (ok n) h = ground (arith, host_admitted r cert)
name_admitted r cert fqdn (err e) h = ground (arith, host_admitted r cert)

-- A record that verifies a server's certificate admits it, and is the record of the outcome.
pub server_admits :
    (r : TlResponse) (cert : CertIdentity) (fqdn : Fqdn)
    → IsVerified (Server.verify_with_tl_response r cert fqdn)
    → AdmitsServer r cert fqdn × ((Server.verify_with_tl_response r cert fqdn).tl_response ≡ some r)
unfolding Server.verify_with_tl_response
server_admits r cert fqdn h = elim (Bool-cases (is_valid_for_connection r.payload.agent_status)) [
  | inr s ↦ ground arith
  | inl s ↦
      elim (Bool-cases (
        matches_with_renewal cert.fingerprint (server_cert_fingerprint r.payload)
          (previous_server_cert_fingerprint r.payload))) [
            | inr f ↦ ground arith
            | inl f ↦
                let (a, b, c) =
                  name_admitted r cert fqdn (parse_ati_name r.payload.agent_name)
                    (rw (s, f) at h) in
                (record { status = s; fingerprint = f; name = a; host = b }, rw (s, f) c)
          ]
]

-- A record that verifies a client's certificate admits it, and is the record of the outcome.
pub client_admits :
    (r : TlResponse) (cert : CertIdentity)
    → IsVerified (Client.verify_with_tl_response r cert)
    → AdmitsClient r cert × ((Client.verify_with_tl_response r cert).tl_response ≡ some r)
unfolding Client.verify_with_tl_response
client_admits r cert h = (
  record { status = ground arith; fingerprint = ground arith; name = ground arith },
  ground arith,
)

dane_tested :
    (o : VerificationOutcome) (d : DaneOutcome)
    → IsVerified (after_dane o d)
    → IsVerified o × (is_reject d ≡ false) × ((after_dane o d).tl_response ≡ o.tl_response)
dane_tested o d h = ground arith

verify_dane_allows :
    (d : Option DaneResolver) (fqdn : Fqdn) (cert : CertIdentity) (o : VerificationOutcome)
    → IsVerified (verify_dane d fqdn cert o)
    → IsVerified o
      × DaneAllows d fqdn cert
      × ((verify_dane d fqdn cert o).tl_response ≡ o.tl_response)
unfolding verify_dane
verify_dane_allows none fqdn cert o h = (h, tt, refl)
verify_dane_allows (some d) fqdn cert o h = dane_tested o _ h

pub dane_allows :
    (config : VerifierConfig) (fqdn : Fqdn) (cert : CertIdentity) (o : VerificationOutcome)
    → IsVerified (apply_dane config fqdn cert o)
    → IsVerified o
      × DaneAllows config.dane_resolver fqdn cert
      × ((apply_dane config fqdn cert o).tl_response ≡ o.tl_response)
unfolding apply_dane
dane_allows config fqdn cert o h = elim (Bool-cases (type_is_verified o.outcome_type)) [
  | inl e ↦
      let (a, b, c) = verify_dane_allows config.dane_resolver fqdn cert o (rw e at h) in
      (a, b, rw e c)
  | inr e ↦
      let k : type_is_verified o.outcome_type ≡ true = rw e at h in absurd (false≢true (sym e ∙ k))
]
