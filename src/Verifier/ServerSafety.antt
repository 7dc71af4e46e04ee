-- ===== src/Verifier/ServerSafety.antt =====
-- What a verified outcome of ServerVerifier.Verify says.
use alibaba_ati_golang_sdk.Base.{
  ◌≡◌, refl, ◌∙◌, sym, Option, none, some, Result, ok, err, Bool-cases, inl, inr,
}
use mathlib.Core.Bool.{false≢true}
use alibaba_ati_golang_sdk.Models.Fqdn.{Fqdn}
use alibaba_ati_golang_sdk.Models.TlLog.{TlResponse}
use alibaba_ati_golang_sdk.Cert.{CertIdentity}
use alibaba_ati_golang_sdk.BadgeCache.{CachedBadge, MapOrder}
use alibaba_ati_golang_sdk.Outcome.{VerificationOutcome, type_is_fingerprint_mismatch}
use alibaba_ati_golang_sdk.Verifier.{VerifierConfig, Network, Clock, Cache, apply_dane}
use alibaba_ati_golang_sdk.Verifier.Server as Server
use alibaba_ati_golang_sdk.Verifier.Safety.{
  IsVerified, AdmitsServer, DaneAllows, dane_allows, server_admits,
}
use alibaba_ati_golang_sdk.Verifier.Policy.{server_fetch_plain}

-- Where the record of a verified server's outcome came from.
pub data FromServer (config : VerifierConfig) (net : Network) (clock : Clock) (cache : Cache)
    (fqdn : Fqdn) (r : TlResponse) : Type 0 where
  from_cache :
      (b : CachedBadge)
      → Server.cached_response clock fqdn cache ≡ some b
      → b.tl_response ≡ r
      → FromServer config net clock cache fqdn r
  from_log :
      Server.fetch_tl_response config net clock cache fqdn ≡ ok r
      → FromServer config net clock cache fqdn r

pub record ServerVerified (config : VerifierConfig) (net : Network) (clock : Clock) (cache : Cache)
    (fqdn : Fqdn) (cert : CertIdentity) (r : TlResponse) : Type 0 where
  pub source : FromServer config net clock cache fqdn r
  pub admits : AdmitsServer r cert fqdn
  pub dane : DaneAllows config.dane_resolver fqdn cert

checked_record :
    (config : VerifierConfig) (net : Network) (clock : Clock) (cache : Cache) (fqdn : Fqdn)
    (cert : CertIdentity) (r : TlResponse)
    → FromServer config net clock cache fqdn r
    → IsVerified (apply_dane config fqdn cert (Server.verify_with_tl_response r cert fqdn))
    → ServerVerified config net clock cache fqdn cert r
      × ((apply_dane config fqdn cert (Server.verify_with_tl_response r cert fqdn)).tl_response
          ≡ some r)
checked_record config net clock cache fqdn cert r source h =
    let (v, d, t) = dane_allows config fqdn cert (Server.verify_with_tl_response r cert fqdn) h in
    let (a, s) = server_admits r cert fqdn v in
    (record { source = source; admits = a; dane = d }, t ∙ s)

fetched_record :
    (o : MapOrder) (config : VerifierConfig) (net : Network) (clock : Clock) (cache : Cache)
    (fqdn : Fqdn) (cert : CertIdentity) (f : Result VerificationOutcome TlResponse)
    → Server.fetch_tl_response config net clock cache fqdn ≡ f
    → IsVerified (Server.verify_fetched o config clock cache fqdn cert f).0
    → (r : TlResponse) × ServerVerified config net clock cache fqdn cert r
      × ((Server.verify_fetched o config clock cache fqdn cert f).0.tl_response ≡ some r)
fetched_record o config net clock cache fqdn cert (ok r) e h =
    let (a, t) = checked_record config net clock cache fqdn cert r (from_log e) h in (r, a, t)
fetched_record o config net clock cache fqdn cert (err x) e h =
    absurd (false≢true (sym (server_fetch_plain config net clock cache fqdn x e) ∙ h))

cached_record :
    (o : MapOrder) (config : VerifierConfig) (net : Network) (clock : Clock) (cache : Cache)
    (fqdn : Fqdn) (cert : CertIdentity) (fetch : VerificationOutcome × Cache)
    (b : Option CachedBadge)
    → Server.cached_response clock fqdn cache ≡ b
    → (IsVerified fetch.0
        → (r : TlResponse) × ServerVerified config net clock cache fqdn cert r
          × (fetch.0.tl_response ≡ some r))
    → IsVerified (Server.verify_cached config cache fqdn cert fetch b).0
    → (r : TlResponse) × ServerVerified config net clock cache fqdn cert r
      × ((Server.verify_cached config cache fqdn cert fetch b).0.tl_response ≡ some r)
cached_record o config net clock cache fqdn cert fetch none e k h = k h
cached_record o config net clock cache fqdn cert fetch (some b) e k h =
    elim (Bool-cases (
      type_is_fingerprint_mismatch
        (Server.verify_with_tl_response b.tl_response cert fqdn).outcome_type)) [
          | inl m ↦ let (r, a, t) = k (rw m at h) in (r, a, rw m t)
          | inr m ↦
              let (a, t) =
                checked_record config net clock cache fqdn cert b.tl_response (from_cache b e refl)
                  (rw m at h) in
              (b.tl_response, a, rw m t)
        ]

-- If the outcome for a server is verified, it names a record that came from the cache, where it had not
-- expired, or from the log; that record has a status valid for connections, the certificate's fingerprint as
-- its current or previous one, the name looked up as the host of its ATI name, or as its identity host where
-- the ATI name cannot be read, and an access host that is empty or that the certificate covers if it has DNS
-- SANs; and DANE, if configured, does not reject the certificate.
pub server_verified :
    (o : MapOrder) (config : VerifierConfig) (net : Network) (clock : Clock) (cache : Cache)
    (fqdn : Fqdn) (cert : CertIdentity)
    → IsVerified (Server.verify o config net clock cache fqdn cert).0
    → (r : TlResponse) × ServerVerified config net clock cache fqdn cert r
      × ((Server.verify o config net clock cache fqdn cert).0.tl_response ≡ some r)
unfolding Server.verify
server_verified o config net clock cache fqdn cert =
    cached_record o config net clock cache fqdn cert
      (Server.verify_fetched o config clock cache fqdn cert
        (Server.fetch_tl_response config net clock cache fqdn))
      (Server.cached_response clock fqdn cache) refl
      (fetched_record o config net clock cache fqdn cert
        (Server.fetch_tl_response config net clock cache fqdn) refl)
