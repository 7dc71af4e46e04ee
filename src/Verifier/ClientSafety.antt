-- ===== src/Verifier/ClientSafety.antt =====
-- What the outcomes of ClientVerifier.Verify say.
use alibaba_ati_golang_sdk.Base.{◌≡◌, refl, ◌∙◌, sym, Bytes, Option, none, some, Result, ok, err}
use mathlib.Core.Bool.{false≢true}
use alibaba_ati_golang_sdk.Models.Fqdn.{Fqdn, FqdnError, new_fqdn}
use alibaba_ati_golang_sdk.Models.TlLog.{TlResponse}
use alibaba_ati_golang_sdk.Cert.{CertIdentity, AtiName, cert_ati_name, cert_fqdn}
use alibaba_ati_golang_sdk.BadgeCache.{CachedBadge, MapOrder}
use alibaba_ati_golang_sdk.Outcome.{VerificationOutcome}
use alibaba_ati_golang_sdk.Verifier.{VerifierConfig, Network, Clock, Cache, apply_dane}
use alibaba_ati_golang_sdk.Verifier.Client as Client
use alibaba_ati_golang_sdk.Verifier.Safety.{
  IsVerified, AdmitsClient, DaneAllows, dane_allows, client_admits,
}
use alibaba_ati_golang_sdk.Verifier.Policy.{client_fetch_plain}

-- Where the record of a verified client's outcome came from.
pub data FromClient (config : VerifierConfig) (net : Network) (clock : Clock) (cache : Cache)
    (fqdn : Fqdn) (n : AtiName) (r : TlResponse) : Type 0 where
  from_cache :
      (b : CachedBadge)
      → Client.cached_response clock fqdn n.version cache ≡ some b
      → b.tl_response ≡ r
      → FromClient config net clock cache fqdn n r
  from_log :
      Client.fetch_tl_response config net clock cache fqdn n.version ≡ ok r
      → FromClient config net clock cache fqdn n r

pub record ClientVerified (config : VerifierConfig) (net : Network) (clock : Clock) (cache : Cache)
    (cert : CertIdentity) (r : TlResponse) : Type 0 where
  pub name : AtiName
  pub fqdn : Fqdn
  pub is_name : cert_ati_name cert ≡ some name
  pub is_fqdn : new_fqdn name.host ≡ ok fqdn
  pub source : FromClient config net clock cache fqdn name r
  pub admits : AdmitsClient r cert
  pub dane : DaneAllows config.dane_resolver fqdn cert

-- The outcome `x` has a record that verifies the client.
abbrev pub HasClientRecord :
    VerifierConfig → Network → Clock → Cache → CertIdentity → VerificationOutcome → Type 0
HasClientRecord config net clock cache cert x =
    (r : TlResponse) × ClientVerified config net clock cache cert r × (x.tl_response ≡ some r)

module _ (o : MapOrder) (config : VerifierConfig) (net : Network) (clock : Clock) (cache : Cache)
    (cert : CertIdentity) where
  module _ (n : AtiName) (fqdn : Fqdn) (is_name : cert_ati_name cert ≡ some n)
      (is_fqdn : new_fqdn n.host ≡ ok fqdn) where
    client_record :
        (r : TlResponse)
        → FromClient config net clock cache fqdn n r
        → IsVerified (apply_dane config fqdn cert (Client.verify_with_tl_response r cert))
        → HasClientRecord config net clock cache cert
            (apply_dane config fqdn cert (Client.verify_with_tl_response r cert))
    client_record r source h =
        let (v, d, t) = dane_allows config fqdn cert (Client.verify_with_tl_response r cert) h in
        let (a, s) = client_admits r cert v in
        (
          r,
          record {
            name = n;
            fqdn = fqdn;
            is_name = is_name;
            is_fqdn = is_fqdn;
            source = source;
            admits = a;
            dane = d;
          },
          t ∙ s,
        )

    fetched_client :
        (f : Result VerificationOutcome TlResponse)
        → Client.fetch_tl_response config net clock cache fqdn n.version ≡ f
        → IsVerified (Client.verify_fetched o config clock cache fqdn n.version cert f).0
        → HasClientRecord config net clock cache cert
            (Client.verify_fetched o config clock cache fqdn n.version cert f).0
    fetched_client (ok r) e h = client_record r (from_log e) h
    fetched_client (err x) e h =
        absurd (false≢true (sym (client_fetch_plain config net clock cache fqdn n.version x e) ∙ h))

    cached_client :
        (fetch : VerificationOutcome × Cache) (b : Option CachedBadge)
        → Client.cached_response clock fqdn n.version cache ≡ b
        → (IsVerified fetch.0 → HasClientRecord config net clock cache cert fetch.0)
        → IsVerified (Client.verify_cached config cache fqdn cert fetch b).0
        → HasClientRecord config net clock cache cert
            (Client.verify_cached config cache fqdn cert fetch b).0
    cached_client fetch none e k h = k h
    cached_client fetch (some b) e k h = client_record b.tl_response (from_cache b e refl) h

  named_client :
      (n : AtiName) (f : Result FqdnError Fqdn)
      → cert_ati_name cert ≡ some n
      → new_fqdn n.host ≡ f
      → IsVerified (Client.verify_name o config net clock cache cert n f).0
      → HasClientRecord config net clock cache cert
          (Client.verify_name o config net clock cache cert n f).0
  named_client n (err e) i j h = absurd (false≢true h)
  named_client n (ok fqdn) i j h =
      cached_client n fqdn i j _ (Client.cached_response clock fqdn n.version cache) refl
        (fetched_client n fqdn i j (Client.fetch_tl_response config net clock cache fqdn n.version)
          refl)
        h

  subject_client :
      (n : Option AtiName)
      → cert_ati_name cert ≡ n
      → IsVerified (Client.verify_named o config net clock cache cert n).0
      → HasClientRecord config net clock cache cert
          (Client.verify_named o config net clock cache cert n).0
  subject_client none e h = absurd (false≢true h)
  subject_client (some n) e h = named_client n (new_fqdn n.host) e refl h

  checked_client :
      (s : Option Bytes)
      → IsVerified (Client.verify_subject o config net clock cache cert s).0
      → HasClientRecord config net clock cache cert
          (Client.verify_subject o config net clock cache cert s).0
  checked_client none h = absurd (false≢true h)
  checked_client (some s) h = subject_client (cert_ati_name cert) refl h

-- If the outcome for a client is verified, the certificate has an ATI name whose host is a domain name, and
-- the outcome names a record that came, for that host and version, from the cache, where it had not expired,
-- or from the log; that record has a status valid for connections, the certificate's fingerprint, and one of
-- the ATI names of the certificate; and DANE, if configured, does not reject the certificate.
pub client_verified :
    (o : MapOrder) (config : VerifierConfig) (net : Network) (clock : Clock) (cache : Cache)
    (cert : CertIdentity)
    → IsVerified (Client.verify o config net clock cache cert).0
    → HasClientRecord config net clock cache cert (Client.verify o config net clock cache cert).0
unfolding Client.verify
client_verified o config net clock cache cert =
    checked_client o config net clock cache cert (cert_fqdn cert)
