-- ===== src/Agent/ClientMeets.antt =====
-- What a level asks of the outcome of a request of ati/mtls_client.go.
use alibaba_ati_golang_sdk.Base.{
  ℕ, ◌<◌, ◌≡◌, refl, ◌⊎◌, inl, inr, true, false, List, [], ◌∷◌, ◌++◌, Option, none, some, Bytes, ok,
  is_empty, ltb, ltb→lt, Bool-cases, arith,
}
use alibaba_ati_golang_sdk.Base.Int.{le_int, lt_int}
use alibaba_ati_golang_sdk.Base.Map.{Map, lookup}
use alibaba_ati_golang_sdk.Base.Split.{parse_uint32}
use alibaba_ati_golang_sdk.Models.Fqdn.{Fqdn, new_fqdn}
use alibaba_ati_golang_sdk.Cert.{CertIdentity, to_hex}
use alibaba_ati_golang_sdk.Dane.{DaneResolver, verify}
use alibaba_ati_golang_sdk.Dane.Claims.{Positive}
use alibaba_ati_golang_sdk.Outcome.{VerificationOutcome, is_success}
use alibaba_ati_golang_sdk.Agent.{
  VerificationPolicy, policy_enhanced, policy_advanced, PeerCertificate,
}
use alibaba_ati_golang_sdk.Agent.Client.{
  TrustOutcome, Url, AgentClient, resolve_identity_host, dane_port, uint16_or,
}

-- The port of the URL, or 443 where it has none that fits in 16 bits.
pub data IsPort (url : Url) : ℕ → Type 0 where
  given_port : (n : ℕ) → parse_uint32 url.port ≡ some n → n < 65536 → IsPort url n
  no_port : url.port ≡ [] → IsPort url 443
  bad_port : ((n : ℕ) → parse_uint32 url.port ≡ some n → n < 65536 → ⊥) → IsPort url 443

parsed-IsPort :
    (url : Url) (p : Option ℕ) → parse_uint32 url.port ≡ p → IsPort url (uint16_or 443 p)
parsed-IsPort url none e = bad_port (λ n h l. ground arith)
parsed-IsPort url (some n) e = elim (Bool-cases (ltb n 65536)) [
  | inl b ↦ rw b (given_port n e (ltb→lt n 65536 b))
  | inr b ↦ rw b (bad_port (λ m h l. ground arith))
]

empty_eq : (s : Bytes) → is_empty s ≡ true → s ≡ []
empty_eq [] h = refl
empty_eq (x ∷ s) h = ground arith

pub dane_port-IsPort : (url : Url) → IsPort url (dane_port url)
unfolding dane_port
dane_port-IsPort url = elim (Bool-cases (is_empty url.port)) [
  | inl e ↦ rw e (no_port (empty_eq url.port e))
  | inr e ↦ rw e (parsed-IsPort url (parse_uint32 url.port) refl)
]

-- The name of the agent for its badge: the identity host of the client, or the host of the URL where it has none.
abbrev pub IsIdentity : AgentClient → Url → Fqdn → Type 0
IsIdentity c url fqdn =
    ((c.identity_host ≡ []) × (new_fqdn url.hostname ≡ ok fqdn))
    ⊎ ((is_empty c.identity_host ≡ false) × (new_fqdn c.identity_host ≡ ok fqdn))

pub resolved-IsIdentity :
    (c : AgentClient) (url : Url) (fqdn : Fqdn)
    → new_fqdn (resolve_identity_host c url.hostname) ≡ ok fqdn
    → IsIdentity c url fqdn
unfolding resolve_identity_host
resolved-IsIdentity c url fqdn h = elim (Bool-cases (is_empty c.identity_host)) [
  | inl e ↦ inl (empty_eq c.identity_host e, rw e at h)
  | inr e ↦ inr (e, rw e at h)
]

-- `Gives` is what is known of the outcomes that the verification of badges gives for a name and a certificate.
module _ (c : AgentClient) (Gives : Fqdn → CertIdentity → VerificationOutcome → Type 0)
    (level : VerificationPolicy) where
  -- The verification of the badge gave a success, for the certificate and the name of the agent.
  pub record BadgeSucceeded (url : Url) (cert : CertIdentity) (o : TrustOutcome) : Type 0 where
    pub fqdn : Fqdn
    pub outcome : VerificationOutcome
    pub identity : IsIdentity c url fqdn
    pub given : Gives fqdn cert outcome
    pub stored : o.badge_outcome ≡ some outcome
    pub success : is_success outcome ≡ true

  -- The host of the URL has, for its port, a TLSA record of usage 3 that fits the certificate, under a DNSSEC chain
  -- that the resolver of the client reports to be valid.
  pub record DaneVerified (url : Url) (cert : CertIdentity) (o : TrustOutcome) : Type 0 where
    pub resolver : DaneResolver
    pub fqdn : Fqdn
    pub port : ℕ
    pub is_resolver : c.dane_resolver ≡ some resolver
    pub host : new_fqdn url.hostname ≡ ok fqdn
    pub is_port : IsPort url port
    pub fits : Positive (some cert) (resolver.lookup_tlsa fqdn port)
    pub stored : o.dane_details ≡ some (verify resolver fqdn port (some cert))

  pub record Meets (url : Url) (cert : CertIdentity) (o : TrustOutcome) : Type 0 where
    pub reached : lt_int o.achieved_level level ≡ false
    pub badge : le_int policy_enhanced level ≡ true → BadgeSucceeded url cert o
    pub dane : le_int policy_advanced level ≡ true → DaneVerified url cert o

  -- The outcome meets the level for a URL and a certificate with this host and this fingerprint.
  abbrev pub KeyMeets : Bytes → TrustOutcome → Type 0
  KeyMeets key o =
      (url : Url) × (cert : CertIdentity) × (key ≡ url.hostname ++ b'|' ∷ to_hex cert.fingerprint)
      × Meets url cert o

  abbrev pub AllMeet : Map TrustOutcome → Type 0
  AllMeet m = (key : Bytes) (o : TrustOutcome) → lookup key m ≡ some o → KeyMeets key o

  -- Without a certificate of the peer only a level below the badge is met.
  abbrev pub PeersMeet : Url → List PeerCertificate → TrustOutcome → Type 0
  PeersMeet url [] o =
      (lt_int o.achieved_level level ≡ false) × (le_int policy_enhanced level ≡ false)
  PeersMeet url (peer ∷ rest) o =
      KeyMeets (url.hostname ++ b'|' ∷ to_hex peer.identity.fingerprint) o
