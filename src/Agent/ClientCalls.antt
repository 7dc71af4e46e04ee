-- ===== src/Agent/ClientCalls.antt =====
-- What a whole call of Do returns and keeps in its cache.
use alibaba_ati_golang_sdk.Base.{◌≡◌, Bool, false, List, some, Bytes, ok}
use alibaba_ati_golang_sdk.Base.Map.{Map}
use alibaba_ati_golang_sdk.Models.Fqdn.{Fqdn}
use alibaba_ati_golang_sdk.Cert.{CertIdentity}
use alibaba_ati_golang_sdk.Failure.{Failure}
use alibaba_ati_golang_sdk.Outcome.{VerificationOutcome}
use alibaba_ati_golang_sdk.Agent.{VerificationPolicy, policy_basic, PeerCertificate}
use alibaba_ati_golang_sdk.Agent.Client.{TrustOutcome, Url, Environment, AgentClient, Call}
use alibaba_ati_golang_sdk.Agent.ClientMeets.{AllMeet, PeersMeet}

-- The outcome that is returned, if any, meets the level for the URL of the call and the certificate that answered
-- it, and those that are kept meet it for their keys.
pub record CallMeets (c : AgentClient) (Gives : Fqdn → CertIdentity → VerificationOutcome → Type 0)
    (level : VerificationPolicy) (x : Environment) (text : Bytes) (call : Call) : Type 0 where
  pub kept : AllMeet c Gives level call.state.verified
  pub returned :
      (o : TrustOutcome)
      → call.result ≡ ok o
      → (url : Url) × (peers : List PeerCertificate) × (x.parse_url text ≡ some url)
        × (x.respond ≡ ok peers)
        × PeersMeet c Gives level url peers o

module _ (c : AgentClient) (Gives : Fqdn → CertIdentity → VerificationOutcome → Type 0)
    (level : VerificationPolicy) (is_level : c.trust_level ≡ some level) (x : Environment)
    (text : Bytes) where
  abbrev Good : Call → Type 0
  Good = CallMeets c Gives level x text

  -- An outcome before the badge.
  abbrev IsFirst : TrustOutcome → Type 0
  IsFirst o = (o.achieved_level ≡ policy_basic) × (o.badge_verified ≡ false)
