-- ===== src/Agent.antt =====
-- ati/verification_policy.go and ati/trust_level.go: the levels of verification, and what a server and a client
-- see of a peer in TLS. CertIdentityFromX509 gives the identity of a certificate.
pub mod Server
pub mod ServerSafety
pub mod Client
pub mod ClientMeets
pub mod ClientSafety
pub mod ClientSending
pub mod ClientCalls
mod Tests
use alibaba_ati_golang_sdk.Base.{
  ℕ, Bool, true, false, ◌&&◌, ◌||◌, List, [], ◌∷◌, Option, none, some, Bytes, ltb, if◌then◌else◌,
}
use alibaba_ati_golang_sdk.Base.Int.{ℤ, pos, negsuc, le_int, int_eq}
use alibaba_ati_golang_sdk.Cert.{CertIdentity}
use alibaba_ati_golang_sdk.Crl.{Certificate}

-- `type VerificationPolicy int` and its constants; TrustLevel is another name of it.
abbrev pub VerificationPolicy : Type 0
VerificationPolicy = ℤ

abbrev pub policy_basic : VerificationPolicy
policy_basic = pos 0

abbrev pub policy_enhanced : VerificationPolicy
policy_enhanced = pos 1

abbrev pub policy_advanced : VerificationPolicy
policy_advanced = pos 2

abbrev pub policy_none : VerificationPolicy
policy_none = negsuc 0

unfoldable pub has_badge_verification : VerificationPolicy → Bool
has_badge_verification p = le_int policy_enhanced p

unfoldable pub has_dane_verification : VerificationPolicy → Bool
has_dane_verification p = le_int policy_advanced p

unfoldable pub valid_for_client : VerificationPolicy → Bool
valid_for_client p = int_eq p policy_none || (le_int policy_basic p && le_int p policy_advanced)

unfoldable pub valid_for_server : VerificationPolicy → Bool
valid_for_server p = int_eq p policy_none || (le_int policy_basic p && le_int p policy_advanced)

-- An x509.Certificate, as far as it is read; times are not negative.
pub record PeerCertificate : Type 0 where
  pub identity : CertIdentity
  pub x509 : Certificate
  pub not_before : ℕ
  pub not_after : ℕ

pub data Validity : Type 0 where
  valid expired not_yet_valid : Validity

-- CheckCertValidity, without the warning about the lifetime that remains.
unfoldable pub check_cert_validity : PeerCertificate → ℕ → Validity
check_cert_validity cert now =
    if ltb cert.not_after now
    then expired
    else if ltb now cert.not_before
    then not_yet_valid
    else valid

unfoldable pub x509_chain : List PeerCertificate → List Certificate
x509_chain [] = []
x509_chain (c ∷ cs) = c.x509 ∷ x509_chain cs
