-- ===== src/Scitt/Types.antt =====
-- verify/scitt/types.go: the status of an agent and the payload of a status token.
use alibaba_ati_golang_sdk.Base.{Bool, ◌||◌, List, Bytes, bytes_eq, codes}
use alibaba_ati_golang_sdk.Base.Int.{ℤ}

-- `type AgentStatus string` and its constants.
abbrev pub AgentStatus : Type 0
AgentStatus = Bytes

abbrev pub status_active : AgentStatus
status_active = codes "ACTIVE"

abbrev pub status_warning : AgentStatus
status_warning = codes "WARNING"

abbrev pub status_deprecated : AgentStatus
status_deprecated = codes "DEPRECATED"

abbrev pub status_expired : AgentStatus
status_expired = codes "EXPIRED"

abbrev pub status_revoked : AgentStatus
status_revoked = codes "REVOKED"

unfoldable pub is_valid_for_connection : AgentStatus → Bool
unfolding bytes_eq
is_valid_for_connection s =
    bytes_eq s status_active || bytes_eq s status_warning || bytes_eq s status_deprecated

unfoldable pub is_terminal : AgentStatus → Bool
unfolding bytes_eq
is_terminal s = bytes_eq s status_expired || bytes_eq s status_revoked

pub record CertEntry : Type 0 where
  pub fingerprint : Bytes
  pub cert_type : Bytes

pub record StatusTokenPayload : Type 0 where
  pub agent_id : Bytes
  pub ati_name : Bytes
  pub status : AgentStatus
  pub iat : ℤ
  pub exp : ℤ
  pub valid_identity_certs : List CertEntry
  pub valid_server_certs : List CertEntry
  pub metadata_hashes : List (Bytes × Bytes)

-- status_token.go; the key ID is four bytes
pub record VerifiedStatusToken : Type 0 where
  pub payload : StatusTokenPayload
  pub key_id : Bytes
