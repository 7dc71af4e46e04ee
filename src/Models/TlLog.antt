-- ===== src/Models/TlLog.antt =====
-- models/tl_log.go and the proof of models/transparency.go: the response of the transparency log.
use alibaba_ati_golang_sdk.Base.{
  Bool, not, ◌||◌, List, Option, Bytes, bytes_eq, codes, is_empty, if◌then◌else◌,
}
use alibaba_ati_golang_sdk.Base.Int.{ℤ}

pub record TlCertificates : Type 0 where
  pub server_cert_fingerprint : Bytes
  pub identity_cert_fingerprint : Bytes
  pub previous_server_cert_fingerprint : Bytes
  pub previous_identity_cert_fingerprint : Bytes

pub record TlPayload : Type 0 where
  pub log_id : Bytes
  pub event_type : Bytes
  pub timestamp : Bytes
  pub agent_name : Bytes
  pub agent_display_name : Bytes
  pub agent_host : Bytes
  pub agent_sub_host : Bytes
  pub version : Bytes
  pub agent_id : Bytes
  pub agent_status : Bytes
  pub certificates : TlCertificates

pub record EvidenceRef : Type 0 where
  pub evidence_id : Bytes
  pub submitter_id : Bytes
  pub evidence_type : Bytes
  pub evidence_uri : Bytes
  pub evidence_hash : Bytes
  pub hash_algorithm : Bytes
  pub hash_target : Bytes
  pub content_type : Bytes
  pub evidence_schema_version : Bytes
  pub signature_required : Bool

pub record TlSeal : Type 0 where
  pub canonicalization : Bytes
  pub digest_algorithm : Bytes
  pub signature_algorithm : Bytes
  pub signature_encoding : Bytes
  pub key_id : Bytes
  pub signature : Bytes
  pub public_key : Bytes

pub record MerkleProof : Type 0 where
  pub leaf_hash : Bytes
  pub root_hash : Bytes
  pub root_signature : Bytes
  pub tree_size : ℤ
  pub tree_version : ℤ
  pub leaf_index : ℤ
  pub path : List Bytes

-- The raw JSON of the sealed fields is none for a response that was not decoded.
pub record TlResponse : Type 0 where
  pub status : Bytes
  pub schema_version : Bytes
  pub payload : TlPayload
  pub evidence_ref : EvidenceRef
  pub seal : TlSeal
  pub merkle_proof : MerkleProof
  pub request_id : Bytes
  pub raw_status : Option Bytes
  pub raw_schema_version : Option Bytes
  pub raw_payload : Option Bytes
  pub raw_evidence_ref : Option Bytes

unfoldable pub identity_host : TlPayload → Bytes
identity_host p = if not (is_empty p.agent_sub_host) then p.agent_sub_host else p.agent_host

unfoldable pub access_host : TlPayload → Bytes
access_host p = p.agent_host

unfoldable pub is_shared_domain : TlPayload → Bool
is_shared_domain p = not (is_empty p.agent_sub_host)

abbrev pub identity_cert_fingerprint : TlPayload → Bytes
identity_cert_fingerprint p = p.certificates.identity_cert_fingerprint

abbrev pub server_cert_fingerprint : TlPayload → Bytes
server_cert_fingerprint p = p.certificates.server_cert_fingerprint

abbrev pub previous_identity_cert_fingerprint : TlPayload → Bytes
previous_identity_cert_fingerprint p = p.certificates.previous_identity_cert_fingerprint

abbrev pub previous_server_cert_fingerprint : TlPayload → Bytes
previous_server_cert_fingerprint p = p.certificates.previous_server_cert_fingerprint

-- `type TLAgentStatus string` and its constants.
abbrev pub TlAgentStatus : Type 0
TlAgentStatus = Bytes

abbrev pub status_active : TlAgentStatus
status_active = codes "ACTIVE"

abbrev pub status_warning : TlAgentStatus
status_warning = codes "WARNING"

abbrev pub status_deprecated : TlAgentStatus
status_deprecated = codes "DEPRECATED"

abbrev pub status_expired : TlAgentStatus
status_expired = codes "EXPIRED"

abbrev pub status_revoked : TlAgentStatus
status_revoked = codes "REVOKED"

unfoldable pub is_valid_for_connection : TlAgentStatus → Bool
is_valid_for_connection s =
    bytes_eq s status_active || bytes_eq s status_warning || bytes_eq s status_deprecated

unfoldable pub is_terminal : TlAgentStatus → Bool
is_terminal s = bytes_eq s status_revoked || bytes_eq s status_expired

unfoldable pub should_reject : TlAgentStatus → Bool
should_reject s = bytes_eq s status_expired || bytes_eq s status_revoked

unfoldable pub is_active : TlAgentStatus → Bool
is_active s = bytes_eq s status_active || bytes_eq s status_warning
