-- ===== src/Sample.antt =====
-- An agent that is registered: its certificate, and the response of the log for it.
use alibaba_ati_golang_sdk.Base.{ℕ, zero, suc, false, [], ◌∷◌, List, none, codes}
use alibaba_ati_golang_sdk.Base.Int.{pos}
use alibaba_ati_golang_sdk.Models.Fqdn.{Fqdn}
use alibaba_ati_golang_sdk.Models.TlLog.{TlResponse, TlPayload, status_active}
use alibaba_ati_golang_sdk.Cert.{CertFingerprint, CertIdentity, fingerprint_string}

abbrev pub copies : ℕ → List ℕ
copies zero = []
copies (suc n) = 171 ∷ copies n

abbrev pub digest : CertFingerprint
digest = record { bytes = copies 32 }

abbrev pub host : Fqdn
host = record { value = codes "a.b" }

abbrev pub cert : CertIdentity
cert = record {
  common_name = none;
  dns_sans = codes "*.b" ∷ [];
  uri_sans = codes "ati://v1.0.0.a.b" ∷ [];
  fingerprint = digest;
  spki_fingerprint = digest;
}

abbrev pub payload : TlPayload
payload = record {
  log_id = [];
  event_type = [];
  timestamp = [];
  agent_name = codes "ati://v1.0.0.a.b";
  agent_display_name = [];
  agent_host = codes "a.b";
  agent_sub_host = [];
  version = [];
  agent_id = [];
  agent_status = status_active;
  certificates = record {
    server_cert_fingerprint = fingerprint_string digest;
    identity_cert_fingerprint = fingerprint_string digest;
    previous_server_cert_fingerprint = [];
    previous_identity_cert_fingerprint = [];
  };
}

abbrev pub response : TlResponse
response = record {
  status = [];
  schema_version = [];
  payload = payload;
  evidence_ref = record {
    evidence_id = [];
    submitter_id = [];
    evidence_type = [];
    evidence_uri = [];
    evidence_hash = [];
    hash_algorithm = [];
    hash_target = [];
    content_type = [];
    evidence_schema_version = [];
    signature_required = false;
  };
  seal = record {
    canonicalization = [];
    digest_algorithm = [];
    signature_algorithm = [];
    signature_encoding = [];
    key_id = [];
    signature = [];
    public_key = [];
  };
  merkle_proof = record {
    leaf_hash = [];
    root_hash = [];
    root_signature = [];
    tree_size = pos 0;
    tree_version = pos 0;
    leaf_index = pos 0;
    path = [];
  };
  request_id = [];
  raw_status = none;
  raw_schema_version = none;
  raw_payload = none;
  raw_evidence_ref = none;
}
