-- ===== src/Gold.antt =====
-- verify/gold.go, verify/offline.go and verify/session_monitor.go: verification against the log with all signatures,
-- with and without the network, and the later checks of a session.
pub mod Response
pub mod Claims
pub mod Sessions
mod Tests
use alibaba_ati_golang_sdk.Base.{
  ℕ, Bool, true, false, not, ◌||◌, List, [], ◌∷◌, ◌++◌, Option, none, some, Bytes, if◌then◌else◌,
  Result, ok, err, ◌>>=◌, ensure, require, map_err, is_empty, bytes_eq, codes,
}
use alibaba_ati_golang_sdk.Base.Map.{Map}
use alibaba_ati_golang_sdk.Models.Fqdn.{Fqdn}
use alibaba_ati_golang_sdk.Models.TlLog.{
  TlResponse, TlAgentStatus, identity_cert_fingerprint, server_cert_fingerprint,
  previous_identity_cert_fingerprint, previous_server_cert_fingerprint, is_terminal, status_active,
  status_warning, status_deprecated, status_expired as agent_expired,
}
use alibaba_ati_golang_sdk.Cert.{CertIdentity, matches_with_renewal}
use alibaba_ati_golang_sdk.Failure.{Failure}
use alibaba_ati_golang_sdk.TlProof.{ProofError, verify_inclusion_proof}
use alibaba_ati_golang_sdk.Trust.{
  AnsError, Code, new_ans_error, severity_hard, severity_soft, stage_dns_discovery, stage_tl_verify,
  dns_core_record_missing, tl_unreachable, tl_inclusion_proof_failed, tl_fingerprint_mismatch,
  status_revoked, status_expired, stage_session, revoked_during_session, TrustIndexParams,
  no_signals, compute_trust_index, VerificationResult, new_success_result, new_failure_result,
}
use alibaba_ati_golang_sdk.Seal.{
  SealCodec, to_upper, verify_seal_signature, verify_seal_signature_with_key_store,
  verify_producer_signature,
}

-- The result of LookupATIDiscovery: the IDs of its records.
pub record Discovery : Type 0 where
  pub found : Bool
  pub ids : List Bytes

-- GoldVerifierConfig: none is nil. TrustPolicy is not read.
pub record GoldConfig (K : Type 0) : Type 0 where
  pub tl_base_url : Bytes
  pub tl_public_key : Option K
  pub tl_key_store : Option (Map (Option K))
  pub producer_keys : Option (Bytes → Option K)
  pub lookup_ati_discovery : Fqdn → Result Failure Discovery
  pub fetch_tl_response : Bytes → Result Failure TlResponse

abbrev pub default_tl_base_url : Bytes
default_tl_base_url = codes "https://ati-tl.cnnic.cn/ati/api/v1"

unfoldable pub match_fingerprint : TlResponse → CertIdentity → Bool
match_fingerprint r cert =
    matches_with_renewal cert.fingerprint (identity_cert_fingerprint r.payload)
      (previous_identity_cert_fingerprint r.payload)
    || matches_with_renewal cert.fingerprint (server_cert_fingerprint r.payload)
        (previous_server_cert_fingerprint r.payload)

abbrev at_tl : Code → AnsError
at_tl code = new_ans_error code severity_hard stage_tl_verify

abbrev no_record : AnsError
no_record = new_ans_error dns_core_record_missing severity_hard stage_dns_discovery

abbrev pub first_id : List Bytes → Option Bytes
first_id [] = none
first_id (id ∷ ids) = some id

abbrev pub log_url : Bytes → Bytes → Bytes
log_url base id = base ++ (codes "/tl/agents/" ++ (id ++ codes "/logs/latest"))

abbrev pub is_given {ℓ} : {A : Type ℓ} → Option A → Bool
is_given none = false
is_given (some a) = true

abbrev or_empty : Option Bytes → Bytes
or_empty none = []
or_empty (some s) = s

-- `share` is the floating-point product of ComputeTrustIndex, `node` the hash of the inclusion proof.
module _ {K : Type 0} (x : SealCodec K) (node : Bytes → Bytes → Bytes) (share : ℕ → ℕ → ℕ) where
  abbrev pub verify_seal :
      TlResponse → Option (Map (Option K)) → Option K → Result AnsError (Unit {0})
  verify_seal r (some store) key = verify_seal_signature_with_key_store x r (some store)
  verify_seal r none key = verify_seal_signature x r key

  abbrev pub verify_producer : TlResponse → Option (Bytes → Option K) → Result AnsError (Unit {0})
  verify_producer r none = ok tt
  verify_producer r (some keys) = verify_producer_signature x r keys

  -- Steps 3 to 6 of VerifyGold, and the checks of VerifyOffline.
  unfoldable pub check_response :
      TlResponse
      → CertIdentity
      → Option (Map (Option K))
      → Option K
      → Option (Bytes → Option K)
      → Result AnsError (Unit {0})
  check_response r cert store key producer_keys = do
    _ ← verify_seal r store key
    _ ← map_err (λ e. at_tl tl_inclusion_proof_failed) (verify_inclusion_proof node r.merkle_proof)
    _ ← verify_producer r producer_keys
    ensure (at_tl tl_fingerprint_mismatch) (match_fingerprint r cert)

  abbrev pub status_code : TlAgentStatus → Code
  status_code status = if bytes_eq status agent_expired then status_expired else status_revoked

  abbrev pub agent_status : TlResponse → TlAgentStatus
  agent_status r = to_upper r.payload.agent_status

  -- Steps 1 and 2: the response for the first record.
  unfoldable pub find_response : Fqdn → GoldConfig K → Result AnsError TlResponse
  find_response fqdn cfg = do
    result ← map_err (λ e. no_record) (cfg.lookup_ati_discovery fqdn)
    _ ← ensure no_record result.found
    id ← require no_record (first_id result.ids)
    _ ← ensure no_record (not (is_empty id))
    map_err (λ e. new_ans_error tl_unreachable severity_soft stage_tl_verify)
        (cfg.fetch_tl_response
          (log_url (if is_empty cfg.tl_base_url then default_tl_base_url else cfg.tl_base_url) id))

  -- All steps up to the status, which is returned.
  unfoldable pub gold_checks : Fqdn → CertIdentity → GoldConfig K → Result AnsError TlAgentStatus
  gold_checks fqdn cert cfg = do
    r ← find_response fqdn cfg
    _ ← check_response r cert cfg.tl_key_store cfg.tl_public_key cfg.producer_keys
    _ ← ensure (at_tl (status_code (agent_status r))) (not (is_terminal (agent_status r)))
    ok (agent_status r)

  abbrev pub gold_params : Bool → Bool → TrustIndexParams
  gold_params producer active = record no_signals {
    identity_verified = true;
    tl_receipt_verified = true;
    producer_sig_valid = producer;
    merkle_proof_valid = true;
    fingerprint_match = true;
    status_active = active;
  }

  abbrev warnings_of : TlAgentStatus → List Bytes
  warnings_of status =
      if bytes_eq status status_warning
      then codes "agent status is WARNING" ∷ []
      else if bytes_eq status status_deprecated
      then codes "agent status is DEPRECATED" ∷ []
      else []

  abbrev pub gold_result :
      Bytes → Option (Bytes → Option K) → Result AnsError TlAgentStatus → VerificationResult
  gold_result name producer_keys (err e) = new_failure_result name e
  gold_result name producer_keys (ok status) =
      record (new_success_result name (
        compute_trust_index share
          (gold_params (is_given producer_keys) (bytes_eq status status_active)))) {
            status = status;
            warnings = warnings_of status;
          }

  unfoldable pub verify_gold : Fqdn → CertIdentity → GoldConfig K → VerificationResult
  verify_gold fqdn cert cfg =
      gold_result (codes "ati://" ++ fqdn.value) cfg.producer_keys (gold_checks fqdn cert cfg)

  abbrev pub offline_result :
      Bytes → Option (Bytes → Option K) → Result AnsError (Unit {0}) → VerificationResult
  offline_result name producer_keys (err e) = new_failure_result name e
  offline_result name producer_keys (ok u) =
      record (new_success_result name
        (compute_trust_index share (gold_params (is_given producer_keys) true))) {
          warnings = codes "offline mode: revocation status unknown" ∷ [];
        }

  -- VerifyOffline; `parse` is json.Unmarshal into a TLResponse, and none is an error instead of a result.
  unfoldable pub verify_offline :
      (Bytes → Option TlResponse)
      → Bytes
      → CertIdentity
      → Option (Map (Option K))
      → Option K
      → Option (Bytes → Option K)
      → Option VerificationResult
  verify_offline parse json cert store key producer_keys =
      if is_empty json then none else elim (parse json) [
        | none ↦ none
        | some r ↦ some (
            offline_result r.payload.agent_name producer_keys
              (check_response r cert store key producer_keys))
      ]
