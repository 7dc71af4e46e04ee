-- ===== src/Trust.antt =====
-- verify/error_codes.go, verify/trust_index.go, verify/verification_result.go and verify/trust_policy.go: the results
-- of the verification against the log, their score, and the policies. Texts for users, the time of a result and
-- the result of an agent card in it are left out.
use alibaba_ati_golang_sdk.Base.{
  ℕ, ◌+◌, ◌-◌, Bool, true, false, ◌&&◌, List, [], Option, none, some, Bytes, ltb, leb, codes,
  if◌then◌else◌,
}

pub data Code : Type 0 where
  dns_core_record_missing dnssec_bogus dnssec_insecure cert_chain_invalid cert_expired : Code
  dane_fingerprint_mismatch san_uri_mismatch san_uri_missing tl_receipt_sig_invalid : Code
  tl_inclusion_proof_failed producer_sig_invalid tl_fingerprint_mismatch status_revoked : Code
  status_expired status_warning tl_unreachable agent_card_fetch_failed cap_hash_mismatch : Code
  agent_card_sig_invalid schema_hash_mismatch verifiable_claim_invalid : Code
  revoked_during_session stapling_expired : Code

pub data Severity : Type 0 where
  severity_hard severity_soft : Severity

pub data Stage : Type 0 where
  stage_dns_discovery stage_mtls stage_tl_verify stage_agent_card stage_session : Stage

pub record AnsError : Type 0 where
  pub code : Code
  pub severity : Severity
  pub stage : Stage

abbrev pub new_ans_error : Code → Severity → Stage → AnsError
new_ans_error code severity stage = record { code = code; severity = severity; stage = stage }

abbrev hard : Severity → Bool
hard severity_hard = true
hard severity_soft = false

unfoldable pub is_hard : AnsError → Bool
is_hard e = hard e.severity

pub data TrustLevel : Type 0 where
  level_none level_basic level_verified level_high : TrustLevel

pub record TrustIndexParams : Type 0 where
  pub identity_verified : Bool
  pub dane_verified : Bool
  pub dnssec_validated : Bool
  pub tl_receipt_verified : Bool
  pub producer_sig_valid : Bool
  pub merkle_proof_valid : Bool
  pub fingerprint_match : Bool
  pub status_active : Bool
  pub agent_card_verified : Bool
  pub cap_hash_valid : Bool
  pub schema_hash_valid : Bool
  pub claims_verified : ℕ
  pub claims_total : ℕ
  pub cert_expiry_warning : Bool

-- The zero value, but for what is set afterwards.
abbrev pub no_signals : TrustIndexParams
no_signals = record {
  identity_verified = false;
  dane_verified = false;
  dnssec_validated = false;
  tl_receipt_verified = false;
  producer_sig_valid = false;
  merkle_proof_valid = false;
  fingerprint_match = false;
  status_active = false;
  agent_card_verified = false;
  cap_hash_valid = false;
  schema_hash_valid = false;
  claims_verified = 0;
  claims_total = 0;
  cert_expiry_warning = false;
}

abbrev pub weight : Bool → ℕ → ℕ
weight true w = w
weight false w = 0

unfoldable pub trust_level_from_score : ℕ → TrustLevel
trust_level_from_score score =
    if leb 80 score
    then level_high
    else if leb 55 score
    then level_verified
    else if leb 30 score
    then level_basic
    else level_none

-- The sum of the weights. `share v t` is the integer part of the floating-point product of the weight of the
-- claims, 5, and v / t. Counts are not negative.
unfoldable pub raw_score : (ℕ → ℕ → ℕ) → TrustIndexParams → ℕ
raw_score share p =
    weight p.identity_verified 15
    + weight p.dane_verified 10
    + weight p.dnssec_validated 5
    + weight p.tl_receipt_verified 15
    + weight p.producer_sig_valid 10
    + weight p.merkle_proof_valid 10
    + weight p.fingerprint_match 10
    + weight p.status_active 5
    + weight p.agent_card_verified 5
    + weight p.cap_hash_valid 5
    + weight p.schema_hash_valid 5
    + weight (ltb 0 p.claims_total && ltb 0 p.claims_verified)
        (share p.claims_verified p.claims_total)

-- The score: the subtraction stops at 0, as the clamp of the code does.
unfoldable pub trust_score : (ℕ → ℕ → ℕ) → TrustIndexParams → ℕ
trust_score share p =
    let score = raw_score share p - weight p.cert_expiry_warning 5 in
    if ltb 100 score then 100 else score

unfoldable pub compute_trust_index : (ℕ → ℕ → ℕ) → TrustIndexParams → ℕ × TrustLevel
compute_trust_index share p = (trust_score share p, trust_level_from_score (trust_score share p))

pub record VerificationResult : Type 0 where
  pub ans_name : Bytes
  pub connected : Bool
  pub trust_level : TrustLevel
  pub trust_index : ℕ
  pub identity_verified : Bool
  pub tl_verified : Bool
  pub status : Bytes
  pub warnings : List Bytes
  pub error : Option AnsError

unfoldable pub trust_level_ord : TrustLevel → ℕ
trust_level_ord level_high = 3
trust_level_ord level_verified = 2
trust_level_ord level_basic = 1
trust_level_ord level_none = 0

unfoldable pub meets_trust_level : VerificationResult → TrustLevel → Bool
meets_trust_level r required = leb (trust_level_ord required) (trust_level_ord r.trust_level)

abbrev is_nil : Option AnsError → Bool
is_nil none = true
is_nil (some e) = false

unfoldable pub result_is_success : VerificationResult → Bool
result_is_success r = r.connected && is_nil r.error

unfoldable pub result_to_error : VerificationResult → Option AnsError
result_to_error r = r.error

abbrev pub new_success_result : Bytes → ℕ × TrustLevel → VerificationResult
new_success_result name (index, level) = record {
  ans_name = name;
  connected = true;
  trust_level = level;
  trust_index = index;
  identity_verified = true;
  tl_verified = true;
  status = codes "ACTIVE";
  warnings = [];
  error = none;
}

abbrev pub new_failure_result : Bytes → AnsError → VerificationResult
new_failure_result name e = record {
  ans_name = name;
  connected = false;
  trust_level = level_none;
  trust_index = 0;
  identity_verified = false;
  tl_verified = false;
  status = [];
  warnings = [];
  error = some e;
}

pub data DnssecMode : Type 0 where
  mode_require mode_prefer : DnssecMode

pub data FailureAction : Type 0 where
  action_fail action_degrade : FailureAction

-- The interval is in nanoseconds.
pub record TrustPolicy : Type 0 where
  pub dnssec_mode : DnssecMode
  pub tl_unreachable : FailureAction
  pub cap_hash_mismatch : FailureAction
  pub stapling_required : Bool
  pub min_trust_level : TrustLevel
  pub offline_mode : Bool
  pub long_conn_recheck_interval : ℕ

unfoldable pub default_trust_policy : TrustPolicy
default_trust_policy = record {
  dnssec_mode = mode_prefer;
  tl_unreachable = action_degrade;
  cap_hash_mismatch = action_degrade;
  stapling_required = false;
  min_trust_level = level_basic;
  offline_mode = false;
  long_conn_recheck_interval = 300000000000;
}

unfoldable pub high_security_trust_policy : TrustPolicy
high_security_trust_policy = record {
  dnssec_mode = mode_require;
  tl_unreachable = action_fail;
  cap_hash_mismatch = action_fail;
  stapling_required = true;
  min_trust_level = level_verified;
  offline_mode = false;
  long_conn_recheck_interval = 120000000000;
}

abbrev requires : DnssecMode → Bool
requires mode_require = true
requires mode_prefer = false

abbrev fails : FailureAction → Bool
fails action_fail = true
fails action_degrade = false

unfoldable pub should_reject_dnssec_insecure : TrustPolicy → Bool
should_reject_dnssec_insecure p = requires p.dnssec_mode

unfoldable pub should_reject_tl_unreachable : TrustPolicy → Bool
should_reject_tl_unreachable p = fails p.tl_unreachable

unfoldable pub should_reject_cap_hash_mismatch : TrustPolicy → Bool
should_reject_cap_hash_mismatch p = fails p.cap_hash_mismatch
