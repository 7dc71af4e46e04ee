-- ===== src/Outcome.antt =====
-- verify/outcome.go: the result of a verification.
use alibaba_ati_golang_sdk.Base.{
  Bool, true, false, List, [], Option, none, some, Bytes, is_empty, if◌then◌else◌, codes,
}
use alibaba_ati_golang_sdk.Models.TlLog.{TlResponse, TlAgentStatus}
use alibaba_ati_golang_sdk.Cert.{CertFingerprint}
use alibaba_ati_golang_sdk.Failure.{Failure, dns_not_found}
use alibaba_ati_golang_sdk.Dane.{DaneOutcome}

pub data OutcomeType : Type 0 where
  verified not_ati_agent invalid_status fingerprint_mismatch hostname_mismatch ati_name_mismatch :
      OutcomeType
  dns_error tlog_error cert_error fail_open url_validation_error dane_rejection scitt_error
        gold_error :
      OutcomeType

pub data VerificationTier : Type 0 where
  tier_badge_only tier_full_scitt tier_gold : VerificationTier

pub record VerificationOutcome : Type 0 where
  pub outcome_type : OutcomeType
  pub tier : VerificationTier
  pub tl_response : Option TlResponse
  pub matched_fingerprint : Option CertFingerprint
  pub expected : Bytes
  pub actual : Bytes
  pub status : TlAgentStatus
  pub host : Bytes
  pub error : Option Failure
  pub warnings : List Bytes
  pub dane_outcome : Option DaneOutcome

-- &VerificationOutcome{Type: t}: the other fields have their zero values.
abbrev pub of_type : OutcomeType → VerificationOutcome
of_type t = record {
  outcome_type = t;
  tier = tier_badge_only;
  tl_response = none;
  matched_fingerprint = none;
  expected = [];
  actual = [];
  status = [];
  host = [];
  error = none;
  warnings = [];
  dane_outcome = none;
}

abbrev pub new_verified_outcome : TlResponse → CertFingerprint → VerificationOutcome
new_verified_outcome r f = record (of_type verified) {
  tl_response = some r;
  matched_fingerprint = some f;
}

abbrev pub new_not_ati_agent_outcome : Bytes → VerificationOutcome
new_not_ati_agent_outcome host = record (of_type not_ati_agent) { host = host }

abbrev pub new_invalid_status_outcome : TlResponse → TlAgentStatus → VerificationOutcome
new_invalid_status_outcome r s = record (of_type invalid_status) {
  tl_response = some r;
  status = s;
}

abbrev pub mismatch : OutcomeType → TlResponse → Bytes → Bytes → VerificationOutcome
mismatch t r expected actual = record (of_type t) {
  tl_response = some r;
  expected = expected;
  actual = actual;
}

abbrev pub new_fingerprint_mismatch_outcome : TlResponse → Bytes → Bytes → VerificationOutcome
new_fingerprint_mismatch_outcome = mismatch fingerprint_mismatch

abbrev pub new_hostname_mismatch_outcome : TlResponse → Bytes → Bytes → VerificationOutcome
new_hostname_mismatch_outcome = mismatch hostname_mismatch

abbrev pub new_ati_name_mismatch_outcome : TlResponse → Bytes → Bytes → VerificationOutcome
new_ati_name_mismatch_outcome = mismatch ati_name_mismatch

abbrev pub failed : OutcomeType → Option Failure → VerificationOutcome
failed t e = record (of_type t) { error = e }

abbrev pub new_dns_error_outcome : Failure → VerificationOutcome
new_dns_error_outcome e = failed dns_error (some e)

abbrev pub new_tlog_error_outcome : Failure → VerificationOutcome
new_tlog_error_outcome e = failed tlog_error (some e)

-- The error may be nil.
abbrev pub new_fail_open_outcome : Option Failure → VerificationOutcome
new_fail_open_outcome = failed fail_open

abbrev pub new_cert_error_outcome : Failure → VerificationOutcome
new_cert_error_outcome e = failed cert_error (some e)

abbrev pub new_scitt_error_outcome : Failure → VerificationOutcome
new_scitt_error_outcome e = failed scitt_error (some e)

abbrev pub new_url_validation_error_outcome : Failure → VerificationOutcome
new_url_validation_error_outcome e = failed url_validation_error (some e)

abbrev pub new_gold_error_outcome : Failure → VerificationOutcome
new_gold_error_outcome e = failed gold_error (some e)

abbrev pub new_gold_verified_outcome : CertFingerprint → VerificationOutcome
new_gold_verified_outcome f = record (of_type verified) {
  tier = tier_gold;
  matched_fingerprint = some f;
}

abbrev pub new_dane_rejection_outcome : Option TlResponse → DaneOutcome → VerificationOutcome
new_dane_rejection_outcome r d = record (of_type dane_rejection) {
  tl_response = r;
  error = d.error;
  dane_outcome = some d;
}

abbrev pub type_is_verified : OutcomeType → Bool
type_is_verified verified = true
type_is_verified _ = false

abbrev pub type_is_fail_open : OutcomeType → Bool
type_is_fail_open fail_open = true
type_is_fail_open _ = false

abbrev pub type_is_fingerprint_mismatch : OutcomeType → Bool
type_is_fingerprint_mismatch fingerprint_mismatch = true
type_is_fingerprint_mismatch _ = false

abbrev pub success_type : OutcomeType → Bool
success_type verified = true
success_type fail_open = true
success_type _ = false

unfoldable pub is_success : VerificationOutcome → Bool
is_success o = success_type o.outcome_type

unfoldable pub is_fail_open : VerificationOutcome → Bool
is_fail_open o = type_is_fail_open o.outcome_type

abbrev pub type_is_not_ati_agent : OutcomeType → Bool
type_is_not_ati_agent not_ati_agent = true
type_is_not_ati_agent _ = false

unfoldable pub is_not_ati_agent : VerificationOutcome → Bool
is_not_ati_agent o = type_is_not_ati_agent o.outcome_type

abbrev or_not_found : Bytes → Option Failure → Option Failure
or_not_found host (some e) = some e
or_not_found host none = some (dns_not_found (if is_empty host then codes "unknown" else host))

abbrev pub error_of : OutcomeType → VerificationOutcome → Option Failure
error_of verified o = none
error_of fail_open o = none
error_of not_ati_agent o = or_not_found o.host o.error
error_of invalid_status o = some (Failure.invalid_status o.status)
error_of fingerprint_mismatch o = some (Failure.fingerprint_mismatch o.expected o.actual)
error_of hostname_mismatch o = some (Failure.hostname_mismatch o.expected o.actual)
error_of ati_name_mismatch o = some (Failure.ati_name_mismatch o.expected o.actual)
error_of _ o = o.error

-- The method ToError; none is nil.
unfoldable pub to_error : VerificationOutcome → Option Failure
to_error o = error_of o.outcome_type o
