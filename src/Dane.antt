-- ===== src/Dane.antt =====
-- verify/dane.go, up to the resolver: what TLSA records say of a certificate. The lookup itself, DNS with
-- the validation of a DNSSEC chain, is an argument: what it returned.
pub mod Claims
mod Tests
use alibaba_ati_golang_sdk.Base.{
  ℕ, Bool, true, false, not, List, [], ◌∷◌, Option, none, some, Bytes, ◌==◌, if◌then◌else◌, Result,
  ok, err, bytes_eq, is_empty, to_lower,
}
use alibaba_ati_golang_sdk.Models.Fqdn.{Fqdn}
use alibaba_ati_golang_sdk.Cert.{CertIdentity, to_hex}
use alibaba_ati_golang_sdk.Failure.{
  Failure, is_dnssec_failed, nil_certificate, no_tlsa_records, tlsa_without_dnssec, tlsa_mismatch,
}

pub record TlsaRecord : Type 0 where
  pub usage : ℕ
  pub selector : ℕ
  pub matching_type : ℕ
  pub cert_hash : Bytes

pub record TlsaLookupResult : Type 0 where
  pub found : Bool
  pub records : List TlsaRecord
  pub dnssec_valid : Bool

pub data DaneOutcomeType : Type 0 where
  dane_verified dane_mismatch dane_skipped dane_dnssec_failed dane_no_records dane_lookup_error :
      DaneOutcomeType

pub record DaneOutcome : Type 0 where
  pub outcome_type : DaneOutcomeType
  pub records : List TlsaRecord
  pub cert_hash_used : Bytes
  pub error : Option Failure

abbrev pub passes : DaneOutcomeType → Bool
passes dane_verified = true
passes dane_skipped = true
passes dane_no_records = true
passes _ = false

unfoldable pub is_pass : DaneOutcome → Bool
is_pass o = passes o.outcome_type

abbrev pub rejects : DaneOutcomeType → Bool
rejects dane_mismatch = true
rejects dane_dnssec_failed = true
rejects _ = false

unfoldable pub is_reject : DaneOutcome → Bool
is_reject o = rejects o.outcome_type

abbrev pub type_is_verified : DaneOutcomeType → Bool
type_is_verified dane_verified = true
type_is_verified _ = false

unfoldable pub is_verified : DaneOutcome → Bool
is_verified o = type_is_verified o.outcome_type

abbrev type_is_error : DaneOutcomeType → Bool
type_is_error dane_lookup_error = true
type_is_error _ = false

unfoldable pub is_error : DaneOutcome → Bool
is_error o = type_is_error o.outcome_type

abbrev pub tlsa_usage_dane_ee : ℕ
tlsa_usage_dane_ee = 3

-- The hash that a record is compared with; none where the loop goes on.
abbrev pub record_hex : Bytes → Bytes → TlsaRecord → Option Bytes
record_hex full spki r =
    if not (r.usage == tlsa_usage_dane_ee)
    then none
    else if r.selector == 0
    then some full
    else if r.selector == 1
    then some spki
    else none

-- The end of the loop's body: `last` is lastCertHex, `rest` the loop on the later records.
abbrev pub after_record :
    Option Bytes → Bytes → Bytes → (Bytes → Result Bytes Bytes) → Result Bytes Bytes
after_record none hash last rest = rest last
after_record (some hex) hash last rest = if bytes_eq (to_lower hash) hex then ok hex else rest hex

-- The loop: the hash that matched, or lastCertHex.
unfoldable pub match_records : Bytes → Bytes → List TlsaRecord → Bytes → Result Bytes Bytes
match_records full spki [] = λ last. err last
match_records full spki (r ∷ rs) =
    let rest = match_records full spki rs in
    λ last. after_record (record_hex full spki r) r.cert_hash last rest

abbrev pub dane_failed : DaneOutcomeType → Failure → DaneOutcome
dane_failed t e = record { outcome_type = t; records = []; cert_hash_used = []; error = some e }

abbrev pub after_match : Bytes → List TlsaRecord → Result Bytes Bytes → DaneOutcome
after_match spki rs (ok hex) = record {
  outcome_type = dane_verified;
  records = rs;
  cert_hash_used = hex;
  error = none;
}
after_match spki rs (err last) = record {
  outcome_type = dane_mismatch;
  records = rs;
  cert_hash_used = if is_empty last then spki else last;
  error = some tlsa_mismatch;
}

-- From the comparison on.
abbrev pub compare_records : CertIdentity → List TlsaRecord → DaneOutcome
compare_records cert rs =
    let full = to_lower (to_hex cert.fingerprint) in
    let spki = to_lower (to_hex cert.spki_fingerprint) in
    after_match spki rs (match_records full spki rs [])

abbrev pub after_lookup : Fqdn → CertIdentity → Result Failure TlsaLookupResult → DaneOutcome
after_lookup fqdn cert (err e) =
    if is_dnssec_failed e then dane_failed dane_dnssec_failed e else dane_failed dane_lookup_error e
after_lookup fqdn cert (ok result) =
    if not result.found
    then dane_failed dane_no_records (no_tlsa_records fqdn.value)
    else if not result.dnssec_valid
    then record {
      outcome_type = dane_skipped;
      records = result.records;
      cert_hash_used = [];
      error = some (tlsa_without_dnssec fqdn.value);
    }
    else compare_records cert result.records

-- none is a nil certificate, for which nothing is looked up.
unfoldable pub verify_with_lookup :
    Fqdn → Option CertIdentity → Result Failure TlsaLookupResult → DaneOutcome
verify_with_lookup fqdn none lookup = dane_failed dane_lookup_error nil_certificate
verify_with_lookup fqdn (some cert) lookup = after_lookup fqdn cert lookup

-- DANEResolver, the interface.
pub record DaneResolver : Type 0 where
  pub lookup_tlsa : Fqdn → ℕ → Result Failure TlsaLookupResult
  pub lookup_identity_tlsa : Fqdn → Result Failure TlsaLookupResult

unfoldable pub verify : DaneResolver → Fqdn → ℕ → Option CertIdentity → DaneOutcome
verify d fqdn port cert = verify_with_lookup fqdn cert (d.lookup_tlsa fqdn port)

unfoldable pub verify_identity : DaneResolver → Fqdn → Option CertIdentity → DaneOutcome
verify_identity d fqdn cert = verify_with_lookup fqdn cert (d.lookup_identity_tlsa fqdn)
