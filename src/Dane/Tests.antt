-- ===== src/Dane/Tests.antt =====
-- Records with and without a fit.
use alibaba_ati_golang_sdk.Base.{
  ◌≡◌, ◌↔◌, refl, true, [], ◌∷◌, ok, err, none, some, codes, to_lower, bytes_eq, Result,
}
use alibaba_ati_golang_sdk.Base.Hex.{encode}
use alibaba_ati_golang_sdk.Models.Fqdn.{Fqdn}
use alibaba_ati_golang_sdk.Cert.{CertIdentity, to_hex}
use alibaba_ati_golang_sdk.Failure.{Failure, dnssec_failed, is_dnssec_failed}
use alibaba_ati_golang_sdk.Dane.{
  TlsaRecord, TlsaLookupResult, is_verified, is_reject, verify_with_lookup, match_records,
}
use alibaba_ati_golang_sdk.Dane.Claims.{Positive, Negative, verified_iff, reject_iff}

abbrev host : Fqdn
host = record { value = codes "a.b" }

abbrev cert : CertIdentity
cert = record {
  common_name = none;
  dns_sans = [];
  uri_sans = [];
  fingerprint = record { bytes = 171 ∷ [] };
  spki_fingerprint = record { bytes = 205 ∷ [] };
}

abbrev anchor : TlsaRecord
anchor = record { usage = 2; selector = 0; matching_type = 1; cert_hash = codes "AB" }

abbrev key_record : TlsaRecord
key_record = record { usage = 3; selector = 1; matching_type = 1; cert_hash = codes "CD" }

abbrev found : Result Failure TlsaLookupResult
found = ok (record { found = true; records = anchor ∷ key_record ∷ []; dnssec_valid = true })

abbrev unfit : Result Failure TlsaLookupResult
unfit = ok (record { found = true; records = anchor ∷ []; dnssec_valid = true })

runs :
    (is_verified (verify_with_lookup host (some cert) found) ≡ true)
    × (is_reject (verify_with_lookup host (some cert) unfit) ≡ true)
    × (is_reject (verify_with_lookup host (some cert) (err (dnssec_failed []))) ≡ true)
unfolding is_verified is_reject is_dnssec_failed verify_with_lookup match_records to_hex encode
    to_lower bytes_eq
runs = (refl, refl, refl)

verified_iff_example :
    (is_verified (verify_with_lookup host (some cert) found) ≡ true) ↔ Positive (some cert) found
verified_iff_example = verified_iff host (some cert) found

reject_iff_example :
    (is_reject (verify_with_lookup host (some cert) unfit) ≡ true) ↔ Negative (some cert) unfit
reject_iff_example = reject_iff host (some cert) unfit
