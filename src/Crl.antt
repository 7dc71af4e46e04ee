-- ===== src/Crl.antt =====
-- verify/crl: the check of a certificate against the revocation list that its chain names. The functions of
-- crypto/x509 and the download of a list are parameters. A serial number is not negative.
pub mod Claims
pub mod Fetcher
mod Tests
use alibaba_ati_golang_sdk.Base.{
  ℕ, Bool, true, false, not, ◌||◌, List, [], ◌∷◌, Option, none, some, Bytes, ◌==◌, if◌then◌else◌,
  Result, ok, err, cut_prefix, codes, any,
}
use alibaba_ati_golang_sdk.Base.Map.{is_some}

-- The fields of x509.Certificate that are read; `address` tells two pointers apart.
pub record Certificate : Type 0 where
  pub address : ℕ
  pub crl_distribution_points : List Bytes
  pub serial_number : ℕ

pub record RevocationList : Type 0 where
  pub revoked_serials : List ℕ
  pub contents : Bytes

-- leaf.CheckSignatureFrom(cert), x509.ParseRevocationList, rl.CheckSignatureFrom(issuer), and Fetch.
pub record Authority : Type 0 where
  pub check_signature_from : Certificate → Certificate → Bool
  pub parse_revocation_list : Bytes → Option RevocationList
  pub list_signed_by : RevocationList → Certificate → Bool
  pub fetch : Bytes → Option Bytes

pub data CdpResult : Type 0 where
  cdp_skipped cdp_failed : CdpResult
  cdp_found : Bytes → CdpResult

pub data Status : Type 0 where
  skipped passed revoked failed : Status

-- The messages are left out.
pub record CheckResult : Type 0 where
  pub status : Status
  pub cdp_uri : Bytes

abbrev status_rejects : Status → Bool
status_rejects skipped = false
status_rejects passed = false
status_rejects revoked = true
status_rejects failed = true

unfoldable pub should_reject : CheckResult → Bool
should_reject r = status_rejects r.status

unfoldable pub is_http_uri : Bytes → Bool
is_http_uri uri =
    is_some (cut_prefix uri (codes "http://")) || is_some (cut_prefix uri (codes "https://"))

-- The inner loop, from the distribution points of one certificate on.
unfoldable pub first_uri : List Bytes → CdpResult
first_uri [] = cdp_failed
first_uri (dp ∷ dps) = if is_http_uri dp then cdp_found dp else first_uri dps

abbrev uri_of : List Bytes → CdpResult → CdpResult
uri_of [] rest = rest
uri_of (dp ∷ dps) rest = first_uri (dp ∷ dps)

unfoldable pub resolve_cdp : List Certificate → CdpResult
resolve_cdp [] = cdp_skipped
resolve_cdp (cert ∷ chain) = uri_of cert.crl_distribution_points (resolve_cdp chain)

unfoldable pub find_issuing_ca : Authority → Certificate → List Certificate → Option Certificate
find_issuing_ca x leaf [] = none
find_issuing_ca x leaf (cert ∷ chain) =
    let rest = find_issuing_ca x leaf chain in
    if cert.address == leaf.address
    then rest
    else if x.check_signature_from leaf cert
    then some cert
    else rest

unfoldable pub is_revoked : RevocationList → ℕ → Bool
is_revoked rl serial = any (λ s. s == serial) rl.revoked_serials

pub data ValidationError : Type 0 where
  err_parse_failed err_invalid_signature err_revoked : ValidationError

abbrev validate_list :
    Authority → Certificate → ℕ → Option RevocationList → Result ValidationError (Unit {0})
validate_list x issuer serial none = err err_parse_failed
validate_list x issuer serial (some rl) =
    if not (x.list_signed_by rl issuer)
    then err err_invalid_signature
    else if is_revoked rl serial
    then err err_revoked
    else ok tt

unfoldable pub validate_not_revoked :
    Authority → Bytes → Certificate → ℕ → Result ValidationError (Unit {0})
validate_not_revoked x bytes issuer serial =
    validate_list x issuer serial (x.parse_revocation_list bytes)

abbrev validated : Bytes → Result ValidationError (Unit {0}) → CheckResult
validated uri (ok u) = record { status = passed; cdp_uri = uri }
validated uri (err err_revoked) = record { status = revoked; cdp_uri = uri }
validated uri (err e) = record { status = failed; cdp_uri = uri }

abbrev check_fetched : Authority → Certificate → Certificate → Bytes → Option Bytes → CheckResult
check_fetched x leaf issuer uri none = record { status = failed; cdp_uri = uri }
check_fetched x leaf issuer uri (some bytes) =
    validated uri (validate_not_revoked x bytes issuer leaf.serial_number)

abbrev check_issued : Authority → Certificate → Bytes → Option Certificate → CheckResult
check_issued x leaf uri none = record { status = failed; cdp_uri = uri }
check_issued x leaf uri (some issuer) = check_fetched x leaf issuer uri (x.fetch uri)

abbrev check_found : Authority → Certificate → List Certificate → CdpResult → CheckResult
check_found x leaf chain cdp_skipped = record { status = skipped; cdp_uri = [] }
check_found x leaf chain cdp_failed = record { status = failed; cdp_uri = [] }
check_found x leaf chain (cdp_found uri) = check_issued x leaf uri (find_issuing_ca x leaf chain)

-- The method Check.
unfoldable pub check : Authority → Certificate → List Certificate → CheckResult
check x leaf chain = check_found x leaf chain (resolve_cdp chain)
