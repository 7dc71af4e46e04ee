-- ===== src/Cert/Tests.antt =====
-- Runs of the functions on certificates.
use alibaba_ati_golang_sdk.Base.{
  ◌≡◌, refl, ◌↔◌, ◌⊎◌, true, false, [], ◌∷◌, ok, some, codes, to_lower, bytes_eq, cut_prefix,
  contains_byte, All, List, ℕ, zero, suc, arith,
}
use alibaba_ati_golang_sdk.Base.Hex.{IsByte}
use alibaba_ati_golang_sdk.Base.Split.{trim_suffix, cut_suffix}
use alibaba_ati_golang_sdk.Models.Version.{Version}
use alibaba_ati_golang_sdk.Cert.{
  CertFingerprint, CertIdentity, parse_cert_fingerprint, fingerprint_string, matches_with_renewal,
  is_blank, matches_dns_name, parse_ati_name,
}
use alibaba_ati_golang_sdk.Cert.Fingerprint.{
  IsDigest, parse-fingerprint_string, matches_with_renewal_iff,
}
use alibaba_ati_golang_sdk.Cert.Wildcard.{Covers, folded, matches_dns_name_iff}
use alibaba_ati_golang_sdk.Cert.Names.{name_uri, parse_ati_name-name_uri}

abbrev copies : ℕ → List ℕ
copies zero = []
copies (suc n) = 171 ∷ copies n

abbrev digest : CertFingerprint
digest = record { bytes = copies 32 }

copies-IsByte : (n : ℕ) → All IsByte (copies n)
copies-IsByte zero = tt
copies-IsByte (suc n) = (omega arith, copies-IsByte n)

digest-IsDigest : IsDigest digest
digest-IsDigest = record { bytes = copies-IsByte 32; size = refl }

parse-fingerprint_string_example : parse_cert_fingerprint (fingerprint_string digest) ≡ ok digest
parse-fingerprint_string_example = parse-fingerprint_string digest digest-IsDigest

matches_with_renewal_iff_example :
    (matches_with_renewal digest (codes "SHA256:00") (fingerprint_string digest) ≡ true) ↔ (
      (is_blank (codes "SHA256:00") ≡ false)
      × ((parse_cert_fingerprint (codes "SHA256:00") ≡ ok digest)
          ⊎ (parse_cert_fingerprint (fingerprint_string digest) ≡ ok digest)))
matches_with_renewal_iff_example =
    matches_with_renewal_iff digest (codes "SHA256:00") (fingerprint_string digest)

matches_dns_name_iff_example :
    (matches_dns_name (codes "*.Example.com") (codes "a.example.com.") ≡ true
      → Covers (folded (codes "*.Example.com")) (folded (codes "a.example.com.")))
    × (Covers (folded (codes "*.Example.com")) (folded (codes "a.example.com."))
        → matches_dns_name (codes "*.Example.com") (codes "a.example.com.") ≡ true)
matches_dns_name_iff_example = matches_dns_name_iff (codes "*.Example.com") (codes "a.example.com.")

wildcards :
    (matches_dns_name (codes "*.Example.com") (codes "a.example.com.") ≡ true)
    × (matches_dns_name (codes "*.example.com") (codes "a.b.example.com") ≡ false)
    × (matches_dns_name (codes "*.example.com") (codes "example.com") ≡ false)
    × (matches_dns_name (codes "a.example.com") (codes "A.example.com") ≡ true)
unfolding matches_dns_name trim_suffix to_lower cut_prefix cut_suffix bytes_eq contains_byte
wildcards = (refl, refl, refl, refl)

abbrev release : Version
release = record { major = 1; minor = 0; patch = 12 }

parse_ati_name-name_uri_example :
    parse_ati_name (name_uri release (codes "A.example.com"))
    ≡ ok (record {
      version = release;
      host = to_lower (codes "A.example.com");
      raw = name_uri release (codes "A.example.com");
    })
parse_ati_name-name_uri_example =
    parse_ati_name-name_uri release (codes "A.example.com") (omega arith)

abbrev cert : CertIdentity
cert = record {
  common_name = some (codes "a.example.com");
  dns_sans = codes "a.example.com" ∷ [];
  uri_sans =
      codes "https://a.example.com"
      ∷ codes "ati://v1.0.0.a.example.com"
      ∷ codes "ati://v1.0.1.b.example.com"
      ∷ [];
  fingerprint = digest;
  spki_fingerprint = digest;
}
