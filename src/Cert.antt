-- ===== src/Cert.antt =====
-- verify/cert.go: fingerprints, ATI names and the identity that a certificate carries. Reading a
-- certificate itself (crypto/x509, encoding/pem) is not code of the repository.
pub mod Names
pub mod Fingerprint
pub mod Wildcard
mod Tests
use alibaba_ati_golang_sdk.Base.{
  is_space, ℕ, ◌<◌, ◌≤◌, ◌≡◌, Bool, true, false, ◌&&◌, ◌||◌, not, List, [], ◌∷◌, ◌++◌, Option, none,
  some, Bytes, leb, ltb, ◌==◌, if◌then◌else◌, Result, ok, err, ◌>>=◌, codes, bytes_eq, is_empty,
  to_lower, cut_prefix, contains_byte, all, any, length,
}
use alibaba_ati_golang_sdk.Base.Hex.{encode, decode}
use alibaba_ati_golang_sdk.Base.Split.{split_n, trim_suffix, cut_suffix}
use alibaba_ati_golang_sdk.Models.Version.{Version, VersionError, parse_version}

-- 32 bytes.
pub record CertFingerprint : Type 0 where
  pub bytes : Bytes

pub data FingerprintError : Type 0 where
  invalid_format invalid_hex : FingerprintError
  invalid_length : ℕ → FingerprintError

-- The prefixes in the order in which they are tried, and what follows the one that is there.
after_prefix : Bytes → Option Bytes
after_prefix s = elim (cut_prefix s (codes "SHA256:")) [
  | some r ↦ some r
  | none ↦ elim (cut_prefix s (codes "sha256:")) [
    | some r ↦ some r
    | none ↦ elim (cut_prefix s (codes "SHA-256:")) [
      | some r ↦ some r
      | none ↦ cut_prefix s (codes "sha-256:")
    ]
  ]
]

abbrev decoded_fingerprint : Option Bytes → Result FingerprintError CertFingerprint
decoded_fingerprint none = err invalid_hex
decoded_fingerprint (some b) =
    if length b == 32 then ok (record { bytes = b }) else err (invalid_length (length b))

unfoldable pub parse_cert_fingerprint : Bytes → Result FingerprintError CertFingerprint
unfolding after_prefix
parse_cert_fingerprint s = elim (after_prefix s) [
  | none ↦ err invalid_format
  | some hex ↦ decoded_fingerprint (decode hex)
]

-- The method String.
unfoldable pub fingerprint_string : CertFingerprint → Bytes
fingerprint_string f = codes "SHA256:" ++ encode f.bytes

unfoldable pub to_hex : CertFingerprint → Bytes
to_hex f = encode f.bytes

abbrev same_fingerprint : CertFingerprint → Result FingerprintError CertFingerprint → Bool
same_fingerprint f (err e) = false
same_fingerprint f (ok parsed) = bytes_eq f.bytes parsed.bytes

unfoldable pub matches : CertFingerprint → Bytes → Bool
matches f other = same_fingerprint f (parse_cert_fingerprint other)

unfoldable pub matches_any : CertFingerprint → List Bytes → Bool
unfolding matches
matches_any f [] = false
matches_any f (c ∷ candidates) = (not (is_empty c) && matches f c) || matches_any f candidates

-- strings.TrimSpace(s) == ""
abbrev pub is_blank : Bytes → Bool
is_blank s = all is_space s

unfoldable pub matches_with_renewal : CertFingerprint → Bytes → Bytes → Bool
unfolding matches_any
matches_with_renewal f current previous =
    if is_blank current then false else matches_any f (current ∷ previous ∷ [])

pub record AtiName : Type 0 where
  pub version : Version
  pub host : Bytes
  pub raw : Bytes

pub data NameError : Type 0 where
  empty_name no_prefix no_v no_fqdn : NameError
  bad_version : VersionError → NameError

abbrev named : Bytes → Bytes → Result VersionError Version → Result NameError AtiName
named uri host (err e) = err (bad_version e)
named uri host (ok v) = ok (record { version = v; host = to_lower host; raw = uri })

abbrev name_of_parts : Bytes → List Bytes → Result NameError AtiName
name_of_parts uri (a ∷ b ∷ c ∷ d ∷ _) = named uri d (parse_version (a ++ b'.' ∷ (b ++ b'.' ∷ c)))
name_of_parts uri _ = err no_fqdn

-- The test for the leading v, and the four parts.
abbrev name_after_v : Bytes → Bytes → Option Bytes → Result NameError AtiName
name_after_v uri rest none = err no_v
name_after_v uri rest (some _) = name_of_parts uri (split_n b'.' 4 rest)

abbrev name_after_scheme : Bytes → Option Bytes → Result NameError AtiName
name_after_scheme uri none = err no_prefix
name_after_scheme uri (some rest) = name_after_v uri rest (cut_prefix rest (b'v' ∷ []))

unfoldable pub parse_ati_name : Bytes → Result NameError AtiName
parse_ati_name [] = err empty_name
parse_ati_name (c ∷ cs) = name_after_scheme (c ∷ cs) (cut_prefix (c ∷ cs) (codes "ati://"))

pub record CertIdentity : Type 0 where
  pub common_name : Option Bytes
  pub dns_sans : List Bytes
  pub uri_sans : List Bytes
  pub fingerprint : CertFingerprint
  pub spki_fingerprint : CertFingerprint

abbrev first_or : Option Bytes → List Bytes → Option Bytes
first_or d [] = d
first_or d (x ∷ xs) = some x

-- The method FQDN; none is nil.
unfoldable pub cert_fqdn : CertIdentity → Option Bytes
cert_fqdn c = first_or c.common_name c.dns_sans

abbrev one_label : Option Bytes → Bool
one_label none = false
one_label (some label) = not (is_empty label) && not (contains_byte b'.' label)

-- From the test for "*." on: `suffix` starts with the dot.
abbrev wildcard_match : Bytes → Bytes → Option Bytes → Bool
wildcard_match pattern host none = bytes_eq pattern host
wildcard_match pattern host (some rest) = one_label (cut_suffix host (b'.' ∷ rest))

unfoldable pub matches_dns_name : Bytes → Bytes → Bool
matches_dns_name pattern host =
    let p = to_lower (trim_suffix b'.' pattern) in
    let h = to_lower (trim_suffix b'.' host) in
    if is_empty p || is_empty h then false else wildcard_match p h (cut_prefix p (codes "*."))

unfoldable pub covers_host : CertIdentity → Bytes → Bool
unfolding matches_dns_name
covers_host c host = any (λ san. matches_dns_name san host) c.dns_sans

abbrev ok_name : Result NameError AtiName → Option AtiName
ok_name (err e) = none
ok_name (ok name) = some name

abbrev name_with_scheme : Bytes → Option Bytes → Option AtiName
name_with_scheme uri none = none
name_with_scheme uri (some _) = ok_name (parse_ati_name uri)

-- The URIs that the loops below skip give none.
unfoldable pub valid_name : Bytes → Option AtiName
valid_name uri = name_with_scheme uri (cut_prefix uri (codes "ati://"))

abbrev first_of : Option AtiName → Option AtiName → Option AtiName
first_of none rest = rest
first_of (some name) rest = some name

abbrev with_name : Option AtiName → List AtiName → List AtiName
with_name none rest = rest
with_name (some name) rest = name ∷ rest

first_name : List Bytes → Option AtiName
first_name [] = none
first_name (uri ∷ uris) = first_of (valid_name uri) (first_name uris)

-- The method ATIName; none is nil.
unfoldable pub cert_ati_name : CertIdentity → Option AtiName
unfolding first_name
cert_ati_name c = first_name c.uri_sans

all_names : List Bytes → List AtiName
all_names [] = []
all_names (uri ∷ uris) = with_name (valid_name uri) (all_names uris)

-- The method ATINames.
unfoldable pub cert_ati_names : CertIdentity → List AtiName
unfolding all_names
cert_ati_names c = all_names c.uri_sans

-- The loop of ATINameForHost, with the first valid name so far.
abbrev or_first : Option AtiName → AtiName → Option AtiName
or_first none name = some name
or_first (some f) name = some f

name_for_host : Bytes → Option AtiName → List Bytes → Option AtiName
name_for_host host first [] = first
name_for_host host first (uri ∷ uris) = elim (valid_name uri) [
  | none ↦ name_for_host host first uris
  | some name ↦
      let rest = name_for_host host (or_first first name) uris in
      if bytes_eq name.host host then some name else rest
]

unfoldable pub cert_ati_name_for_host : CertIdentity → Bytes → Option AtiName
unfolding name_for_host
cert_ati_name_for_host c host = name_for_host (to_lower host) none c.uri_sans
