-- ===== src/Cert/Names.antt =====
-- The ATI names of a certificate.
use alibaba_ati_golang_sdk.Base.{
  ℕ, ◌≡◌, refl, ◌∙◌, ap, false, List, [], ◌∷◌, ◌++◌, Option, none, some, Bytes, Result, ok, err,
  codes, to_lower, to_lower_idem, cut_prefix, arith, inl, inr, Option-cases, All, contains_byte,
}
use alibaba_ati_golang_sdk.Base.Split.{split_n, split_n_four, decimal, no_dot-decimal}
use alibaba_ati_golang_sdk.Models.Version.{Version, VersionError, parse_version, version_string}
use alibaba_ati_golang_sdk.Models.Version.RoundTrip.{InRange, parse-version_string}
use alibaba_ati_golang_sdk.Cert.{
  AtiName, NameError, CertIdentity, parse_ati_name, cert_ati_name, cert_ati_names, valid_name,
  first_name, all_names, name_after_scheme, name_after_v, name_of_parts, ok_name, name_with_scheme,
  named,
}

abbrev pub head_name : List AtiName → Option AtiName
head_name [] = none
head_name (x ∷ xs) = some x

first-head : (uris : List Bytes) → first_name uris ≡ head_name (all_names uris)
unfolding first_name all_names
first-head [] = refl
first-head (u ∷ us) = elim (Option-cases (valid_name u)) [
  | inl e ↦ rw e (first-head us)
  | inr (n, e) ↦ rw e refl
]

-- A name that was parsed keeps its text and has its host in lower case.
pub record IsNamed (n : AtiName) : Type 0 where
  pub parsed : parse_ati_name n.raw ≡ ok n
  pub lower : to_lower n.host ≡ n.host

named_fields :
    (uri d : Bytes) (r : Result VersionError Version) (n : AtiName)
    → named uri d r ≡ ok n
    → (n.raw ≡ uri) × (to_lower n.host ≡ n.host)
named_fields uri d (ok v) n h = ground (arith, to_lower_idem d)
named_fields uri d (err e) n h = ground arith

parts_fields :
    (uri : Bytes) (ps : List Bytes) (n : AtiName)
    → name_of_parts uri ps ≡ ok n
    → (n.raw ≡ uri) × (to_lower n.host ≡ n.host)
parts_fields uri [] n h = ground arith
parts_fields uri (a ∷ []) n h = ground arith
parts_fields uri (a ∷ b ∷ []) n h = ground arith
parts_fields uri (a ∷ b ∷ c ∷ []) n h = ground arith
parts_fields uri (a ∷ b ∷ c ∷ d ∷ r) n h = named_fields uri d _ n h

after_v_fields :
    (uri rest : Bytes) (v : Option Bytes) (n : AtiName)
    → name_after_v uri rest v ≡ ok n
    → (n.raw ≡ uri) × (to_lower n.host ≡ n.host)
after_v_fields uri rest none n h = ground arith
after_v_fields uri rest (some _) n h = parts_fields uri (split_n b'.' 4 rest) n h

after_scheme_fields :
    (uri : Bytes) (r : Option Bytes) (n : AtiName)
    → name_after_scheme uri r ≡ ok n
    → (n.raw ≡ uri) × (to_lower n.host ≡ n.host)
after_scheme_fields uri none n h = ground arith
after_scheme_fields uri (some rest) n h = after_v_fields uri rest (cut_prefix rest (b'v' ∷ [])) n h

pub parse_ati_name-fields :
    (uri : Bytes) (n : AtiName)
    → parse_ati_name uri ≡ ok n
    → (n.raw ≡ uri) × (to_lower n.host ≡ n.host)
unfolding parse_ati_name
parse_ati_name-fields [] n h = ground arith
parse_ati_name-fields (c ∷ cs) n h =
    after_scheme_fields (c ∷ cs) (cut_prefix (c ∷ cs) (codes "ati://")) n h

ok_name-eq : (r : Result NameError AtiName) (n : AtiName) → ok_name r ≡ some n → r ≡ ok n
ok_name-eq (ok m) n h = ground arith
ok_name-eq (err e) n h = ground arith

with_scheme_parsed :
    (uri : Bytes) (r : Option Bytes) (n : AtiName)
    → name_with_scheme uri r ≡ some n
    → parse_ati_name uri ≡ ok n
with_scheme_parsed uri none n h = ground arith
with_scheme_parsed uri (some r) n h = ok_name-eq (parse_ati_name uri) n h

valid_name-IsNamed : (uri : Bytes) (n : AtiName) → valid_name uri ≡ some n → IsNamed n
unfolding valid_name
valid_name-IsNamed uri n h =
    let e : parse_ati_name uri ≡ ok n =
      with_scheme_parsed uri (cut_prefix uri (codes "ati://")) n h in
    let (a, b) = parse_ati_name-fields uri n e in
    record { parsed = ap parse_ati_name a ∙ e; lower = b }

all_names-IsNamed : (uris : List Bytes) → All IsNamed (all_names uris)
unfolding all_names
all_names-IsNamed [] = tt
all_names-IsNamed (u ∷ us) = elim (Option-cases (valid_name u)) [
  | inl e ↦ rw e (all_names-IsNamed us)
  | inr (n, e) ↦ rw e (valid_name-IsNamed u n e, all_names-IsNamed us)
]

-- `ATIName` is the first of `ATINames`, and each of those keeps its URI, is what `ParseATIName` reads
-- from it, and has its host in lower case.
pub cert_ati_names_lem :
    (c : CertIdentity)
    → (cert_ati_name c ≡ head_name (cert_ati_names c)) × All IsNamed (cert_ati_names c)
unfolding cert_ati_name cert_ati_names
cert_ati_names_lem c = (first-head c.uri_sans, all_names-IsNamed c.uri_sans)

v_free : (n : ℕ) → contains_byte b'.' (b'v' ∷ decimal n) ≡ false
unfolding contains_byte
v_free n = no_dot-decimal n

version_text :
    (v : Version)
    → InRange v
    → parse_version ((b'v' ∷ decimal v.major) ++ b'.' ∷ (decimal v.minor ++ b'.' ∷ decimal v.patch))
      ≡ ok v
version_text v h = unfold version_string in parse-version_string v h

abbrev pub name_uri : Version → Bytes → Bytes
name_uri v host =
    codes "ati://"
    ++ (b'v'
        ∷ (decimal v.major ++ b'.' ∷ (decimal v.minor ++ b'.' ∷ (decimal v.patch ++ b'.' ∷ host))))

-- The URI of any version and any host is read back as that version and that host in lower case.
pub parse_ati_name-name_uri :
    (v : Version) (host : Bytes)
    → InRange v
    → parse_ati_name (name_uri v host)
      ≡ ok (record { version = v; host = to_lower host; raw = name_uri v host })
unfolding parse_ati_name cut_prefix
parse_ati_name-name_uri v host h =
    rw
      (split_n_four b'.' (b'v' ∷ decimal v.major) (decimal v.minor) (decimal v.patch) host
        (v_free v.major) (no_dot-decimal v.minor) (no_dot-decimal v.patch))
      (rw (version_text v h) refl)
