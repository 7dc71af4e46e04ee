-- ===== src/Dns/Claims.antt =====
-- What the parser of badge records accepts, and which records are chosen.
use mathlib.Core.Path.{subst}
use alibaba_ati_golang_sdk.Base.{
  ◌≡◌, refl, sym, ap, ◌∙◌, ◌⊎◌, inl, inr, Bool, true, false, not, ◌||◌, List, [], ◌∷◌, Option, none,
  some, Bytes, Result, ok, err, bind_ok, ensure_then, require_then, ensure_ok, ok_eq, false_of_not,
  is_empty, bytes_eq, bytes_eq_iff, codes, All, Bool-cases, if_true, if_false, arith,
}
use alibaba_ati_golang_sdk.Base.Map.{Map, is_some}
use alibaba_ati_golang_sdk.Models.Version.{Version}
use alibaba_ati_golang_sdk.Models.Version.Order.{equal_iff}
use alibaba_ati_golang_sdk.Dns.{
  AtiBadgeRecord, RecordError, ParsedUrl, url_of, check_badge_url, badge_of_fields,
  parse_ati_badge_record, parse_semicolon_fields, is_valid_format_version, empty_record,
}
use alibaba_ati_golang_sdk.Dns.Choice.{
  exact_version, has_version, without_version, versionless, first_pass, find_badge_for_version,
}

-- A URL of HTTPS with a host, and without a user and a fragment.
pub record IsBadgeUrl (parse_url : Bytes → Option ParsedUrl) (text : Bytes) : Type 0 where
  pub url : ParsedUrl
  pub parsed : parse_url text ≡ some url
  pub scheme : url.scheme ≡ codes "https"
  pub host : is_empty url.host ≡ false
  pub user : url.has_user ≡ false
  pub fragment : is_empty url.fragment ≡ true

pub record IsBadge (parse_url : Bytes → Option ParsedUrl) (r : AtiBadgeRecord) : Type 0 where
  pub format : is_valid_format_version r.format_version ≡ true
  pub version : bytes_eq r.format_version (codes "ati-badge1") ≡ true → is_some r.version ≡ true
  pub url : IsBadgeUrl parse_url r.url

or_version : (a b : Bool) → (not a || b) ≡ true → a ≡ true → b ≡ true
or_version a b h k = ground arith

module _ (parse_url : Bytes → Option ParsedUrl) where
  url-IsBadgeUrl :
      (text : Bytes) (u : Unit {0})
      → check_badge_url parse_url text ≡ ok u
      → IsBadgeUrl parse_url text
  unfolding check_badge_url
  url-IsBadgeUrl text u h =
      let (url, p, h) = require_then _ _ _ u h in
      let (s, h) = ensure_then _ _ _ u h in
      let (k, h) = ensure_then _ _ _ u h in
      let (a, h) = ensure_then _ _ _ u h in
      record {
        url = url;
        parsed = p;
        scheme = (bytes_eq_iff url.scheme (codes "https")).0 s;
        host = false_of_not _ k;
        user = false_of_not _ a;
        fragment = ensure_ok _ _ u h;
      }

  fields-IsBadge :
      (m : Map Bytes) (r : AtiBadgeRecord)
      → badge_of_fields parse_url m ≡ ok r
      → IsBadge parse_url r
  unfolding badge_of_fields
  fields-IsBadge m r h =
      let (a, h) = ensure_then _ _ _ r h in
      let (b, h) = ensure_then _ _ _ r h in
      let (d, h) = ensure_then _ _ _ r h in
      let (e, h) = ensure_then _ _ _ r h in
      let (u, k, h) = bind_ok _ _ r h in
      subst (IsBadge parse_url) (ok_eq _ r h)
        (record { format = b; version = or_version _ _ d; url = url-IsBadgeUrl (url_of m) u k })

  -- A badge record is accepted only if its format is a known one, it has a version where the format asks for one,
  -- and its URL is one of HTTPS with a host, without a user and without a fragment.
  pub parse-IsBadge :
      (txt : Bytes) (r : AtiBadgeRecord)
      → parse_ati_badge_record parse_url txt ≡ ok r
      → IsBadge parse_url r
  unfolding parse_ati_badge_record
  parse-IsBadge txt r h = elim (Bool-cases (is_empty txt)) [
    | inl e ↦
        let q : Path (Result RecordError AtiBadgeRecord) (err empty_record) (ok r) = rw e at h in
        ground arith
    | inr e ↦ fields-IsBadge (parse_semicolon_fields txt) r (if_false _ _ _ (ok r) e h)
  ]

some_eq {ℓ} : {A : Type ℓ} (a b : A) → some a ≡ some b → a ≡ b
some_eq a b h = ground arith

-- One of a list.
abbrev pub In : {A : Type 0} → A → List A → Type 0
In x [] = ⊥
In x (y ∷ ys) = (y ≡ x) ⊎ In x ys

exact_lem :
    (v : Version) (rs : List AtiBadgeRecord) (r : AtiBadgeRecord)
    → exact_version v rs ≡ some r
    → In r rs × (has_version v r.version ≡ true)
unfolding exact_version
exact_lem v [] r h = ground arith
exact_lem v (s ∷ rs) r h = elim (Bool-cases (has_version v s.version)) [
  | inl e ↦
      let q = some_eq s r (if_true _ _ _ (some r) e h) in
      (inl q, ap (λ r. has_version v r.version) (sym q) ∙ e)
  | inr e ↦ let (a, b) = exact_lem v rs r (if_false _ _ _ (some r) e h) in (inr a, b)
]

exact_none :
    (v : Version) (rs : List AtiBadgeRecord)
    → exact_version v rs ≡ none
    → All (λ r. has_version v r.version ≡ false) rs
unfolding exact_version
exact_none v [] h = tt
exact_none v (s ∷ rs) h = elim (Bool-cases (has_version v s.version)) [
  | inl e ↦ let q : some s ≡ none = if_true _ _ _ none e h in ground arith
  | inr e ↦ (e, exact_none v rs (if_false _ _ _ none e h))
]

no_version_is_none : (v : Option Version) → versionless v ≡ true → v ≡ none
no_version_is_none none h = refl
no_version_is_none (some v) h = ground arith

without_lem :
    (rs : List AtiBadgeRecord) (r : AtiBadgeRecord)
    → without_version rs ≡ some r
    → In r rs × (r.version ≡ none)
unfolding without_version
without_lem [] r h = ground arith
without_lem (s ∷ rs) r h = elim (Bool-cases (versionless s.version)) [
  | inl e ↦
      let q = some_eq s r (if_true _ _ _ (some r) e h) in
      (inl q, ap (λ r. r.version) (sym q) ∙ no_version_is_none s.version e)
  | inr e ↦ let (a, b) = without_lem rs r (if_false _ _ _ (some r) e h) in (inr a, b)
]

version_eq : (v : Version) (w : Option Version) → has_version v w ≡ true → w ≡ some v
version_eq v none h = ground arith
version_eq v (some w) h = ap some ((equal_iff w v).0 h)

-- The record for a version: it has the version, or it has none and no record has the version.
pub data IsFor (v : Version) (rs : List AtiBadgeRecord) (r : AtiBadgeRecord) : Type 0 where
  exactly : r.version ≡ some v → IsFor v rs r
  instead : r.version ≡ none → All (λ s. has_version v s.version ≡ false) rs → IsFor v rs r

passes-IsFor :
    (v : Version) (rs : List AtiBadgeRecord) (r : AtiBadgeRecord) (a b : Option AtiBadgeRecord)
    → exact_version v rs ≡ a
    → without_version rs ≡ b
    → first_pass a b ≡ ok r
    → In r rs × IsFor v rs r
passes-IsFor v rs r (some s) b i j h =
    let (m, e) = exact_lem v rs r (i ∙ ap some (ok_eq s r h)) in
    (m, exactly (version_eq v r.version e))
passes-IsFor v rs r none (some s) i j h =
    let (m, e) = without_lem rs r (j ∙ ap some (ok_eq s r h)) in (m, instead e (exact_none v rs i))
passes-IsFor v rs r none none i j h = ground arith

-- The record that is found for a version is one of the domain's; it has that version, or it has no version and
-- none of the records has that version.
pub badge-IsFor :
    (v : Version) (rs : List AtiBadgeRecord) (r : AtiBadgeRecord)
    → find_badge_for_version v (ok rs) ≡ ok r
    → In r rs × IsFor v rs r
unfolding find_badge_for_version
badge-IsFor v rs r h = passes-IsFor v rs r (exact_version v rs) (without_version rs) refl refl h
