-- ===== src/Dns/Tests.antt =====
-- A badge record, and the choice among two versions.
use alibaba_ati_golang_sdk.Base.{
  ℕ, ◌≡◌, refl, true, false, [], ◌∷◌, List, none, some, Bytes, Option, ok, codes, bytes_eq, ensure,
  require, ltb, ◌==◌, Bool, length, arith,
}
use alibaba_ati_golang_sdk.Base.Map.{lookup, insert}
use alibaba_ati_golang_sdk.Base.Split.{cut, split, decimal}
use alibaba_ati_golang_sdk.Models.Version.{version_string}
use alibaba_ati_golang_sdk.Dns.{
  AtiRecord, AtiBadgeRecord, ParsedUrl, source_ati_badge, mode_direct, trim_left, trim_right,
  trim_space, fields_loop, parse_semicolon_fields, is_valid_format_version, check_badge_url,
  badge_of_fields, parse_ati_badge_record,
}
use alibaba_ati_golang_sdk.Dns.Claims.{IsBadge, parse-IsBadge}
use alibaba_ati_golang_sdk.Dns.Selection.{Semver, no_valid_records, best_loop, best_or}
use alibaba_ati_golang_sdk.Dns.Latest.{IsOrder, IsLatest, best-IsLatest}

abbrev parsed : Bytes → Option ParsedUrl
parsed s =
    some (record { scheme = codes "https"; host = codes "a.b"; has_user = false; fragment = [] })

abbrev badge : AtiBadgeRecord
badge = record {
  format_version = codes "ra-badge1";
  version = none;
  url = codes "https://a.b/x";
  source = source_ati_badge;
}

accepted : parse_ati_badge_record parsed (codes "v=ra-badge1; url=https://a.b/x") ≡ ok badge
unfolding parse_ati_badge_record badge_of_fields check_badge_url is_valid_format_version
    parse_semicolon_fields fields_loop trim_space trim_left trim_right split cut lookup insert
    bytes_eq ensure require
accepted = refl

parse-IsBadge_example : IsBadge parsed badge
parse-IsBadge_example = parse-IsBadge parsed (codes "v=ra-badge1; url=https://a.b/x") badge accepted

-- Versions are ordered by the length of their texts.
abbrev by_length : Semver ℕ
by_length = record {
  new_version = λ s. some (length s);
  equal = λ a b. a == b;
  greater_than = λ a b. ltb b a;
  new_constraint = λ s. none;
}

by_length-IsOrder : IsOrder by_length
by_length-IsOrder = record {
  irreflexive = λ v. ground arith;
  transitive = λ u v w h k. ground arith;
  congruent = λ u v w h k. ground arith;
}

abbrev version_of : ℕ → AtiRecord
version_of n = record {
  version = record { major = 1; minor = 0; patch = n };
  protocol = codes "a2a";
  url = codes "https://a.b/x";
  mode = mode_direct;
  id = codes "id";
  ra = [];
}

abbrev any_version : ℕ → Bool
any_version v = true

abbrev records : List AtiRecord
records = version_of 2 ∷ version_of 10 ∷ version_of 3 ∷ []

selected :
    best_or by_length no_valid_records (best_loop by_length any_version records none)
    ≡ ok (version_of 10)
unfolding best_loop version_string decimal
selected = refl

best-IsLatest_example : IsLatest by_length by_length-IsOrder any_version records (version_of 10)
best-IsLatest_example =
    best-IsLatest by_length by_length-IsOrder any_version records (version_of 10) no_valid_records
      selected
