-- ===== src/Models/Version.antt =====
-- models/version.go. A component is a uint32, kept as the number that it stands for.
pub mod Order
pub mod RoundTrip
mod Tests
use alibaba_ati_golang_sdk.Base.{
  ℕ, ◌<◌, ◌^◌, Bool, true, false, ◌&&◌, not, List, [], ◌∷◌, ◌++◌, Option, none, some, Bytes, ltb,
  ◌==◌, if◌then◌else◌, Result, ok, err, ◌>>=◌, codes, cut_prefix,
}
use alibaba_ati_golang_sdk.Base.Int.{ℤ, pos, negsuc, lt_int}
use alibaba_ati_golang_sdk.Base.Split.{split, parse_uint32, decimal}

pub record Version : Type 0 where
  pub major : ℕ
  pub minor : ℕ
  pub patch : ℕ

pub data VersionError : Type 0 where
  empty_version part_count invalid_major invalid_minor invalid_patch : VersionError

abbrev component : VersionError → Bytes → Result VersionError ℕ
component e s = elim (parse_uint32 s) [ none ↦ err e | some n ↦ ok n ]

-- strings.TrimPrefix(s, "v")
abbrev pub trim_v : Bytes → Bytes
trim_v s = elim (cut_prefix s (b'v' ∷ [])) [ none ↦ s | some r ↦ r ]

unfoldable pub parse_parts : List Bytes → Result VersionError Version
parse_parts (a ∷ b ∷ c ∷ []) = do
  major ← component invalid_major a
  minor ← component invalid_minor b
  patch ← component invalid_patch c
  ok (record { major = major; minor = minor; patch = patch })
parse_parts _ = err part_count

unfoldable pub parse_version : Bytes → Result VersionError Version
parse_version [] = err empty_version
parse_version (c ∷ cs) = parse_parts (split b'.' (trim_v (c ∷ cs)))

-- The method String.
unfoldable pub version_string : Version → Bytes
version_string v = b'v' ∷ (decimal v.major ++ b'.' ∷ (decimal v.minor ++ b'.' ∷ decimal v.patch))

unfoldable pub compare_version : Version → Version → ℤ
compare_version v other =
    if not (v.major == other.major)
    then if ltb v.major other.major then negsuc 0 else pos 1
    else if not (v.minor == other.minor)
    then if ltb v.minor other.minor then negsuc 0 else pos 1
    else if not (v.patch == other.patch)
    then if ltb v.patch other.patch then negsuc 0 else pos 1
    else pos 0

unfoldable pub is_zero : Version → Bool
is_zero v = v.major == 0 && v.minor == 0 && v.patch == 0

abbrev is_pos_zero : ℤ → Bool
is_pos_zero (pos n) = n == 0
is_pos_zero (negsuc n) = false

unfoldable pub equal : Version → Version → Bool
unfolding compare_version
equal v other = is_pos_zero (compare_version v other)

unfoldable pub less : Version → Version → Bool
unfolding compare_version
less v other = lt_int (compare_version v other) (pos 0)
