-- ===== src/Dns/Choice.antt =====
-- verify/dns_resolver.go: the choice of a badge record. Both methods begin with GetATIBadgeRecords, whose answer is
-- an argument.
use alibaba_ati_golang_sdk.Base.{
  Bool, true, false, List, [], ◌∷◌, Option, none, some, if◌then◌else◌, Result, ok, err,
}
use alibaba_ati_golang_sdk.Base.Int.{lt_int, pos}
use alibaba_ati_golang_sdk.Models.Version.{Version, equal, compare_version}
use alibaba_ati_golang_sdk.Failure.{Failure, record_not_found, dns_not_found}
use alibaba_ati_golang_sdk.Dns.{AtiBadgeRecord}

-- isNotFoundError; the errors that are not found are handed on as ErrRecordNotFound.
unfoldable pub is_not_found_error : Failure → Bool
is_not_found_error (dns_not_found text) = true
is_not_found_error _ = false

abbrev pub handed_on : Failure → Failure
handed_on e = if is_not_found_error e then record_not_found [] else e

abbrev pub has_version : Version → Option Version → Bool
has_version v none = false
has_version v (some w) = equal w v

-- The two passes.
unfoldable pub exact_version : Version → List AtiBadgeRecord → Option AtiBadgeRecord
exact_version v [] = none
exact_version v (r ∷ rs) =
    let rest = exact_version v rs in if has_version v r.version then some r else rest

abbrev pub versionless : Option Version → Bool
versionless none = true
versionless (some v) = false

unfoldable pub without_version : List AtiBadgeRecord → Option AtiBadgeRecord
without_version [] = none
without_version (r ∷ rs) =
    let rest = without_version rs in if versionless r.version then some r else rest

abbrev pub first_pass :
    Option AtiBadgeRecord → Option AtiBadgeRecord → Result Failure AtiBadgeRecord
first_pass (some r) second = ok r
first_pass none (some r) = ok r
first_pass none none = err (record_not_found [])

unfoldable pub find_badge_for_version :
    Version → Result Failure (List AtiBadgeRecord) → Result Failure AtiBadgeRecord
find_badge_for_version v (err e) = err (handed_on e)
find_badge_for_version v (ok rs) = first_pass (exact_version v rs) (without_version rs)

-- The function that sort.Slice is called with: newest first, records without a version last.
abbrev pub newer : Option Version → Option Version → Bool
newer none w = false
newer (some v) none = true
newer (some v) (some w) = lt_int (pos 0) (compare_version v w)

abbrev pub record_newer : AtiBadgeRecord → AtiBadgeRecord → Bool
record_newer r s = newer r.version s.version

abbrev pub first_record : List AtiBadgeRecord → Result Failure AtiBadgeRecord
first_record [] = err (record_not_found [])
first_record (r ∷ rs) = ok r

-- `sort less` is sort.Slice.
unfoldable pub find_preferred_badge :
    ((AtiBadgeRecord → AtiBadgeRecord → Bool) → List AtiBadgeRecord → List AtiBadgeRecord)
    → Result Failure (List AtiBadgeRecord)
    → Result Failure AtiBadgeRecord
find_preferred_badge sort (err e) = err (handed_on e)
find_preferred_badge sort (ok []) = err (record_not_found [])
find_preferred_badge sort (ok (r ∷ rs)) = first_record (sort record_newer (r ∷ rs))
