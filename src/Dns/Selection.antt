-- ===== src/Dns/Selection.antt =====
-- ati/version_policy.go: the choice of a record of an agent. The versions and constraints of semver are parameters.
use alibaba_ati_golang_sdk.Base.{
  Bool, true, false, not, ◌&&◌, ◌||◌, List, [], ◌∷◌, Option, none, some, Bytes, ltb, ◌==◌,
  if◌then◌else◌, Result, ok, err, ◌>>=◌, ensure, require, is_empty, bytes_eq,
}
use alibaba_ati_golang_sdk.Models.Version.{version_string}
use alibaba_ati_golang_sdk.Dns.{AtiRecord, filter_ati_records_by_protocol}

-- semver.NewVersion, Equal, GreaterThan, NewConstraint and Check.
pub record Semver (V : Type 0) : Type 0 where
  pub new_version : Bytes → Option V
  pub equal : V → V → Bool
  pub greater_than : V → V → Bool
  pub new_constraint : Bytes → Option (V → Bool)

-- A policy that is none of the constants is taken for LATEST.
pub data VersionPolicy : Type 0 where
  policy_exact policy_latest policy_latest_compatible policy_unknown : VersionPolicy

pub data SelectionError : Type 0 where
  no_records no_protocol version_required invalid_requested exact_not_found no_valid_records :
      SelectionError
  none_satisfies invalid_expression : SelectionError

-- The order of Go strings.
unfoldable pub bytes_lt : Bytes → Bytes → Bool
bytes_lt [] [] = false
bytes_lt [] (y ∷ ys) = true
bytes_lt (x ∷ xs) [] = false
bytes_lt (x ∷ xs) (y ∷ ys) = let rest = bytes_lt xs ys in if x == y then rest else ltb x y

unfoldable pub prefer_record : AtiRecord → Option AtiRecord → Bool
prefer_record candidate none = true
prefer_record candidate (some current) =
    if not (bytes_eq candidate.protocol current.protocol)
    then bytes_lt candidate.protocol current.protocol
    else bytes_lt candidate.url current.url

module _ {V : Type 0} (x : Semver V) where
  -- The record that is kept, with its version.
  abbrev pub Best : Type 0
  Best = Option (AtiRecord × V)

  abbrev pub better : AtiRecord → V → Best → Bool
  better r v none = true
  better r v (some (b, w)) = x.greater_than v w || (x.equal v w && prefer_record r (some b))

  -- The body of the loops, for a test on versions.
  abbrev pub keep_best : (V → Bool) → AtiRecord → Option V → Best → Best
  keep_best test r none best = best
  keep_best test r (some v) best = if test v && better r v best then some (r, v) else best

  unfoldable pub best_loop : (V → Bool) → List AtiRecord → Best → Best
  best_loop test [] best = best
  best_loop test (r ∷ rs) best =
      best_loop test rs (keep_best test r (x.new_version (version_string r.version)) best)

  abbrev pub best_or : SelectionError → Best → Result SelectionError AtiRecord
  best_or e none = err e
  best_or e (some (r, v)) = ok r

  unfoldable pub resolve_latest : List AtiRecord → Result SelectionError AtiRecord
  resolve_latest rs = best_or no_valid_records (best_loop (λ v. true) rs none)

  abbrev is_version : V → Option V → Bool
  is_version v none = false
  is_version v (some w) = x.equal w v

  unfoldable pub first_equal : V → List AtiRecord → Result SelectionError AtiRecord
  first_equal v [] = err exact_not_found
  first_equal v (r ∷ rs) =
      let rest = first_equal v rs in
      if is_version v (x.new_version (version_string r.version)) then ok r else rest

  unfoldable pub resolve_exact : List AtiRecord → Bytes → Result SelectionError AtiRecord
  resolve_exact rs requested = do
    _ ← ensure version_required (not (is_empty requested))
    v ← require invalid_requested (x.new_version requested)
    first_equal v rs

  unfoldable pub find_exact : List AtiRecord → Bytes → Result SelectionError AtiRecord
  find_exact rs requested = do
    v ← require invalid_expression (x.new_version requested)
    first_equal v rs

  abbrev pub compatible :
      List AtiRecord → Bytes → Option (V → Bool) → Result SelectionError AtiRecord
  compatible rs requested none = find_exact rs requested
  compatible rs requested (some test) = best_or none_satisfies (best_loop test rs none)

  unfoldable pub resolve_latest_compatible :
      List AtiRecord → Bytes → Result SelectionError AtiRecord
  resolve_latest_compatible rs requested =
      if is_empty requested
      then resolve_latest rs
      else compatible rs requested (x.new_constraint requested)

  abbrev pub by_policy : VersionPolicy → List AtiRecord → Bytes → Result SelectionError AtiRecord
  by_policy policy_exact rs requested = resolve_exact rs requested
  by_policy policy_latest rs requested = resolve_latest rs
  by_policy policy_latest_compatible rs requested = resolve_latest_compatible rs requested
  by_policy policy_unknown rs requested = resolve_latest rs

  abbrev nonempty : SelectionError → List AtiRecord → Result SelectionError (List AtiRecord)
  nonempty e [] = err e
  nonempty e (r ∷ rs) = ok (r ∷ rs)

  unfoldable pub resolve_version_for_protocol :
      List AtiRecord → VersionPolicy → Bytes → Bytes → Result SelectionError AtiRecord
  resolve_version_for_protocol records policy requested protocol = do
    rs ← nonempty no_records records
    served ← nonempty no_protocol (filter_ati_records_by_protocol rs protocol)
    by_policy policy served requested

  unfoldable pub resolve_version :
      List AtiRecord → VersionPolicy → Bytes → Result SelectionError AtiRecord
  resolve_version records policy requested =
      resolve_version_for_protocol records policy requested []
