-- ===== src/Dns.antt =====
-- verify/ati_record.go and verify/badge_record.go: the TXT records of agents. url.Parse is a parameter.
pub mod Resolver
pub mod Choice
pub mod Selection
pub mod Claims
pub mod Latest
mod Tests
use alibaba_ati_golang_sdk.Base.{
  ℕ, Bool, true, false, not, ◌&&◌, ◌||◌, List, [], ◌∷◌, Option, none, some, Bytes, if◌then◌else◌,
  Result, ok, err, ◌>>=◌, ensure, require, map_err, is_empty, bytes_eq, codes, to_lower, equal_fold,
  cut_prefix, is_space,
}
use alibaba_ati_golang_sdk.Base.Map.{Map, lookup, insert, is_some}
use alibaba_ati_golang_sdk.Base.Split.{split, cut}
use alibaba_ati_golang_sdk.Models.Version.{Version, VersionError, parse_version}

-- strings.TrimSpace, in ASCII.
unfoldable pub trim_left : Bytes → Bytes
trim_left [] = []
trim_left (c ∷ s) = let rest = trim_left s in if is_space c then rest else c ∷ s

unfoldable pub trim_right : Bytes → Bytes
trim_right [] = []
trim_right (c ∷ s) = let rest = trim_right s in if is_space c && is_empty rest then [] else c ∷ rest

unfoldable pub trim_space : Bytes → Bytes
trim_space s = trim_right (trim_left s)

abbrev pub add_field : Option (Bytes × Bytes) → Map Bytes → Map Bytes
add_field none m = m
add_field (some (k, v)) m = insert (trim_space k) (trim_space v) m

-- The loop; a part without "=" is left out, and so is an empty one.
unfoldable pub fields_loop : List Bytes → Map Bytes → Map Bytes
fields_loop [] m = m
fields_loop (p ∷ ps) m = fields_loop ps (add_field (cut b'=' (trim_space p)) m)

unfoldable pub parse_semicolon_fields : Bytes → Map Bytes
parse_semicolon_fields txt = fields_loop (split b';' txt) []

abbrev pub value_of : Option Bytes → Bytes
value_of none = []
value_of (some v) = v

-- fields[k], and the first of two that is not "".
abbrev pub field : Map Bytes → Bytes → Bytes
field m k = value_of (lookup k m)

abbrev pub or_text : Bytes → Bytes → Bytes
or_text a b = if is_empty a then b else a

pub data RecordMode : Type 0 where
  mode_card mode_direct : RecordMode

pub record AtiRecord : Type 0 where
  pub id : Bytes
  pub ra : Bytes
  pub version : Version
  pub mode : RecordMode
  pub protocol : Bytes
  pub url : Bytes

pub data RecordError : Type 0 where
  empty_record no_format unknown_format no_version no_url invalid_url not_https : RecordError
  no_host userinfo fragment bad_mode : RecordError
  bad_version : VersionError → RecordError

-- What follows the first "/agents/", up to the next slash unless that is first.
abbrev first_segment : Bytes → Option (Bytes × Bytes) → Bytes
first_segment rest none = rest
first_segment rest (some ([], after)) = rest
first_segment rest (some (c ∷ segment, after)) = c ∷ segment

abbrev segment_of : Option Bytes → Bytes → Bytes
segment_of (some rest) later = first_segment rest (cut b'/' rest)
segment_of none later = later

unfoldable pub extract_agent_id_from_url : Bytes → Bytes
extract_agent_id_from_url [] = []
extract_agent_id_from_url (c ∷ s) =
    segment_of (cut_prefix (c ∷ s) (codes "/agents/")) (extract_agent_id_from_url s)

abbrev mode_of : Bytes → Result RecordError RecordMode
mode_of s =
    if is_empty s
    then ok mode_direct
    else if bytes_eq s (codes "card")
    then ok mode_card
    else if bytes_eq s (codes "direct")
    then ok mode_direct
    else err bad_mode

abbrev url_of : Map Bytes → Bytes
url_of m = or_text (field m (codes "u")) (field m (codes "url"))

unfoldable pub ati_record_of_fields : Map Bytes → Result RecordError AtiRecord
ati_record_of_fields m = do
  _ ← ensure no_format (bytes_eq (field m (codes "v")) (codes "ati1"))
  let text =
      or_text (field m (codes "av")) (or_text (field m (codes "version")) (field m (codes "ver")))
  _ ← ensure no_version (not (is_empty text))
  version ← map_err bad_version (parse_version text)
  mode ← mode_of (or_text (field m (codes "mode")) (field m (codes "m")))
  ok (record {
    id =
        if is_empty (field m (codes "id")) && not (is_empty (url_of m))
        then extract_agent_id_from_url (url_of m)
        else field m (codes "id");
    ra = field m (codes "ra");
    version = version;
    mode = mode;
    protocol = or_text (field m (codes "p")) (field m (codes "proto"));
    url = url_of m;
  })

unfoldable pub parse_ati_record : Bytes → Result RecordError AtiRecord
parse_ati_record txt = ati_record_of_fields (parse_semicolon_fields txt)

abbrev pub serves : Bytes → AtiRecord → Bool
serves want r = is_empty r.protocol || equal_fold r.protocol want

-- The records are not nil.
unfoldable pub filter_serving : Bytes → List AtiRecord → List AtiRecord
filter_serving want [] = []
filter_serving want (r ∷ rs) =
    let rest = filter_serving want rs in if serves want r then r ∷ rest else rest

unfoldable pub filter_ati_records_by_protocol : List AtiRecord → Bytes → List AtiRecord
filter_ati_records_by_protocol records protocol =
    if is_empty protocol then records else filter_serving (to_lower protocol) records

pub data BadgeRecordSource : Type 0 where
  source_ati_badge source_ra_badge : BadgeRecordSource

pub record AtiBadgeRecord : Type 0 where
  pub format_version : Bytes
  pub version : Option Version
  pub url : Bytes
  pub source : BadgeRecordSource

-- What is read of a url.URL.
pub record ParsedUrl : Type 0 where
  pub scheme : Bytes
  pub host : Bytes
  pub has_user : Bool
  pub fragment : Bytes

unfoldable pub is_valid_format_version : Bytes → Bool
is_valid_format_version v = bytes_eq v (codes "ati-badge1") || bytes_eq v (codes "ra-badge1")

abbrev ok_version : Result VersionError Version → Option Version
ok_version (ok v) = some v
ok_version (err e) = none

-- A version that does not parse counts as none.
abbrev pub version_of : Map Bytes → Option Version
version_of m =
    let text = or_text (field m (codes "av")) (field m (codes "version")) in
    if is_empty text then none else ok_version (parse_version text)

module _ (parse_url : Bytes → Option ParsedUrl) where
  unfoldable pub check_badge_url : Bytes → Result RecordError (Unit {0})
  check_badge_url text = do
    url ← require invalid_url (parse_url text)
    _ ← ensure not_https (bytes_eq url.scheme (codes "https"))
    _ ← ensure no_host (not (is_empty url.host))
    _ ← ensure userinfo (not url.has_user)
    ensure fragment (is_empty url.fragment)

  unfoldable pub badge_of_fields : Map Bytes → Result RecordError AtiBadgeRecord
  badge_of_fields m = do
    let format = field m (codes "v")
    _ ← ensure no_format (not (is_empty format))
    _ ← ensure unknown_format (is_valid_format_version format)
    _ ← ensure no_version (not (bytes_eq format (codes "ati-badge1")) || is_some (version_of m))
    _ ← ensure no_url (not (is_empty (url_of m)))
    _ ← check_badge_url (url_of m)
    ok (record {
      format_version = format;
      version = version_of m;
      url = url_of m;
      source = source_ati_badge;
    })

  unfoldable pub parse_ati_badge_record : Bytes → Result RecordError AtiBadgeRecord
  parse_ati_badge_record txt =
      if is_empty txt then err empty_record else badge_of_fields (parse_semicolon_fields txt)
