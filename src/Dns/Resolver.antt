-- ===== src/Dns/Resolver.antt =====
-- verify/dns_resolver.go and verify/dns.go: the lookups of StandardDNSResolver. LookupTXT of package net, url.Parse and
-- sort.Slice are parameters; times and durations are not negative.
use alibaba_ati_golang_sdk.Base.{
  ℕ, ◌+◌, Bool, true, false, not, List, [], ◌∷◌, ◌++◌, Option, none, some, Bytes, ltb,
  if◌then◌else◌, Result, ok, err, codes,
}
use alibaba_ati_golang_sdk.Base.Map.{Map, lookup, insert, remove}
use alibaba_ati_golang_sdk.Models.Fqdn.{Fqdn, ati_badge_name, ra_badge_name, ati_discovery_name}
use alibaba_ati_golang_sdk.Failure.{Failure, dns_not_found, other}
use alibaba_ati_golang_sdk.Dns.{
  AtiRecord, AtiBadgeRecord, BadgeRecordSource, source_ati_badge, source_ra_badge, RecordError,
  ParsedUrl, parse_ati_record, parse_ati_badge_record,
}

-- What LookupTXT answers.
pub data TxtAnswer : Type 0 where
  texts : List Bytes → TxtAnswer
  not_found timed_out : TxtAnswer
  lookup_failed : Bytes → TxtAnswer

pub record DnsLookupResult : Type 0 where
  pub found : Bool
  pub records : List AtiBadgeRecord

pub record AtiDiscoveryResult : Type 0 where
  pub found : Bool
  pub records : List AtiRecord

-- The cache: its keys start with "badge:" or with "discovery:", which tell the two kinds of results apart.
pub record Cached (R : Type 0) : Type 0 where
  pub result : R
  pub created_at : ℕ

pub record DnsCache : Type 0 where
  pub cache_ttl : ℕ
  pub badges : Map (Cached DnsLookupResult)
  pub discoveries : Map (Cached AtiDiscoveryResult)

abbrev fresh :
    {R : Type 0} → ℕ → ℕ → Bytes → Map (Cached R) → Option (Cached R) → Option R × Map (Cached R)
fresh now ttl key m none = (none, m)
fresh now ttl key m (some e) =
    if ltb (e.created_at + ttl) now then (none, remove key m) else (some e.result, m)

-- getCached, on the part of the cache with the results of one kind.
unfoldable pub get_cached :
    {R : Type 0} → ℕ → ℕ → Bytes → Map (Cached R) → Option R × Map (Cached R)
get_cached now ttl key m = fresh now ttl key m (lookup key m)

unfoldable pub set_cache : {R : Type 0} → ℕ → Bytes → R → Map (Cached R) → Map (Cached R)
set_cache now key r m = insert key (record { result = r; created_at = now }) m

abbrev no_records : DnsLookupResult
no_records = record { found = false; records = [] }

abbrev with_source :
    BadgeRecordSource
    → Result RecordError AtiBadgeRecord
    → List AtiBadgeRecord
    → List AtiBadgeRecord
with_source source (err e) rest = rest
with_source source (ok r) rest = record r { source = source } ∷ rest

abbrev with_record : Result RecordError AtiRecord → List AtiRecord → List AtiRecord
with_record (err e) rest = rest
with_record (ok r) rest = r ∷ rest

unfoldable pub discovery_records : List Bytes → List AtiRecord
discovery_records [] = []
discovery_records (txt ∷ txts) = with_record (parse_ati_record txt) (discovery_records txts)

abbrev is_nil {ℓ} : {A : Type ℓ} → List A → Bool
is_nil [] = true
is_nil (x ∷ xs) = false

module _ (parse_url : Bytes → Option ParsedUrl) where
  unfoldable pub badge_records : BadgeRecordSource → List Bytes → List AtiBadgeRecord
  badge_records source [] = []
  badge_records source (txt ∷ txts) =
      with_source source (parse_ati_badge_record parse_url txt) (badge_records source txts)

  abbrev found_records : List AtiBadgeRecord → DnsLookupResult
  found_records [] = no_records
  found_records (r ∷ rs) = record { found = true; records = r ∷ rs }

  -- lookupBadgeRecords with handleLookupError.
  unfoldable pub lookup_badge_records :
      BadgeRecordSource → Bytes → TxtAnswer → Result Failure DnsLookupResult
  lookup_badge_records source name (texts txts) = ok (found_records (badge_records source txts))
  lookup_badge_records source name not_found = ok no_records
  lookup_badge_records source name timed_out = err (other name)
  lookup_badge_records source name (lookup_failed reason) = err (other reason)

  -- The answers to the two queries; the second is made only if the first has no records.
  abbrev fall_back :
      Fqdn → TxtAnswer → Result Failure DnsLookupResult → Result Failure DnsLookupResult
  fall_back fqdn ra (err e) = err e
  fall_back fqdn ra (ok r) =
      if r.found then ok r else lookup_badge_records source_ra_badge (ra_badge_name fqdn) ra

  unfoldable pub query_ati_badge : (Bytes → TxtAnswer) → Fqdn → Result Failure DnsLookupResult
  query_ati_badge lookup_txt fqdn = fall_back fqdn (lookup_txt (ra_badge_name fqdn)) (
      lookup_badge_records source_ati_badge (ati_badge_name fqdn)
        (lookup_txt (ati_badge_name fqdn)))

  abbrev store_badge :
      ℕ
      → Bytes
      → DnsCache
      → Result Failure DnsLookupResult
      → Result Failure DnsLookupResult × DnsCache
  store_badge now key c (err e) = (err e, c)
  store_badge now key c (ok r) = (ok r, record c { badges = set_cache now key r c.badges })

  abbrev cached_badge :
      (Bytes → TxtAnswer)
      → ℕ
      → Fqdn
      → Bytes
      → DnsCache
      → Option DnsLookupResult
      → Result Failure DnsLookupResult × DnsCache
  cached_badge lookup_txt now fqdn key c (some r) = (ok r, c)
  cached_badge lookup_txt now fqdn key c none =
      store_badge now key c (query_ati_badge lookup_txt fqdn)

  -- The method LookupATIBadge, at the time of the test and of the storing.
  unfoldable pub lookup_ati_badge :
      (Bytes → TxtAnswer) → ℕ → ℕ → Fqdn → DnsCache → Result Failure DnsLookupResult × DnsCache
  lookup_ati_badge lookup_txt now later fqdn c =
      let key = codes "badge:" ++ fqdn.value in
      let (hit, m) = get_cached now c.cache_ttl key c.badges in
      cached_badge lookup_txt later fqdn key (record c { badges = m }) hit

abbrev store_discovery :
    ℕ → Bytes → DnsCache → AtiDiscoveryResult → Result Failure AtiDiscoveryResult × DnsCache
store_discovery now key c r = (ok r, record c { discoveries = set_cache now key r c.discoveries })

abbrev discovered : ℕ → Bytes → DnsCache → TxtAnswer → Result Failure AtiDiscoveryResult × DnsCache
discovered now key c (texts txts) =
    let records = discovery_records txts in
    store_discovery now key c (record { found = not (is_nil records); records = records })
discovered now key c not_found = store_discovery now key c (record { found = false; records = [] })
discovered now key c timed_out = (err (other key), c)
discovered now key c (lookup_failed reason) = (err (other reason), c)

abbrev cached_discovery :
    ℕ
    → Bytes
    → DnsCache
    → TxtAnswer
    → Option AtiDiscoveryResult
    → Result Failure AtiDiscoveryResult × DnsCache
cached_discovery now key c answer (some r) = (ok r, c)
cached_discovery now key c answer none = discovered now key c answer

unfoldable pub lookup_ati_discovery :
    (Bytes → TxtAnswer) → ℕ → ℕ → Fqdn → DnsCache → Result Failure AtiDiscoveryResult × DnsCache
lookup_ati_discovery lookup_txt now later fqdn c =
    let key = codes "discovery:" ++ fqdn.value in
    let (hit, m) = get_cached now c.cache_ttl key c.discoveries in
    cached_discovery later key (record c { discoveries = m }) (lookup_txt (ati_discovery_name fqdn))
      hit

-- GetATIBadgeRecords, on what the resolver returned.
unfoldable pub get_ati_badge_records :
    Fqdn → Result Failure DnsLookupResult → Result Failure (List AtiBadgeRecord)
get_ati_badge_records fqdn (err e) = err e
get_ati_badge_records fqdn (ok r) =
    if not r.found then err (dns_not_found fqdn.value) else ok r.records
