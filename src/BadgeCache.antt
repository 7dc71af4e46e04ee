-- ===== src/BadgeCache.antt =====
-- verify/cache.go: the cache of responses of the transparency log. A time is a number of nanoseconds and the
-- durations of the configuration are not negative. Each operation is one critical section and takes the time
-- that it reads.
pub mod Cleanup
pub mod Claims
mod Tests
use alibaba_ati_golang_sdk.Base.{
  ℕ, ◌+◌, ◌-◌, ◌*◌, ◌≡◌, Bool, List, [], ◌∷◌, ◌++◌, Option, none, some, Bytes, ltb, if◌then◌else◌,
  Result, ok, err, length, drop,
}
use alibaba_ati_golang_sdk.Base.Map.{Map, lookup, insert, IsUnique}
use alibaba_ati_golang_sdk.Models.Version.{Version, version_string}
use alibaba_ati_golang_sdk.Models.Fqdn.{Fqdn, new_fqdn}
use alibaba_ati_golang_sdk.Models.TlLog.{TlResponse}

pub record CacheConfig : Type 0 where
  pub max_entries : ℕ
  pub default_ttl : ℕ
  pub refresh_threshold : ℕ
  pub stale_retention : ℕ

abbrev pub minute : ℕ
minute = 60000000000

abbrev pub default_cache_config : CacheConfig
default_cache_config = record {
  max_entries = 1000;
  default_ttl = 5 * minute;
  refresh_threshold = 1 * minute;
  stale_retention = 10 * minute;
}

pub record CachedBadge : Type 0 where
  pub tl_response : TlResponse
  pub fetched_at : ℕ
  pub expires_at : ℕ

unfoldable pub is_expired : ℕ → CachedBadge → Bool
is_expired now c = ltb c.expires_at now

unfoldable pub should_refresh : ℕ → ℕ → CachedBadge → Bool
should_refresh now threshold c = ltb c.expires_at (now + threshold)

pub record CacheEntry : Type 0 where
  pub badge : CachedBadge
  pub expires_at : ℕ

pub record BadgeCache : Type 0 where
  pub config : CacheConfig
  pub by_fqdn : Map CacheEntry
  pub by_fqdn_ver : Map CacheEntry

-- The order in which `range` visits a map, which Go does not fix: the same entries in some order.
pub record MapOrder : Type 1 where
  pub visit : Map CacheEntry → Map CacheEntry
  pub length-visit : (m : Map CacheEntry) → length (visit m) ≡ length m
  pub lookup-visit : (k : Bytes) (m : Map CacheEntry) → lookup k (visit m) ≡ lookup k m
  pub visit-IsUnique : (m : Map CacheEntry) → IsUnique m → IsUnique (visit m)

unfoldable pub new_badge_cache : CacheConfig → BadgeCache
new_badge_cache config = record { config = config; by_fqdn = []; by_fqdn_ver = [] }

abbrev pub fqdn_key : Fqdn → Bytes
fqdn_key f = f.value

unfoldable pub fqdn_version_key : Fqdn → Version → Bytes
fqdn_version_key f v = f.value ++ b':' ∷ version_string v

abbrev pub fresh_badge : ℕ → Option CacheEntry → Option CachedBadge
fresh_badge now none = none
fresh_badge now (some entry) = if ltb entry.expires_at now then none else some entry.badge

unfoldable pub get_by_fqdn : ℕ → Fqdn → BadgeCache → Option CachedBadge
get_by_fqdn now fqdn c = fresh_badge now (lookup (fqdn_key fqdn) c.by_fqdn)

unfoldable pub get_by_fqdn_version : ℕ → Fqdn → Version → BadgeCache → Option CachedBadge
get_by_fqdn_version now fqdn version c =
    fresh_badge now (lookup (fqdn_version_key fqdn version) c.by_fqdn_ver)

-- time.Since(entry.expiresAt) > maxStaleness
abbrev pub stale_badge : ℕ → ℕ → Option CacheEntry → Option CachedBadge
stale_badge now max none = none
stale_badge now max (some entry) =
    if ltb (entry.expires_at + max) now then none else some entry.badge

unfoldable pub get_stale_by_fqdn : ℕ → Fqdn → ℕ → BadgeCache → Option CachedBadge
get_stale_by_fqdn now fqdn max c = stale_badge now max (lookup (fqdn_key fqdn) c.by_fqdn)

unfoldable pub get_stale_by_fqdn_version : ℕ → Fqdn → Version → ℕ → BadgeCache → Option CachedBadge
get_stale_by_fqdn_version now fqdn version max c =
    stale_badge now max (lookup (fqdn_version_key fqdn version) c.by_fqdn_ver)

-- staleDeadline.After(entry.expiresAt), where `retention` was taken from `now`
abbrev pub is_dead : ℕ → ℕ → CacheEntry → Bool
is_dead now retention entry = ltb (entry.expires_at + retention) now

-- One of the first two loops of cleanupLocked.
unfoldable pub drop_dead : ℕ → ℕ → Map CacheEntry → Map CacheEntry
drop_dead now retention [] = []
drop_dead now retention ((k, entry) ∷ m) =
    let rest = drop_dead now retention m in
    if is_dead now retention entry then rest else (k, entry) ∷ rest

-- The last two loops delete the entries that they visit first, until `n` are removed.
unfoldable pub remove_some : MapOrder → ℕ → BadgeCache → BadgeCache
remove_some o n c = record c {
  by_fqdn = drop n (o.visit c.by_fqdn);
  by_fqdn_ver = drop (n - length c.by_fqdn) (o.visit c.by_fqdn_ver);
}

unfoldable pub cleanup_locked : MapOrder → ℕ → BadgeCache → BadgeCache
unfolding remove_some
cleanup_locked o now c =
    let kept = record c {
      by_fqdn = drop_dead now c.config.stale_retention c.by_fqdn;
      by_fqdn_ver = drop_dead now c.config.stale_retention c.by_fqdn_ver;
    } in
    let total = length kept.by_fqdn + length kept.by_fqdn_ver in
    if ltb c.config.max_entries total
    then remove_some o (total - c.config.max_entries) kept
    else kept

abbrev pub new_entry : ℕ → CacheConfig → TlResponse → CacheEntry
new_entry now config r = record {
  badge = record { tl_response = r; fetched_at = now; expires_at = now + config.default_ttl };
  expires_at = now + config.default_ttl;
}

-- The method Insert; `cleanup_at` is the time that cleanupLocked reads.
unfoldable pub insert_badge : MapOrder → ℕ → ℕ → Fqdn → TlResponse → BadgeCache → BadgeCache
insert_badge o now cleanup_at fqdn r c =
    cleanup_locked o cleanup_at
      (record c { by_fqdn = insert (fqdn_key fqdn) (new_entry now c.config r) c.by_fqdn })

unfoldable pub insert_for_version :
    MapOrder → ℕ → ℕ → Fqdn → Version → TlResponse → BadgeCache → BadgeCache
insert_for_version o now cleanup_at fqdn version r c = cleanup_locked o cleanup_at (record c {
  by_fqdn_ver = insert (fqdn_version_key fqdn version) (new_entry now c.config r) c.by_fqdn_ver;
})

unfoldable pub clear : BadgeCache → BadgeCache
clear c = record c { by_fqdn = []; by_fqdn_ver = [] }

-- The first loop of refreshExpiring.
unfoldable pub keys_to_refresh : ℕ → ℕ → Map CacheEntry → List Bytes
keys_to_refresh now threshold [] = []
keys_to_refresh now threshold ((k, entry) ∷ m) =
    let rest = keys_to_refresh now threshold m in
    if should_refresh now threshold entry.badge then k ∷ rest else rest

-- The body of its second loop.
unfoldable pub refresh_one :
    {E : Type 0} → MapOrder → ℕ → ℕ → Bytes → Result E TlResponse → BadgeCache → BadgeCache
refresh_one o now cleanup_at key (err e) c = c
refresh_one o now cleanup_at key (ok r) c = elim (new_fqdn key) [
  | err e ↦ c
  | ok fqdn ↦ insert_badge o now cleanup_at fqdn r c
]
