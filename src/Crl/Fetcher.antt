-- ===== src/Crl/Fetcher.antt =====
-- verify/crl/fetcher.go: the download of a revocation list through the cache of the fetcher. What the guard against
-- private networks lets through is part of the answers of the HTTP client. One call of Fetch is one step; times
-- are in nanoseconds, and durations are not negative.
pub mod Fresh
mod Tests
use alibaba_ati_golang_sdk.Base.{
  ℕ, ◌+◌, ◌-◌, Bool, not, List, [], ◌∷◌, Option, none, some, Bytes, ltb, leb, if◌then◌else◌, Result,
  ok, err, ◌>>=◌, ensure, length,
}
use alibaba_ati_golang_sdk.Base.Map.{Map, lookup, insert}

pub data FetchError : Type 0 where
  invalid_uri request_failed bad_status read_failed too_large : FetchError

pub record CachedEntry : Type 0 where
  pub contents : Bytes
  pub fetched_at : ℕ
  pub ttl : ℕ

unfoldable pub is_expired : ℕ → CachedEntry → Bool
is_expired now e = ltb e.ttl (now - e.fetched_at)

pub record Fetcher : Type 0 where
  pub cache : Map CachedEntry
  pub max_age : ℕ

unfoldable pub new_fetcher : ℕ → Fetcher
new_fetcher max_age = record { cache = []; max_age = max_age }

abbrev pub max_crl_body_size : ℕ
max_crl_body_size = 10485760

-- What is answered to one call, at its times: the request with the test of the status and the reading of at most
-- max_crl_body_size + 1 bytes, and NextUpdate of a list that Parse reads, if it has one.
pub record Call : Type 0 where
  pub uri : Bytes
  pub respond : Bytes → Result FetchError Bytes
  pub next_update : Bytes → Option ℕ
  pub lookup_at : ℕ
  pub parse_at : ℕ
  pub store_at : ℕ

unfoldable pub download : Call → Result FetchError Bytes
download c = do
  contents ← c.respond c.uri
  _ ← ensure too_large (not (ltb max_crl_body_size (length contents)))
  ok contents

-- The time to live of a list, from its NextUpdate and the time.
unfoldable pub ttl_of : ℕ → ℕ → Option ℕ → ℕ
ttl_of max_age now none = max_age
ttl_of max_age now (some next) =
    if leb next now then 0 else if ltb (next - now) max_age then next - now else max_age

abbrev pub entry_of : Call → ℕ → Bytes → CachedEntry
entry_of c max_age contents = record {
  contents = contents;
  fetched_at = c.store_at;
  ttl = ttl_of max_age c.parse_at (c.next_update contents);
}

abbrev pub store : Call → Fetcher → Result FetchError Bytes → Result FetchError Bytes × Fetcher
store c f (err e) = (err e, f)
store c f (ok contents) =
    (ok contents, record f { cache = insert c.uri (entry_of c f.max_age contents) f.cache })

abbrev pub fetch_cached : Call → Fetcher → Option CachedEntry → Result FetchError Bytes × Fetcher
fetch_cached c f none = store c f (download c)
fetch_cached c f (some e) =
    if is_expired c.lookup_at e then store c f (download c) else (ok e.contents, f)

-- The method Fetch.
unfoldable pub fetch : Call → Fetcher → Result FetchError Bytes × Fetcher
fetch c f = fetch_cached c f (lookup c.uri f.cache)

-- A new fetcher after some calls, the last first.
unfoldable pub run : ℕ → List Call → Fetcher
run max_age [] = new_fetcher max_age
run max_age (c ∷ cs) = (fetch c (run max_age cs)).1
