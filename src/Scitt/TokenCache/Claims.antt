-- ===== src/Scitt/TokenCache/Claims.antt =====
-- The invariant of `StatusTokenCache`, and what `Get` answers.
use alibaba_ati_golang_sdk.Base.{
  ℕ, ◌-◌, ◌≤◌, ◌<◌, ◌≡◌, ◌∙◌, sym, ap, [], none, some, Bytes, length, drop, arith, if◌then◌else◌,
  length-drop, bytes_eq,
}
use alibaba_ati_golang_sdk.Base.Int.{ℤ, lt_int}
use alibaba_ati_golang_sdk.Base.Map
use alibaba_ati_golang_sdk.Base.Map.{Map, lookup}
use alibaba_ati_golang_sdk.Fifo.Refine.{Refines, put-Refines, invalidate-Refines, empty-Refines}
use alibaba_ati_golang_sdk.Fifo.Eviction.{length-put, lookup-put_self}
use alibaba_ati_golang_sdk.Scitt.Types.{VerifiedStatusToken}
use alibaba_ati_golang_sdk.Scitt.TokenCache.{
  TokenEntry, StatusTokenCache, new_status_token_cache, answer, get, insert, invalidate, len,
}

-- The cache is a list of at most `max_entries` entries in insertion order, and an entry expires with
-- its token.
pub record IsValid (c : StatusTokenCache) : Type 0 where
  pub queue : Map TokenEntry
  pub refines : Refines c.fifo queue
  pub fits : length queue ≤ c.max_entries

pub new-IsValid : (max : ℕ) → IsValid (new_status_token_cache max)
unfolding new_status_token_cache
new-IsValid max = record { queue = []; refines = empty-Refines; fits = omega arith }

abbrev entry : VerifiedStatusToken → TokenEntry
entry token = record { token = token; expires_at = token.payload.exp }

pub insert-IsValid :
    (c : StatusTokenCache) (id : Bytes) (token : VerifiedStatusToken)
    → IsValid c
    → IsValid (insert id token c)
unfolding insert
insert-IsValid c id token v =
    let q = Map.insert id (entry token) v.queue in
    record {
      queue = drop (length q - c.max_entries) q;
      refines = put-Refines c.max_entries id (entry token) c.fifo v.queue v.refines;
      fits = omega (arith, length-drop (length q - c.max_entries) q);
    }

pub invalidate-IsValid : (c : StatusTokenCache) (id : Bytes) → IsValid c → IsValid (invalidate id c)
unfolding invalidate
invalidate-IsValid c id v = record {
  queue = Map.remove id v.queue;
  refines = invalidate-Refines id c.fifo v.queue v.refines;
  fits = ground (arith, Map.length-remove id v.queue, v.fits);
}

-- In a valid cache with room for an entry, a token that was inserted is answered at every time up to
-- and including its `exp` claim and at none after it; the cache stays valid and within its bound.
pub get-insert_token :
    (c : StatusTokenCache) (id : Bytes) (token : VerifiedStatusToken) (now : ℤ)
    → IsValid c
    → 0 < c.max_entries
    → (get now id (insert id token c) ≡ (if lt_int token.payload.exp now then none else some token))
      × IsValid (insert id token c)
      × (len (insert id token c) ≤ c.max_entries)
unfolding get insert len
get-insert_token c id token now v p = (
  ap (answer now)
      (lookup-put_self c.max_entries id (entry token) c.fifo v.queue v.refines v.fits p),
  insert-IsValid c id token v,
  length-put c.max_entries id (entry token) c.fifo v.queue v.refines,
)

-- After an invalidation the agent has no token, and every other agent has the token that it had.
pub get-invalidate_token :
    (c : StatusTokenCache) (id other : Bytes) (now : ℤ)
    → IsValid c
    → get now other (invalidate id c) ≡ (if bytes_eq id other then none else get now other c)
unfolding get invalidate
get-invalidate_token c id other now v =
    let r = invalidate-Refines id c.fifo v.queue v.refines in
    let e : lookup other (invalidate id c).fifo.entries
        ≡ (if bytes_eq id other then none else lookup other c.fifo.entries) =
      r.same other
      ∙ Map.lookup-remove id other v.queue v.refines.unique
      ∙ ap (λ x. if bytes_eq id other then none else x) (sym (v.refines.same other)) in
    ap (answer now) e ∙ ground arith
