-- ===== src/BadgeCache/Cleanup.antt =====
-- What cleanupLocked leaves.
use alibaba_ati_golang_sdk.Base.{
  ℕ, zero, suc, ◌+◌, ◌-◌, ◌≤◌, ◌≡◌, refl, false, [], ◌∷◌, Option, none, some, Bytes, ltb,
  ltb_false→le, if◌then◌else◌, length, drop, length-drop, arith, Bool-cases, inl, inr, bytes_eq,
  bytes_eq_iff,
}
use alibaba_ati_golang_sdk.Base.Map.{
  Map, lookup, has_key, IsUnique, lookup-none_of_has_key, has_key_of_lookup,
}
use alibaba_ati_golang_sdk.BadgeCache.{
  CacheEntry, BadgeCache, MapOrder, drop_dead, is_dead, remove_some, cleanup_locked,
}

pub length-drop_dead : (now r : ℕ) (m : Map CacheEntry) → length (drop_dead now r m) ≤ length m
unfolding drop_dead
length-drop_dead now r [] = ground arith
length-drop_dead now r ((k, e) ∷ m) = ground (arith, length-drop_dead now r m)

has_key-drop_dead :
    (now r : ℕ) (k : Bytes) (m : Map CacheEntry)
    → has_key k m ≡ false
    → has_key k (drop_dead now r m) ≡ false
unfolding drop_dead has_key
has_key-drop_dead now r k [] h = refl
has_key-drop_dead now r k ((j, e) ∷ m) h = ground (arith, has_key-drop_dead now r k m)

pub drop_dead-IsUnique :
    (now r : ℕ) (m : Map CacheEntry) → IsUnique m → IsUnique (drop_dead now r m)
unfolding drop_dead
drop_dead-IsUnique now r [] u = tt
drop_dead-IsUnique now r ((j, e) ∷ m) u =
    ground (arith, has_key-drop_dead now r j m, drop_dead-IsUnique now r m)

abbrev pub keep_live : ℕ → ℕ → Option CacheEntry → Option CacheEntry
keep_live now r none = none
keep_live now r (some e) = if is_dead now r e then none else some e

pub lookup-drop_dead :
    (now r : ℕ) (k : Bytes) (m : Map CacheEntry)
    → IsUnique m
    → lookup k (drop_dead now r m) ≡ keep_live now r (lookup k m)
unfolding drop_dead lookup
lookup-drop_dead now r k [] u = refl
lookup-drop_dead now r k ((j, e) ∷ m) u = elim (Bool-cases (bytes_eq j k)) [
  | inl s ↦ ground (
    arith,
    bytes_eq_iff j k,
    lookup-drop_dead now r k m,
    lookup-none_of_has_key j m,
    lookup-none_of_has_key k m,
  )
  | inr s ↦ ground (arith, lookup-drop_dead now r k m)
]

pub lookup-drop :
    (n : ℕ) (k : Bytes) (m : Map CacheEntry) (e : CacheEntry)
    → IsUnique m
    → lookup k (drop n m) ≡ some e
    → lookup k m ≡ some e
unfolding lookup
lookup-drop zero k m e u h = h
lookup-drop (suc n) k [] e u h = ground arith
lookup-drop (suc n) k ((j, f) ∷ m) e u h =
    ground (arith, bytes_eq_iff j k, lookup-drop n k m e, has_key_of_lookup k m e)

pub length-cleanup :
    (o : MapOrder) (now : ℕ) (c : BadgeCache)
    → length (cleanup_locked o now c).by_fqdn + length (cleanup_locked o now c).by_fqdn_ver
      ≤ c.config.max_entries
unfolding cleanup_locked remove_some
length-cleanup o now c =
    let a = drop_dead now c.config.stale_retention c.by_fqdn in
    let b = drop_dead now c.config.stale_retention c.by_fqdn_ver in
    elim (Bool-cases (ltb c.config.max_entries (length a + length b))) [
      | inl e ↦
          let n = (length a + length b) - c.config.max_entries in
          rw e (
            omega (
              arith,
              length-drop n (o.visit a),
              length-drop (n - length a) (o.visit b),
              o.length-visit a,
              o.length-visit b,
            ))
      | inr e ↦ rw e (ltb_false→le c.config.max_entries (length a + length b) e)
    ]
