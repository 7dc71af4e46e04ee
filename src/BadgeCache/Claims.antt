-- ===== src/BadgeCache/Claims.antt =====
-- What the cache promises its users.
use alibaba_ati_golang_sdk.Base.{
  ℕ, suc, ◌+◌, ◌-◌, ◌≤◌, ◌≡◌, refl, ◌∙◌, sym, ap, true, false, Option, none, some, Bytes, ltb,
  le→ltb_false, if◌then◌else◌, length, arith, Bool-cases, Option-cases, inl, inr, bytes_eq, ◌⊎◌,
}
use alibaba_ati_golang_sdk.Base.Map.{
  lookup, insert, IsUnique, drop-IsUnique, insert-IsUnique, lookup-insert, length-insert,
}
use alibaba_ati_golang_sdk.Models.Fqdn.{Fqdn}
use alibaba_ati_golang_sdk.Models.Version.{Version}
use alibaba_ati_golang_sdk.Models.TlLog.{TlResponse}
use alibaba_ati_golang_sdk.BadgeCache.{
  CacheEntry, CachedBadge, BadgeCache, MapOrder, drop_dead, remove_some, cleanup_locked,
  fresh_badge, new_entry, insert_badge, insert_for_version, get_by_fqdn, get_stale_by_fqdn,
}
use alibaba_ati_golang_sdk.BadgeCache.Cleanup.{
  length-cleanup, length-drop_dead, drop_dead-IsUnique, lookup-drop_dead, keep_live, lookup-drop,
}

-- No key stands twice in either map.
pub record IsValid (c : BadgeCache) : Type 0 where
  pub unique : IsUnique c.by_fqdn
  pub unique_ver : IsUnique c.by_fqdn_ver

cleanup-IsValid :
    (o : MapOrder) (now : ℕ) (c : BadgeCache) → IsValid c → IsValid (cleanup_locked o now c)
unfolding cleanup_locked remove_some
cleanup-IsValid o now c v =
    let r = c.config.stale_retention in
    let a = drop_dead now r c.by_fqdn in
    let b = drop_dead now r c.by_fqdn_ver in
    let ua = drop_dead-IsUnique now r c.by_fqdn v.unique in
    let ub = drop_dead-IsUnique now r c.by_fqdn_ver v.unique_ver in
    elim (Bool-cases (ltb c.config.max_entries (length a + length b))) [
      | inl e ↦
          let n = (length a + length b) - c.config.max_entries in
          rw e (record {
            unique = drop-IsUnique n (o.visit a) (o.visit-IsUnique a ua);
            unique_ver = drop-IsUnique (n - length a) (o.visit b) (o.visit-IsUnique b ub);
          })
      | inr e ↦ rw e (record { unique = ua; unique_ver = ub })
    ]

-- Both insertions keep each key at most once, and leave no more entries in the two maps together than
-- MaxEntries, in whatever order the maps are visited.
pub insert-IsValid_bounded :
    (o : MapOrder) (now cleanup_at : ℕ) (f : Fqdn) (w : Version) (r : TlResponse) (c : BadgeCache)
    → IsValid c
    → (IsValid (insert_badge o now cleanup_at f r c)
        × IsValid (insert_for_version o now cleanup_at f w r c))
      × (length (insert_badge o now cleanup_at f r c).by_fqdn
            + length (insert_badge o now cleanup_at f r c).by_fqdn_ver
          ≤ c.config.max_entries)
      × (length (insert_for_version o now cleanup_at f w r c).by_fqdn
            + length (insert_for_version o now cleanup_at f w r c).by_fqdn_ver
          ≤ c.config.max_entries)
unfolding insert_badge insert_for_version
insert-IsValid_bounded o now cleanup_at f w r c v = (
  (
    cleanup-IsValid o cleanup_at _
        (record { unique = insert-IsUnique _ _ c.by_fqdn v.unique; unique_ver = v.unique_ver }),
    cleanup-IsValid o cleanup_at _
        (record { unique = v.unique; unique_ver = insert-IsUnique _ _ c.by_fqdn_ver v.unique_ver }),
  ),
  length-cleanup o cleanup_at _,
  length-cleanup o cleanup_at _,
)

-- A cleanup only takes entries away.
lookup-cleanup :
    (o : MapOrder) (now : ℕ) (k : Bytes) (c : BadgeCache) (e : CacheEntry)
    → IsValid c
    → lookup k (cleanup_locked o now c).by_fqdn ≡ some e
    → keep_live now c.config.stale_retention (lookup k c.by_fqdn) ≡ some e
unfolding cleanup_locked remove_some
lookup-cleanup o now k c e v h =
    let r = c.config.stale_retention in
    let a = drop_dead now r c.by_fqdn in
    let b = drop_dead now r c.by_fqdn_ver in
    let ua = drop_dead-IsUnique now r c.by_fqdn v.unique in
    let n = (length a + length b) - c.config.max_entries in
    sym (lookup-drop_dead now r k c.by_fqdn v.unique)
    ∙ elim (Bool-cases (ltb c.config.max_entries (length a + length b))) [
      | inl t ↦
          sym (o.lookup-visit k a)
          ∙ lookup-drop n k (o.visit a) e (o.visit-IsUnique a ua) (rw t at h)
      | inr t ↦ rw t at h
    ]

fresh-live :
    (now r t : ℕ) (x : Option CacheEntry)
    → now ≤ t
    → fresh_badge t (keep_live now r x) ≡ fresh_badge t x
fresh-live now r t none h = refl
fresh-live now r t (some e) h = ground arith

-- The maps hold room for one more entry.
abbrev pub HasRoom : BadgeCache → Type 0
HasRoom c = suc (length c.by_fqdn + length c.by_fqdn_ver) ≤ c.config.max_entries

cleanup_room :
    (o : MapOrder) (now : ℕ) (k : Bytes) (c : BadgeCache)
    → IsValid c
    → length c.by_fqdn + length c.by_fqdn_ver ≤ c.config.max_entries
    → lookup k (cleanup_locked o now c).by_fqdn
      ≡ keep_live now c.config.stale_retention (lookup k c.by_fqdn)
unfolding cleanup_locked
cleanup_room o now k c v h =
    let r = c.config.stale_retention in
    let a = drop_dead now r c.by_fqdn in
    let b = drop_dead now r c.by_fqdn_ver in
    let small : ltb c.config.max_entries (length a + length b) ≡ false =
      le→ltb_false c.config.max_entries (length a + length b)
        (omega (arith, length-drop_dead now r c.by_fqdn, length-drop_dead now r c.by_fqdn_ver)) in
    rw small (lookup-drop_dead now r k c.by_fqdn v.unique)

-- While there is room, a response that was inserted is what its name gives until its TTL is over, and
-- every other name gives what it gave before, at each time from the cleanup on.
pub get-insert_badge :
    (o : MapOrder) (now cleanup_at t : ℕ) (f g : Fqdn) (r : TlResponse) (c : BadgeCache)
    → IsValid c
    → HasRoom c
    → cleanup_at ≤ t
    → get_by_fqdn t g (insert_badge o now cleanup_at f r c) ≡ (
        if bytes_eq f.value g.value
        then fresh_badge t (some (new_entry now c.config r))
        else get_by_fqdn t g c)
unfolding get_by_fqdn insert_badge
get-insert_badge o now cleanup_at t f g r c v room h =
    let e = new_entry now c.config r in
    let d = record c { by_fqdn = insert f.value e c.by_fqdn } in
    let vd : IsValid d = record {
      unique = insert-IsUnique f.value e c.by_fqdn v.unique;
      unique_ver = v.unique_ver;
    } in
    let small : length (insert f.value e c.by_fqdn) + length c.by_fqdn_ver ≤ c.config.max_entries =
      ground (arith, length-insert f.value e c.by_fqdn) in
    ap (fresh_badge t) (cleanup_room o cleanup_at g.value d vd small)
    ∙ fresh-live cleanup_at c.config.stale_retention t (lookup g.value (insert f.value e c.by_fqdn))
        h
    ∙ ap (fresh_badge t) (lookup-insert f.value g.value e c.by_fqdn)
    ∙ ground arith

live_entry :
    (now r : ℕ) (x : Option CacheEntry) (e : CacheEntry) → keep_live now r x ≡ some e → x ≡ some e
live_entry now r none e h = ground arith
live_entry now r (some f) e h = ground arith

inserted_entry :
    (t : ℕ) (f g : Fqdn) (e : CacheEntry) (c : BadgeCache) (x : CacheEntry) (b : CachedBadge)
    → (if bytes_eq f.value g.value then some e else lookup g.value c.by_fqdn) ≡ some x
    → fresh_badge t (some x) ≡ some b
    → ((bytes_eq f.value g.value ≡ true) × (b.tl_response ≡ e.badge.tl_response))
      ⊎ (get_by_fqdn t g c ≡ some b)
unfolding get_by_fqdn
inserted_entry t f g e c x b h k = elim (Bool-cases (bytes_eq f.value g.value)) [
  | inl s ↦ let i : some e ≡ some x = rw s at h in inl (s, ground arith)
  | inr s ↦ let i : lookup g.value c.by_fqdn ≡ some x = rw s at h in inr (rw i k)
]

-- Whatever is evicted, a name that gives a response after an insertion is the one inserted, with the new
-- response, or gave that response before.
pub get-insert_source :
    (o : MapOrder) (now cleanup_at t : ℕ) (f g : Fqdn) (r : TlResponse) (c : BadgeCache)
    (b : CachedBadge)
    → IsValid c
    → get_by_fqdn t g (insert_badge o now cleanup_at f r c) ≡ some b
    → ((bytes_eq f.value g.value ≡ true) × (b.tl_response ≡ r)) ⊎ (get_by_fqdn t g c ≡ some b)
unfolding get_by_fqdn insert_badge
get-insert_source o now cleanup_at t f g r c b v h =
    let e = new_entry now c.config r in
    let d = record c { by_fqdn = insert f.value e c.by_fqdn } in
    let vd : IsValid d = record {
      unique = insert-IsUnique f.value e c.by_fqdn v.unique;
      unique_ver = v.unique_ver;
    } in
    elim (Option-cases (lookup g.value (cleanup_locked o cleanup_at d).by_fqdn)) [
      | inl n ↦ let k : none ≡ some b = rw n at h in ground arith
      | inr (x, n) ↦
          let k : fresh_badge t (some x) ≡ some b = rw n at h in
          let l =
            live_entry cleanup_at c.config.stale_retention _ x
              (lookup-cleanup o cleanup_at g.value d x vd n) in
          inserted_entry t f g e c x b (sym (lookup-insert f.value g.value e c.by_fqdn) ∙ l) k
    ]

-- What a name gives fresh it also gives as a stale response, whatever the bound on the staleness.
pub get-stale :
    (t max : ℕ) (f : Fqdn) (c : BadgeCache) (b : CachedBadge)
    → get_by_fqdn t f c ≡ some b
    → get_stale_by_fqdn t f max c ≡ some b
unfolding get_by_fqdn get_stale_by_fqdn
get-stale t max f c b h = elim (Option-cases (lookup f.value c.by_fqdn)) [
  | inl e ↦ let k : none ≡ some b = rw e at h in ground arith
  | inr (x, e) ↦ let k : fresh_badge t (some x) ≡ some b = rw e at h in rw e (ground arith)
]
