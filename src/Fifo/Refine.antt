-- ===== src/Fifo/Refine.antt =====
-- The cache refines a list of entries in the order of their insertion.
use alibaba_ati_golang_sdk.Base.{
  ℕ, zero, suc, ◌-◌, ◌≤◌, ◌≡◌, refl, ◌∙◌, sym, ap, false, List, [], ◌∷◌, none, some, Bytes,
  bytes_eq, bytes_eq_iff, length, leb, if◌then◌else◌, drop, arith, Bool-cases, inl, inr, leb→le,
}
use alibaba_ati_golang_sdk.Base.Map.{
  Map, lookup, insert, remove, has_key, IsUnique, keys, has_key-eq-is_some, lookup-insert,
  lookup-remove, lookup-none_of_has_key, insert-IsUnique, remove-IsUnique, length-insert,
  length-remove, keys-insert, is_some, has_key-head,
}
use alibaba_ati_golang_sdk.Fifo.{
  Fifo, empty, evict_loop, evict_locked, put, remove_from_order, invalidate,
}

-- The cache `c` holds the entries of the list `q`, oldest first.
pub record Refines {V : Type 0} (c : Fifo V) (q : Map V) : Type 0 where
  pub order : c.insert_order ≡ keys q
  pub same : (k : Bytes) → lookup k c.entries ≡ lookup k q
  pub size : length c.entries ≡ length q
  pub unique_entries : IsUnique c.entries
  pub unique : IsUnique q

module _ {V : Type 0} where
  pub same_key :
      {c : Fifo V} {q : Map V} → Refines c q → (k : Bytes) → has_key k c.entries ≡ has_key k q
  same_key {c} {q} r k =
      has_key-eq-is_some k c.entries ∙ ap is_some (r.same k) ∙ sym (has_key-eq-is_some k q)

  lookup-tail :
      (k j : Bytes) (v : V) (q : Map V)
      → has_key k q ≡ false
      → (if bytes_eq k j then none else lookup j ((k, v) ∷ q)) ≡ lookup j q
  unfolding lookup
  lookup-tail k j v q h = ground (arith, bytes_eq_iff k j, lookup-none_of_has_key k q)

  -- The oldest entry goes.
  evict_one :
      {c : Fifo V} {order : List Bytes} (k : Bytes) (v : V) (q : Map V)
      → Refines c ((k, v) ∷ q)
      → order ≡ keys q
      → Refines (record { entries = remove k c.entries; insert_order = order }) q
  evict_one {c} k v q r o = record {
    order = o;
    same = λ j.
        lookup-remove k j c.entries r.unique_entries
        ∙ ap (λ x. if bytes_eq k j then none else x) (r.same j)
        ∙ lookup-tail k j v q r.unique.0;
    size = ground (arith, length-remove k c.entries, same_key r k, r.size, has_key-head k v q);
    unique_entries = remove-IsUnique k c.entries r.unique_entries;
    unique = r.unique.1;
  }

  evict_loop-Refines :
      (n : ℕ) (c : Fifo V) (q : Map V)
      → Refines c q
      → Refines (evict_loop n c.insert_order c.entries) (drop n q)
  unfolding evict_loop
  evict_loop-Refines zero c q r = r
  evict_loop-Refines (suc n) c [] r =
      rw (r.order, evict_loop)
        (record {
          order = refl;
          same = r.same;
          size = r.size;
          unique_entries = r.unique_entries;
          unique = tt;
        })
  evict_loop-Refines (suc n) c ((k, v) ∷ q) r =
      rw (r.order, evict_loop)
        (evict_loop-Refines n (record { entries = remove k c.entries; insert_order = keys q }) q
          (evict_one k v q r refl))

  evict_locked-Refines :
      (max : ℕ) (c : Fifo V) (q : Map V)
      → Refines c q
      → Refines (evict_locked max c) (drop (length q - max) q)
  unfolding evict_locked
  evict_locked-Refines max c q r = elim (Bool-cases (leb (length c.entries) max)) [
    | inl e ↦
        let h : length c.entries ≤ max = leb→le (length c.entries) max e in
        let z : length q - max ≡ 0 = omega (arith, r.size) in rw (e, z) r
    | inr e ↦ rw (e, r.size) (evict_loop-Refines (length q - max) c q r)
  ]

  -- Inserting is inserting into the list, from which the oldest entries beyond the bound are dropped.
  pub put-Refines :
      (max : ℕ) (id : Bytes) (e : V) (c : Fifo V) (q : Map V)
      → Refines c q
      → Refines (put max id e c) (drop (length (insert id e q) - max) (insert id e q))
  unfolding put
  put-Refines max id e c q r = evict_locked-Refines max _ (insert id e q) (record {
    order = rw (same_key r id, r.order) (sym (keys-insert id e q));
    same = λ k.
        lookup-insert id k e c.entries
        ∙ ap (λ x. if bytes_eq id k then some e else x) (r.same k)
        ∙ sym (lookup-insert id k e q);
    size = rw (length-insert id e c.entries, length-insert id e q, same_key r id, r.size);
    unique_entries = insert-IsUnique id e c.entries r.unique_entries;
    unique = insert-IsUnique id e q r.unique;
  })

  keys-remove : (k : Bytes) (q : Map V) → remove_from_order k (keys q) ≡ keys (remove k q)
  unfolding remove_from_order remove
  keys-remove k [] = refl
  keys-remove k ((j, v) ∷ q) = ground (arith, keys-remove k q)

  remove-absent : (k : Bytes) (q : Map V) → has_key k q ≡ false → remove k q ≡ q
  unfolding has_key remove
  remove-absent k [] h = refl
  remove-absent k ((j, v) ∷ q) h = ground (arith, remove-absent k q)

  -- Invalidating is removing from the list.
  pub invalidate-Refines :
      (id : Bytes) (c : Fifo V) (q : Map V) → Refines c q → Refines (invalidate id c) (remove id q)
  unfolding invalidate
  invalidate-Refines id c q r = elim (Bool-cases (has_key id c.entries)) [
    | inl e ↦ rw e (record {
      order = rw r.order (keys-remove id q);
      same = λ k.
          lookup-remove id k c.entries r.unique_entries
          ∙ ap (λ x. if bytes_eq id k then none else x) (r.same k)
          ∙ sym (lookup-remove id k q r.unique);
      size = rw (length-remove id c.entries, length-remove id q, same_key r id, r.size);
      unique_entries = remove-IsUnique id c.entries r.unique_entries;
      unique = remove-IsUnique id q r.unique;
    })
    | inr e ↦ rw (e, remove-absent id q (sym (same_key r id) ∙ e)) r
  ]

  pub empty-Refines : Refines (empty {V = V}) []
  unfolding lookup
  empty-Refines = record {
    order = refl;
    same = λ k. refl;
    size = refl;
    unique_entries = tt;
    unique = tt;
  }
