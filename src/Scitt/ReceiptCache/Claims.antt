-- ===== src/Scitt/ReceiptCache/Claims.antt =====
-- What a history of operations leaves in a `ReceiptCache`.
use alibaba_ati_golang_sdk.Base.{
  ap, ◌∙◌, ℕ, ◌+◌, ◌-◌, ◌≤◌, ◌<◌, ◌≡◌, refl, List, [], ◌∷◌, none, some, Bytes, length, drop, ltb,
  arith, if◌then◌else◌, length-drop,
}
use alibaba_ati_golang_sdk.Base.Map
use alibaba_ati_golang_sdk.Base.Map.{Map, lookup}
use alibaba_ati_golang_sdk.Fifo.Refine.{Refines, put-Refines, invalidate-Refines, empty-Refines}
use alibaba_ati_golang_sdk.Fifo.Eviction.{length-put, lookup-put_self}
use alibaba_ati_golang_sdk.Scitt.ReceiptCache.{
  ReceiptEntry, ReceiptCache, new_receipt_cache, answer, get, insert, invalidate, len,
}

-- An operation that changes the cache, with the time at which it runs.
pub data Op (R : Type 0) : Type 0 where
  insert_op : ℕ → Bytes → R → Op R
  invalidate_op : Bytes → Op R

module _ {R : Type 0} where
  abbrev pub apply : Op R → ReceiptCache R → ReceiptCache R
  apply (insert_op now id r) c = insert now id r c
  apply (invalidate_op id) c = invalidate id c

  -- The operations of a history, the last one first.
  abbrev pub run : ℕ → ℕ → List (Op R) → ReceiptCache R
  run ttl max [] = new_receipt_cache ttl max
  run ttl max (op ∷ ops) = apply op (run ttl max ops)

  -- The same on a list of entries, the oldest first: an insertion overwrites in place or appends, and
  -- drops from the front what is beyond the bound.
  abbrev pub bounded : ℕ → Map (ReceiptEntry R) → Map (ReceiptEntry R)
  bounded max q = drop (length q - max) q

  abbrev pub history : ℕ → ℕ → List (Op R) → Map (ReceiptEntry R)
  history ttl max [] = []
  history ttl max (insert_op now id r ∷ ops) =
      bounded max
        (Map.insert id (record { receipt = r; expires_at = now + ttl }) (history ttl max ops))
  history ttl max (invalidate_op id ∷ ops) = Map.remove id (history ttl max ops)

  ttl-run : (ttl max : ℕ) (ops : List (Op R)) → (run ttl max ops).ttl ≡ ttl
  unfolding new_receipt_cache insert invalidate
  ttl-run ttl max [] = refl
  ttl-run ttl max (insert_op now id r ∷ ops) = ttl-run ttl max ops
  ttl-run ttl max (invalidate_op id ∷ ops) = ttl-run ttl max ops

  max-run : (ttl max : ℕ) (ops : List (Op R)) → (run ttl max ops).max_entries ≡ max
  unfolding new_receipt_cache insert invalidate
  max-run ttl max [] = refl
  max-run ttl max (insert_op now id r ∷ ops) = max-run ttl max ops
  max-run ttl max (invalidate_op id ∷ ops) = max-run ttl max ops

  pub run-Refines :
      (ttl max : ℕ) (ops : List (Op R)) → Refines (run ttl max ops).fifo (history ttl max ops)
  unfolding new_receipt_cache insert invalidate
  run-Refines ttl max [] = empty-Refines
  run-Refines ttl max (insert_op now id r ∷ ops) =
      rw (ttl-run ttl max ops, max-run ttl max ops)
        (put-Refines max id _ (run ttl max ops).fifo (history ttl max ops)
          (run-Refines ttl max ops))
  run-Refines ttl max (invalidate_op id ∷ ops) =
      invalidate-Refines id (run ttl max ops).fifo (history ttl max ops) (run-Refines ttl max ops)

  -- After any history of insertions and invalidations from the empty cache, `Get` answers at every time
  -- what the list of entries in insertion order, bounded from the front, holds for the agent and has not
  -- expired, and `Len` is the length of that list.
  pub get-run :
      (ttl max : ℕ) (ops : List (Op R)) (now : ℕ) (id : Bytes)
      → (get now id (run ttl max ops) ≡ answer now (lookup id (history ttl max ops)))
        × (len (run ttl max ops) ≡ length (history ttl max ops))
  unfolding get len
  get-run ttl max ops now id =
      (ap (answer now) ((run-Refines ttl max ops).same id), (run-Refines ttl max ops).size)

  length-history : (ttl max : ℕ) (ops : List (Op R)) → length (history ttl max ops) ≤ max
  length-history ttl max [] = omega arith
  length-history ttl max (insert_op now id r ∷ ops) =
      let q =
        Map.insert id (record { receipt = r; expires_at = now + ttl }) (history ttl max ops) in
      omega (arith, length-drop (length q - max) q)
  length-history ttl max (invalidate_op id ∷ ops) =
      ground (arith, Map.length-remove id (history ttl max ops), length-history ttl max ops)

  -- In a reachable cache with room for an entry, the receipt that was inserted at `now` is what `Get`
  -- answers up to and including the instant `now + ttl`, and nothing is answered after it; the cache
  -- never holds more than its bound.
  pub get-insert_receipt :
      (ttl max : ℕ) (ops : List (Op R)) (now later : ℕ) (id : Bytes) (r : R)
      → 0 < max
      → (get later id (insert now id r (run ttl max ops))
          ≡ (if ltb (now + ttl) later then none else some r))
        × (len (insert now id r (run ttl max ops)) ≤ max)
  unfolding get insert len
  get-insert_receipt ttl max ops now later id r p =
      let e : ReceiptEntry R = record { receipt = r; expires_at = now + (run ttl max ops).ttl } in
      let refines = run-Refines ttl max ops in
      let fits : length (history ttl max ops) ≤ (run ttl max ops).max_entries =
        rw (max-run ttl max ops) (length-history ttl max ops) in
      let room : 0 < (run ttl max ops).max_entries = rw (max-run ttl max ops) p in
      (
        ap (answer later) (
              lookup-put_self (run ttl max ops).max_entries id e (run ttl max ops).fifo _ refines
                fits room)
            ∙ ap (λ t. if ltb (now + t) later then none else some r) (ttl-run ttl max ops),
        omega (
          arith,
          length-put (run ttl max ops).max_entries id e (run ttl max ops).fifo _ refines,
          max-run ttl max ops,
        ),
      )
