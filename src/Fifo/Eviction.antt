-- ===== src/Fifo/Eviction.antt =====
-- What is in the cache after an insertion.
use alibaba_ati_golang_sdk.Base.{
  ℕ, zero, suc, ◌-◌, ◌≤◌, ◌<◌, ◌≡◌, refl, ◌∙◌, ap, false, [], ◌∷◌, ◌++◌, some, Bytes, bytes_eq_refl,
  length, drop, length-drop, arith, Bool-cases, inl, inr, if◌then◌else◌,
}
use alibaba_ati_golang_sdk.Base.Map.{Map, lookup, insert, has_key, length-insert, lookup-insert}
use alibaba_ati_golang_sdk.Fifo.{Fifo, put}
use alibaba_ati_golang_sdk.Fifo.Refine.{Refines, put-Refines}

module _ {V : Type 0} where
  -- The bound on the number of entries holds after each insertion.
  pub length-put :
      (max : ℕ) (id : Bytes) (e : V) (c : Fifo V) (q : Map V)
      → Refines c q
      → length (put max id e c).entries ≤ max
  length-put max id e c q r = omega (
    arith,
    (put-Refines max id e c q r).size,
    length-drop (length (insert id e q) - max) (insert id e q),
  )

  -- A new key stands behind the others, so it survives the eviction of as many entries as were there.
  lookup-drop_new :
      (n : ℕ) (id : Bytes) (e : V) (q : Map V)
      → has_key id q ≡ false
      → n ≤ length q
      → lookup id (drop n (insert id e q)) ≡ some e
  unfolding insert has_key lookup
  lookup-drop_new zero id e q h b =
      lookup-insert id id e q ∙ ap (λ x. if x then some e else lookup id q) (bytes_eq_refl id)
  lookup-drop_new (suc n) id e [] h b = elim b [ ]
  lookup-drop_new (suc n) id e ((j, w) ∷ q) h b =
      ground (arith, lookup-drop_new n id e q (ground arith) (omega arith))

  pub lookup-put_self :
      (max : ℕ) (id : Bytes) (e : V) (c : Fifo V) (q : Map V)
      → Refines c q
      → length q ≤ max
      → 0 < max
      → lookup id (put max id e c).entries ≡ some e
  lookup-put_self max id e c q r b p =
      (put-Refines max id e c q r).same id ∙ elim (Bool-cases (has_key id q)) [
        | inl h ↦
            let z : length (insert id e q) - max ≡ 0 = ground (arith, length-insert id e q) in
            rw z (
              lookup-insert id id e q
              ∙ ap (λ x. if x then some e else lookup id q) (bytes_eq_refl id))
        | inr h ↦
            let z : length (insert id e q) - max ≤ length q =
              ground (arith, length-insert id e q) in
            lookup-drop_new (length (insert id e q) - max) id e q h z
      ]

  insert-append :
      (id : Bytes) (e : V) (q : Map V) → has_key id q ≡ false → insert id e q ≡ q ++ (id, e) ∷ []
  unfolding insert has_key
  insert-append id e [] h = refl
  insert-append id e ((j, w) ∷ q) h = ground (arith, insert-append id e q)

  -- In a full cache a new key takes the place of the oldest entry, and of no other.
  pub put_full :
      (id k : Bytes) (e v : V) (c : Fifo V) (q : Map V)
      → Refines c ((k, v) ∷ q)
      → has_key id ((k, v) ∷ q) ≡ false
      → Refines (put (suc (length q)) id e c) (q ++ (id, e) ∷ [])
  put_full id k e v c q r h =
      let z : length (insert id e ((k, v) ∷ q)) - suc (length q) ≡ 1 =
        ground (arith, length-insert id e ((k, v) ∷ q)) in
      rw (z, insert-append id e ((k, v) ∷ q) h) at
        (put-Refines (suc (length q)) id e c ((k, v) ∷ q) r)
