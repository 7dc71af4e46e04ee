-- ===== src/Base/Map.antt =====
-- Go's `map[string]V` as an association list in which a key stands at most once.
use alibaba_ati_golang_sdk.Base.{
  suc, ◌-◌, ◌≡◌, refl, Bool, true, false, ◌||◌, List, [], ◌∷◌, Option, none, some, arith, Bytes,
  bytes_eq, bytes_eq_iff, bytes_eq_refl, length, if◌then◌else◌, ◌++◌, drop, ℕ, zero,
}

abbrev pub Map {ℓ} : Type ℓ → Type ℓ
Map V = List (Bytes × V)

module _ {ℓ} {V : Type ℓ} where
  -- v, ok := m[k]
  unfoldable pub lookup : Bytes → Map V → Option V
  lookup k [] = none
  lookup k ((j, v) ∷ m) = if bytes_eq j k then some v else lookup k m

  unfoldable pub has_key : Bytes → Map V → Bool
  has_key k [] = false
  has_key k ((j, v) ∷ m) = bytes_eq j k || has_key k m

  -- m[k] = v
  unfoldable pub insert : Bytes → V → Map V → Map V
  insert k v [] = (k, v) ∷ []
  insert k v ((j, w) ∷ m) = if bytes_eq j k then (k, v) ∷ m else (j, w) ∷ insert k v m

  -- delete(m, k)
  unfoldable pub remove : Bytes → Map V → Map V
  remove k [] = []
  remove k ((j, w) ∷ m) = if bytes_eq j k then m else (j, w) ∷ remove k m

  -- No key stands twice.
  abbrev pub IsUnique : Map V → Type 0
  IsUnique [] = Unit
  IsUnique ((j, v) ∷ m) = (has_key j m ≡ false) × IsUnique m

  pub lookup-insert :
      (k j : Bytes) (v : V) (m : Map V)
      → lookup j (insert k v m) ≡ (if bytes_eq k j then some v else lookup j m)
  unfolding lookup insert
  lookup-insert k j v [] = refl
  lookup-insert k j v ((i, w) ∷ m) =
      ground (arith, bytes_eq_iff k j, bytes_eq_iff i k, bytes_eq_iff i j, lookup-insert k j v m)

  pub has_key-insert :
      (k j : Bytes) (v : V) (m : Map V) → has_key j (insert k v m) ≡ (bytes_eq k j || has_key j m)
  unfolding has_key insert
  has_key-insert k j v [] = refl
  has_key-insert k j v ((i, w) ∷ m) =
      ground (arith, bytes_eq_iff k j, bytes_eq_iff i k, bytes_eq_iff i j, has_key-insert k j v m)

  pub lookup-none_of_has_key : (k : Bytes) (m : Map V) → has_key k m ≡ false → lookup k m ≡ none
  unfolding lookup has_key
  lookup-none_of_has_key k [] h = refl
  lookup-none_of_has_key k ((j, v) ∷ m) h = ground (arith, lookup-none_of_has_key k m)

  pub has_key_of_lookup : (k : Bytes) (m : Map V) (v : V) → lookup k m ≡ some v → has_key k m ≡ true
  unfolding lookup has_key
  has_key_of_lookup k [] v h = ground arith
  has_key_of_lookup k ((j, w) ∷ m) v h = ground (arith, has_key_of_lookup k m v)

  pub lookup-remove :
      (k j : Bytes) (m : Map V)
      → IsUnique m
      → lookup j (remove k m) ≡ (if bytes_eq k j then none else lookup j m)
  unfolding lookup remove
  lookup-remove k j [] u = ground arith
  lookup-remove k j ((i, w) ∷ m) u = ground (
    arith,
    bytes_eq_iff k j,
    bytes_eq_iff i k,
    bytes_eq_iff i j,
    lookup-remove k j m,
    lookup-none_of_has_key i m,
  )

  pub has_key-remove :
      (k j : Bytes) (m : Map V)
      → IsUnique m
      → has_key j (remove k m) ≡ (if bytes_eq k j then false else has_key j m)
  unfolding has_key remove
  has_key-remove k j [] u = ground arith
  has_key-remove k j ((i, w) ∷ m) u =
      ground (arith, bytes_eq_iff k j, bytes_eq_iff i k, bytes_eq_iff i j, has_key-remove k j m)

  pub insert-IsUnique : (k : Bytes) (v : V) (m : Map V) → IsUnique m → IsUnique (insert k v m)
  unfolding insert has_key
  insert-IsUnique k v [] u = (refl, tt)
  insert-IsUnique k v ((i, w) ∷ m) u =
      ground
        (arith, bytes_eq_iff i k, bytes_eq_iff k i, has_key-insert k i v m, insert-IsUnique k v m)

  pub remove-IsUnique : (k : Bytes) (m : Map V) → IsUnique m → IsUnique (remove k m)
  unfolding remove has_key
  remove-IsUnique k [] u = tt
  remove-IsUnique k ((i, w) ∷ m) u =
      ground (arith, bytes_eq_iff i k, bytes_eq_iff k i, has_key-remove k i m, remove-IsUnique k m)

  pub length-insert :
      (k : Bytes) (v : V) (m : Map V)
      → length (insert k v m) ≡ (if has_key k m then length m else suc (length m))
  unfolding insert has_key
  length-insert k v [] = refl
  length-insert k v ((i, w) ∷ m) = ground (arith, length-insert k v m)

  pub length-remove :
      (k : Bytes) (m : Map V)
      → length (remove k m) ≡ (if has_key k m then length m - 1 else length m)
  unfolding remove has_key
  length-remove k [] = refl
  length-remove k ((i, w) ∷ []) = ground arith
  length-remove k ((i, w) ∷ p ∷ m) = ground (arith, length-remove k (p ∷ m))

  abbrev pub is_some : Option V → Bool
  is_some none = false
  is_some (some v) = true

  pub has_key-eq-is_some : (k : Bytes) (m : Map V) → has_key k m ≡ is_some (lookup k m)
  unfolding has_key lookup
  has_key-eq-is_some k [] = refl
  has_key-eq-is_some k ((j, v) ∷ m) = ground (arith, has_key-eq-is_some k m)

  -- The keys, in the order of the list.
  abbrev pub keys : Map V → List Bytes
  keys [] = []
  keys ((k, v) ∷ m) = k ∷ keys m

  pub keys-insert :
      (k : Bytes) (v : V) (m : Map V)
      → keys (insert k v m) ≡ (if has_key k m then keys m else keys m ++ k ∷ [])
  unfolding insert has_key
  keys-insert k v [] = refl
  keys-insert k v ((j, w) ∷ m) = ground (arith, bytes_eq_iff j k, keys-insert k v m)

  pub drop-IsUnique : (n : ℕ) (m : Map V) → IsUnique m → IsUnique (drop n m)
  drop-IsUnique zero m u = u
  drop-IsUnique (suc n) [] u = u
  drop-IsUnique (suc n) ((k, v) ∷ m) u = drop-IsUnique n m u.1

  pub has_key-head : (k : Bytes) (v : V) (m : Map V) → has_key k ((k, v) ∷ m) ≡ true
  unfolding has_key
  has_key-head k v m = ground (arith, bytes_eq_refl k)
