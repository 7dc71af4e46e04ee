-- ===== src/Merkle/Tree.antt =====
-- The tree that RFC 9162 describes, level by level: neighbours are hashed in pairs, and the last node
-- of a level of odd length moves up unchanged. An independent description of what
-- verify/scitt/merkle.go checks.
use alibaba_ati_golang_sdk.Base.{
  ℕ, zero, suc, ◌+◌, ◌-◌, ◌/◌, ◌%◌, ◌<◌, ◌≡◌, refl, List, [], ◌∷◌, arith, ltb, ◌==◌, if◌then◌else◌,
  length, get_or,
}

module _ {H : Type 0} (node : H → H → H) where
  -- The level above.
  pub pair : List H → List H
  pair [] = []
  pair (x ∷ []) = x ∷ []
  pair (x ∷ y ∷ r) = node x y ∷ pair r

  -- The root of a level, after at most `k` levels. `d` is the root of no leaves.
  unfoldable pub root_from : ℕ → H → List H → H
  unfolding pair
  root_from zero d l = get_or l 0 d
  root_from (suc k) d l = root_from k d (pair l)

  unfoldable pub root : H → List H → H
  unfolding root_from
  root d l = root_from (length l) d l

  -- The siblings on the way from node `m` of a level of length `n` to the root.
  unfoldable pub audit_from : ℕ → H → ℕ → List H → List H
  unfolding pair
  audit_from zero d m l = []
  audit_from (suc k) d m l =
      let rest = audit_from k d (m / 2) (pair l) in
      if m % 2 == 1
      then get_or l (m - 1) d ∷ rest
      else if ltb (m + 1) (length l)
      then get_or l (m + 1) d ∷ rest
      else rest

  unfoldable pub audit_path : H → ℕ → List H → List H
  unfolding audit_from
  audit_path d m l = audit_from (length l) d m l

  pub length-pair : (l : List H) → length (pair l) ≡ (length l + 1) / 2
  unfolding pair
  length-pair [] = refl
  length-pair (x ∷ []) = refl
  length-pair (x ∷ y ∷ r) = omega (arith, length-pair r)

  -- The parent of a pair, and the last node that has no sibling.
  pub get_or-pair_odd :
      (d : H) (l : List H) (m : ℕ)
      → m % 2 ≡ 1
      → m < length l
      → get_or (pair l) (m / 2) d ≡ node (get_or l (m - 1) d) (get_or l m d)
  unfolding pair
  get_or-pair_odd d [] m o h = absurd (omega arith)
  get_or-pair_odd d (x ∷ []) m o h = absurd (omega arith)
  get_or-pair_odd d (x ∷ y ∷ r) zero o h = absurd (omega arith)
  get_or-pair_odd d (x ∷ y ∷ r) (suc zero) o h = refl
  get_or-pair_odd d (x ∷ y ∷ r) (suc (suc zero)) o h = absurd (omega arith)
  get_or-pair_odd d (x ∷ y ∷ r) (suc (suc (suc m))) o h =
      let e : suc (suc (suc m)) / 2 ≡ suc (suc m / 2) = omega arith in
      let i : suc m - 1 ≡ m = omega arith in
      let j : suc (suc (suc m)) - 1 ≡ suc (suc m) = omega arith in
      rw (e, j) (rw i at (get_or-pair_odd d r (suc m) (omega arith) (omega arith)))

  pub get_or-pair_even :
      (d : H) (l : List H) (m : ℕ)
      → m % 2 ≡ 0
      → m + 1 < length l
      → get_or (pair l) (m / 2) d ≡ node (get_or l m d) (get_or l (m + 1) d)
  unfolding pair
  get_or-pair_even d [] m o h = absurd (omega arith)
  get_or-pair_even d (x ∷ []) m o h = absurd (omega arith)
  get_or-pair_even d (x ∷ y ∷ r) zero o h = refl
  get_or-pair_even d (x ∷ y ∷ r) (suc zero) o h = absurd (omega arith)
  get_or-pair_even d (x ∷ y ∷ r) (suc (suc m)) o h =
      let e : suc (suc m) / 2 ≡ suc (m / 2) = omega arith in
      let j : suc (suc m) + 1 ≡ suc (suc (m + 1)) = omega arith in
      rw (e, j) (get_or-pair_even d r m (omega arith) (omega arith))

  pub get_or-pair_last :
      (d : H) (l : List H) (m : ℕ)
      → m % 2 ≡ 0
      → length l ≡ m + 1
      → get_or (pair l) (m / 2) d ≡ get_or l m d
  unfolding pair
  get_or-pair_last d [] m o h = absurd (omega arith)
  get_or-pair_last d (x ∷ []) zero o h = refl
  get_or-pair_last d (x ∷ []) (suc m) o h = absurd (omega arith)
  get_or-pair_last d (x ∷ y ∷ r) zero o h = absurd (omega arith)
  get_or-pair_last d (x ∷ y ∷ r) (suc zero) o h = absurd (omega arith)
  get_or-pair_last d (x ∷ y ∷ r) (suc (suc m)) o h =
      let e : suc (suc m) / 2 ≡ suc (m / 2) = omega arith in
      rw e (get_or-pair_last d r m (omega arith) (omega arith))

  -- A level of one node is the root, however many levels are asked for.
  pub root_from_single : (k : ℕ) (d x : H) → root_from k d (x ∷ []) ≡ x
  unfolding root_from pair
  root_from_single zero d x = refl
  root_from_single (suc k) d x = root_from_single k d x

  pub audit_from_single : (k : ℕ) (d x : H) → audit_from k d 0 (x ∷ []) ≡ []
  unfolding audit_from pair
  audit_from_single zero d x = refl
  audit_from_single (suc k) d x = audit_from_single k d x
