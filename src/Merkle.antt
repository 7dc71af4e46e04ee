-- ===== src/Merkle.antt =====
-- The inclusion proofs of verify/scitt/merkle.go. SHA-256 is not code of the repository: the leaf and
-- node hashes are parameters, over any type `H` of digests.
pub mod Tree
pub mod Complete
pub mod Sound
pub mod Claims
mod Tests
use alibaba_ati_golang_sdk.Base.{
  ℕ, zero, suc, ◌+◌, ◌-◌, ◌*◌, ◌/◌, ◌%◌, ◌≤◌, ◌<◌, ◌≡◌, refl, Bool, true, false, ◌||◌, ◌&&◌, not,
  List, [], ◌∷◌, arith, ltb, leb, ◌==◌, if◌then◌else◌, length, Result, ok, err, ◌>>=◌, Bool-cases,
  inl, inr,
}

pub data MerkleError : Type 0 where
  zero_size index_range path_too_long excess insufficient root_mismatch : MerkleError

-- `for fn&1 == 0 && fn != 0 { fn >>= 1; sn >>= 1 }`; each round halves `fn`, so `fn` rounds are enough.
unfoldable pub strip : ℕ → ℕ → ℕ → ℕ × ℕ
strip zero f s = (f, s)
strip (suc k) f s =
    let rest = strip k (f / 2) (s / 2) in if (f % 2 == 0) && not (f == 0) then rest else (f, s)

abbrev pub max_hash_path_len : ℕ
max_hash_path_len = 63

module _ {H : Type 0} (node : H → H → H) where
  -- The loop over the path, on `fn`, `sn` and `r`.
  unfoldable pub walk : ℕ → ℕ → H → List H → Result MerkleError H
  unfolding strip
  walk f s r [] = if s == 0 then ok r else err insufficient
  walk f s r (p ∷ ps) =
      let (f', s') = strip f f s in
      let left = walk (f' / 2) (s' / 2) (node p r) ps in
      let right = walk (f / 2) (s / 2) (node r p) ps in
      if s == 0 then err excess else if (f % 2 == 1) || (f == s) then left else right

  unfoldable pub walk_inclusion_path :
      {D : Type 0} → (D → H) → D → ℕ → ℕ → List H → Result MerkleError H
  unfolding walk
  walk_inclusion_path leaf event leaf_index tree_size path =
      if tree_size == 0
      then err zero_size
      else if leb tree_size leaf_index
      then err index_range
      else if ltb max_hash_path_len (length path)
      then err path_too_long
      else walk leaf_index (tree_size - 1) (leaf event) path

  -- `hash_eq` is `subtle.ConstantTimeCompare(a, b) == 1`.
  pub verify_merkle_inclusion :
      {D : Type 0}
      → (D → H)
      → (H → H → Bool)
      → D
      → ℕ
      → ℕ
      → List H
      → H
      → Result MerkleError (Unit {0})
  unfolding walk_inclusion_path
  verify_merkle_inclusion leaf hash_eq event leaf_index tree_size path root = do
    computed ← walk_inclusion_path leaf event leaf_index tree_size path
    if hash_eq computed root then ok tt else err root_mismatch

-- One round of the inner loop.
pub strip_fuel : (k l f s : ℕ) → f ≤ k → f ≤ l → strip k f s ≡ strip l f s
unfolding strip
strip_fuel zero zero f s h j = refl
strip_fuel zero (suc l) f s h j = ground arith
strip_fuel (suc k) zero f s h j = ground arith
strip_fuel (suc k) (suc l) f s h j = ground (arith, strip_fuel k l (f / 2) (s / 2))

pub strip_lem :
    (f s : ℕ)
    → strip f f s ≡ (if (f % 2 == 0) && not (f == 0) then strip (f / 2) (f / 2) (s / 2) else (f, s))
unfolding strip
strip_lem zero s = refl
strip_lem (suc f) s = ground (arith, strip_fuel f (suc f / 2) (suc f / 2) (s / 2))

module _ {H : Type 0} (node : H → H → H) where
  -- A right child is hashed with its left sibling.
  pub walk_odd :
      (f s : ℕ) (r p : H) (ps : List H)
      → 0 < s
      → f % 2 ≡ 1
      → walk node f s r (p ∷ ps) ≡ walk node (f / 2) (s / 2) (node p r) ps
  unfolding walk
  walk_odd f s r p ps h o = ground (arith, strip_lem f s)

  -- A left child that is not the last node of its level is hashed with its right sibling.
  pub walk_inner :
      (f s : ℕ) (r p : H) (ps : List H)
      → f < s
      → f % 2 ≡ 0
      → walk node f s r (p ∷ ps) ≡ walk node (f / 2) (s / 2) (node r p) ps
  unfolding walk
  walk_inner f s r p ps h o = ground arith

  -- The last node of a level of odd length moves up unchanged.
  pub walk-promote :
      (f : ℕ) (r : H) (ps : List H)
      → 0 < f
      → f % 2 ≡ 0
      → walk node f f r ps ≡ walk node (f / 2) (f / 2) r ps
  unfolding walk
  walk-promote f r [] h o = ground arith
  walk-promote f r (p ∷ ps) h o = ground (arith, strip_lem f f, strip_lem (f / 2) (f / 2))

  pub walk_last : (f s : ℕ) (r : H) → 0 < s → walk node f s r [] ≡ err insufficient
  unfolding walk
  walk_last f s r h = ground arith
