-- ===== src/Merkle/Tests.antt =====
-- Runs of the inclusion proofs on symbolic digests.
use alibaba_ati_golang_sdk.Base.{
  ℕ, ◌≡◌, refl, Bool, true, false, ◌&&◌, List, [], ◌∷◌, arith, length, get_or, ok, err, ◌<◌, ◌==◌,
}
use alibaba_ati_golang_sdk.Merkle.{
  walk, verify_merkle_inclusion, excess, insufficient, index_range, root_mismatch,
}
use alibaba_ati_golang_sdk.Merkle.Tree.{root, audit_path}
use alibaba_ati_golang_sdk.Merkle.Sound.{Injective}
use alibaba_ati_golang_sdk.Merkle.Claims.{verify-audit_path, verify_sound}

-- A digest is the term that was hashed, so that there are no collisions.
data Digest : Type 0 where
  leaf : ℕ → Digest
  node : Digest → Digest → Digest

digest_eq : Digest → Digest → Bool
digest_eq (leaf a) (leaf b) = a == b
digest_eq (leaf a) (node c d) = false
digest_eq (node a b) (leaf c) = false
digest_eq (node a b) (node c d) = digest_eq a c && digest_eq b d

digest_eq_iff : (a b : Digest) → (digest_eq a b ≡ true → a ≡ b) × (a ≡ b → digest_eq a b ≡ true)
unfolding digest_eq
digest_eq_iff (leaf a) (leaf b) = (λ h. ground arith, λ h. ground arith)
digest_eq_iff (leaf a) (node c d) = (λ h. cc, λ h. cc)
digest_eq_iff (node a b) (leaf c) = (λ h. cc, λ h. cc)
digest_eq_iff (node a b) (node c d) = (
  λ h. ground (arith, (digest_eq_iff a c).0, (digest_eq_iff b d).0),
  λ h. ground (arith, (digest_eq_iff a c).1, (digest_eq_iff b d).1),
)

node-Injective : Injective node
node-Injective a b x y h = (cc, cc)

abbrev five : List Digest
five = leaf 10 ∷ leaf 11 ∷ leaf 12 ∷ leaf 13 ∷ leaf 14 ∷ []

runs :
    (root node (leaf 0) five
      ≡ node (node (node (leaf 10) (leaf 11)) (node (leaf 12) (leaf 13))) (leaf 14))
    × (audit_path node (leaf 0) 4 five
        ≡ node (node (leaf 10) (leaf 11)) (node (leaf 12) (leaf 13)) ∷ [])
    × (audit_path node (leaf 0) 2 five ≡ leaf 13 ∷ node (leaf 10) (leaf 11) ∷ leaf 14 ∷ [])
    × (walk node 2 4 (leaf 12) [] ≡ err insufficient)
    × (walk node 0 0 (leaf 12) (leaf 1 ∷ []) ≡ err excess)
    × (verify_merkle_inclusion node leaf digest_eq 12 5 5 [] (leaf 1) ≡ err index_range)
    × (verify_merkle_inclusion node leaf digest_eq 12 0 1 [] (leaf 1) ≡ err root_mismatch)
unfolding root audit_path verify_merkle_inclusion digest_eq walk
runs = (refl, refl, refl, refl, refl, refl, refl)

verify-audit_path_example :
    verify_merkle_inclusion node leaf digest_eq 12 2 5
      (audit_path node (leaf 0) 2 five)
      (root node (leaf 0) five)
    ≡ ok tt
verify-audit_path_example =
    verify-audit_path node leaf digest_eq digest_eq_iff (leaf 0) five 2 12 (omega arith)
      (omega arith) refl

accepted :
    verify_merkle_inclusion node leaf digest_eq 14 4 5
      (node (node (leaf 10) (leaf 11)) (node (leaf 12) (leaf 13)) ∷ [])
      (root node (leaf 0) five)
    ≡ ok tt
unfolding verify_merkle_inclusion root digest_eq
accepted = refl

verify_sound_example :
    (4 < length five)
    × (leaf 14 ≡ get_or five 4 (leaf 0))
    × (node (node (leaf 10) (leaf 11)) (node (leaf 12) (leaf 13)) ∷ []
        ≡ audit_path node (leaf 0) 4 five)
verify_sound_example =
    verify_sound node leaf digest_eq digest_eq_iff (leaf 0) five 4 14 _ node-Injective accepted
