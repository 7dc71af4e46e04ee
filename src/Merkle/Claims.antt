-- ===== src/Merkle/Claims.antt =====
-- What `VerifyMerkleInclusion` promises of a proof against the root of a tree.
use native.Mathlib.Nat.{pow-suc}
use alibaba_ati_golang_sdk.Base.{
  ℕ, zero, suc, ◌-◌, ◌/◌, ◌^◌, ◌≤◌, ◌<◌, ◌≡◌, refl, ◌∙◌, sym, List, [], ◌∷◌, arith, length, get_or,
  ok, err, inl, inr, ap, Result-cases, Bool, true, if◌then◌else◌,
}
use alibaba_ati_golang_sdk.Merkle.{walk, walk_inclusion_path, verify_merkle_inclusion}
use alibaba_ati_golang_sdk.Merkle.Tree.{
  pair, root, root_from, audit_path, audit_from, length-pair, audit_from_single,
}
use alibaba_ati_golang_sdk.Merkle.Complete.{place, audit_odd, audit_inner, audit_last, walk-audit}
use alibaba_ati_golang_sdk.Merkle.Sound.{Injective, walk_sound}

module _ {H : Type 0} (node : H → H → H) where
  -- A tree of at most 2 ^ j leaves has audit paths of at most j nodes.
  pub length-audit :
      (j k : ℕ) (d : H) (m : ℕ) (l : List H)
      → m < length l
      → length l ≤ 2 ^ j
      → length (audit_from node k d m l) ≤ j
  length-audit j zero d m l h b = unfold audit_from in omega arith
  length-audit j (suc k) d m [] h b = elim h [ ]
  length-audit j (suc k) d zero (x ∷ []) h b = rw (audit_from_single node (suc k) d x) (omega arith)
  length-audit j (suc k) d (suc m) (x ∷ []) h b = absurd (omega arith)
  length-audit zero (suc k) d m (x ∷ y ∷ l) h b = absurd (omega arith)
  length-audit (suc j) (suc k) d m (x ∷ y ∷ l) h b =
      let up : length (audit_from node k d (m / 2) (pair node (x ∷ y ∷ l))) ≤ j =
        length-audit j k d (m / 2) (pair node (x ∷ y ∷ l))
          (omega (arith, length-pair node (x ∷ y ∷ l)))
          (omega (arith, length-pair node (x ∷ y ∷ l), pow-suc 2 j)) in
      elim (place m (length (x ∷ y ∷ l)) h) [
        | inl (inl o) ↦ rw (audit_odd node k d m (x ∷ y ∷ l) o) (omega arith)
        | inl (inr (o, i)) ↦ rw (audit_inner node k d m (x ∷ y ∷ l) o i) (omega arith)
        | inr (o, e) ↦ rw (audit_last node k d m (x ∷ y ∷ l) o e) (omega arith)
      ]

  -- Past the guards the code walks the path.
  pub walk_inclusion_path_lem :
      {D : Type 0} (leaf : D → H) (event : D) (m n : ℕ) (path : List H)
      → m < n
      → length path ≤ 63
      → walk_inclusion_path node leaf event m n path ≡ walk node m (n - 1) (leaf event) path
  unfolding walk_inclusion_path
  walk_inclusion_path_lem leaf event m n path h b = ground arith

  -- A success passed the guards.
  pub guards_passed :
      {D : Type 0} (leaf : D → H) (event : D) (m n : ℕ) (path : List H) {r : H}
      → walk_inclusion_path node leaf event m n path ≡ ok r
      → (m < n) × (length path ≤ 63)
  unfolding walk_inclusion_path
  guards_passed leaf event m n path w = (ground arith, ground arith)

-- A comparison that ends in success succeeded.
compared : {E : Type 0} (b : Bool) (e : E) → (if b then ok tt else err e) ≡ ok tt → b ≡ true
compared b e h = ground arith

err-ne-ok : {E A : Type 0} {e : E} {a : A} → err e ≡ ok a → ⊥
err-ne-ok h = cc

module _ {H D : Type 0} (node : H → H → H) (leaf : D → H) (hash_eq : H → H → Bool)
    (eq_iff : (a b : H) → (hash_eq a b ≡ true → a ≡ b) × (a ≡ b → hash_eq a b ≡ true)) where
  -- For every tree of at most 2 ^ 63 leaves (no more fit the bound on the path) and every index of it:
  -- the event whose leaf hash stands there, with the audit path of the index, is accepted against the
  -- root of the tree.
  pub verify-audit_path :
      (d : H) (l : List H) (m : ℕ) (event : D)
      → m < length l
      → length l ≤ 2 ^ 63
      → get_or l m d ≡ leaf event
      → verify_merkle_inclusion node leaf hash_eq event m
          (length l)
          (audit_path node d m l)
          (root node d l)
        ≡ ok tt
  unfolding verify_merkle_inclusion root audit_path
  verify-audit_path d l m event h b e =
      let walked : walk_inclusion_path node leaf event m (length l)
            (audit_from node (length l) d m l)
          ≡ ok (root_from node (length l) d l) =
        walk_inclusion_path_lem node leaf event m (length l) _ h
          (length-audit node 63 (length l) d m l h b)
        ∙ (rw e at (walk-audit node (length l) d m l h (omega arith))) in
      rw (walked, (eq_iff (root_from node (length l) d l) _).1 refl)

  verify-eq_walk :
      (event : D) (m n : ℕ) (path : List H) (t : H)
      → verify_merkle_inclusion node leaf hash_eq event m n path t ≡ ok tt
      → walk_inclusion_path node leaf event m n path ≡ ok t
  unfolding verify_merkle_inclusion
  verify-eq_walk event m n path t v =
      elim (Result-cases (walk_inclusion_path node leaf event m n path)) [
        | inl (c, e) ↦ e ∙ ap ok ((eq_iff c t).0 (compared (hash_eq c t) _ (rw e at v)))
        | inr (x, e) ↦ absurd (err-ne-ok (rw e at v))
      ]

  -- If no two pairs of nodes share a parent hash, a proof that is accepted against the root of a tree,
  -- at the tree's size, is for an index of the tree, its event has the leaf hash that stands there, and
  -- its path is the audit path: nothing but a member of the tree can be proved.
  pub verify_sound :
      (d : H) (l : List H) (m : ℕ) (event : D) (path : List H)
      → Injective node
      → verify_merkle_inclusion node leaf hash_eq event m (length l) path (root node d l) ≡ ok tt
      → (m < length l) × (leaf event ≡ get_or l m d) × (path ≡ audit_path node d m l)
  unfolding root audit_path
  verify_sound d l m event path inj v =
      let w = verify-eq_walk event m (length l) path (root node d l) v in
      let (h, b) = guards_passed node leaf event m (length l) path w in
      let (a, c) =
        walk_sound node (length l) d m l (leaf event) path inj h (omega arith)
          (sym (walk_inclusion_path_lem node leaf event m (length l) path h b) ∙ w) in
      (h, a, c)
