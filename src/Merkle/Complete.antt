-- ===== src/Merkle/Complete.antt =====
-- The audit path of a leaf is accepted and leads to the root.
use alibaba_ati_golang_sdk.Base.{
  ℕ, zero, suc, ◌+◌, ◌-◌, ◌/◌, ◌%◌, ◌≤◌, ◌<◌, ◌≡◌, refl, ◌∙◌, List, [], ◌∷◌, arith, length, get_or,
  ok, inl, inr, ◌⊎◌,
}
use alibaba_ati_golang_sdk.Merkle.{walk, walk_odd, walk_inner, walk-promote}
use alibaba_ati_golang_sdk.Merkle.Tree.{
  pair, root_from, audit_from, length-pair, get_or-pair_odd, get_or-pair_even, get_or-pair_last,
  root_from_single, audit_from_single,
}

-- The place of a node in its level.
pub place :
    (m n : ℕ) → m < n → ((m % 2 ≡ 1) ⊎ ((m % 2 ≡ 0) × (m + 1 < n))) ⊎ ((m % 2 ≡ 0) × (n ≡ m + 1))
place m n h = grind arith

module _ {H : Type 0} (node : H → H → H) where
  pub audit_odd :
      (k : ℕ) (d : H) (m : ℕ) (l : List H)
      → m % 2 ≡ 1
      → audit_from node (suc k) d m l
        ≡ get_or l (m - 1) d ∷ audit_from node k d (m / 2) (pair node l)
  unfolding audit_from
  audit_odd k d m l o = ground arith

  pub audit_inner :
      (k : ℕ) (d : H) (m : ℕ) (l : List H)
      → m % 2 ≡ 0
      → m + 1 < length l
      → audit_from node (suc k) d m l
        ≡ get_or l (m + 1) d ∷ audit_from node k d (m / 2) (pair node l)
  unfolding audit_from
  audit_inner k d m l o h = ground arith

  pub audit_last :
      (k : ℕ) (d : H) (m : ℕ) (l : List H)
      → m % 2 ≡ 0
      → length l ≡ m + 1
      → audit_from node (suc k) d m l ≡ audit_from node k d (m / 2) (pair node l)
  unfolding audit_from
  audit_last k d m l o h = ground arith

  -- The last index of the level above.
  pub last-pair : (l : List H) → 0 < length l → length (pair node l) - 1 ≡ (length l - 1) / 2
  last-pair l h = omega (arith, length-pair node l)

  -- One level of the walk, wherever the node stands.
  pub walk_level :
      (k : ℕ) (d : H) (m : ℕ) (l : List H)
      → m < length l
      → 1 < length l
      → walk node m (length l - 1) (get_or l m d) (audit_from node (suc k) d m l)
        ≡ walk node
            (m / 2)
            (length (pair node l) - 1)
            (get_or (pair node l) (m / 2) d)
            (audit_from node k d (m / 2) (pair node l))
  walk_level k d m l h b = elim (place m (length l) h) [
    | inl (inl o) ↦
        rw (audit_odd k d m l o, last-pair l (omega arith), get_or-pair_odd node d l m o h)
          (walk_odd node m (length l - 1) _ _ _ (omega arith) o)
    | inl (inr (o, i)) ↦
        rw (audit_inner k d m l o i, last-pair l (omega arith), get_or-pair_even node d l m o i)
          (walk_inner node m (length l - 1) _ _ _ (omega arith) o)
    | inr (o, e) ↦
        let f : length l - 1 ≡ m = omega arith in
        rw (audit_last k d m l o e, last-pair l (omega arith), get_or-pair_last node d l m o e, f)
          (walk-promote node m _ _ (omega arith) o)
  ]

  pub walk-audit :
      (k : ℕ) (d : H) (m : ℕ) (l : List H)
      → m < length l
      → length l ≤ k + 1
      → walk node m (length l - 1) (get_or l m d) (audit_from node k d m l)
        ≡ ok (root_from node k d l)
  walk-audit k d m [] h b = elim h [ ]
  walk-audit k d zero (x ∷ []) h b =
      rw (audit_from_single node k d x, root_from_single node k d x) (unfold walk in refl)
  walk-audit k d (suc m) (x ∷ []) h b = absurd (omega arith)
  walk-audit zero d m (x ∷ y ∷ r) h b = absurd (omega arith)
  walk-audit (suc k) d m (x ∷ y ∷ r) h b =
      walk_level k d m (x ∷ y ∷ r) h (omega arith)
      ∙ walk-audit k d (m / 2) (pair node (x ∷ y ∷ r)) (omega (arith, length-pair node (x ∷ y ∷ r)))
          (omega (arith, length-pair node (x ∷ y ∷ r)))
      ∙ (unfold root_from in refl)
