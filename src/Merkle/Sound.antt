-- ===== src/Merkle/Sound.antt =====
-- With a node hash without collisions, only the leaf of the tree and its audit path reach the root.
use alibaba_ati_golang_sdk.Base.{
  ℕ, zero, suc, ◌+◌, ◌-◌, ◌/◌, ◌≤◌, ◌<◌, ◌≡◌, refl, ◌∙◌, sym, List, [], ◌∷◌, arith, length, get_or,
  ok, inl, inr, ap,
}
use mathlib.Core.Path.{ap₂}
use alibaba_ati_golang_sdk.Merkle.{walk, walk_odd, walk_inner, walk-promote, walk_last}
use alibaba_ati_golang_sdk.Merkle.Tree.{
  pair, root_from, audit_from, length-pair, get_or-pair_odd, get_or-pair_even, get_or-pair_last,
  root_from_single, audit_from_single,
}
use alibaba_ati_golang_sdk.Merkle.Complete.{place, last-pair, audit_odd, audit_inner, audit_last}

module _ {H : Type 0} (node : H → H → H) where
  -- Two pairs of children with the same parent are the same pair.
  abbrev pub Injective : Type 0
  Injective = (a b x y : H) → node a b ≡ node x y → (a ≡ x) × (b ≡ y)

  -- At one leaf only the empty path is accepted.
  pub sound_single :
      (d x r : H) (path : List H) → walk node 0 0 r path ≡ ok x → (r ≡ x) × (path ≡ [])
  unfolding walk
  sound_single d x r [] w = ground arith
  sound_single d x r (p ∷ ps) w = ground arith

  -- One level, given the claim for the level above.
  pub sound_level :
      (k : ℕ) (d : H) (m : ℕ) (l : List H) (r : H) (path : List H) {t : H}
      → Injective
      → m < length l
      → 1 < length l
      → ((r' : H) (path' : List H)
          → walk node (m / 2) ((length l - 1) / 2) r' path' ≡ ok t
          → (r' ≡ get_or (pair node l) (m / 2) d)
            × (path' ≡ audit_from node k d (m / 2) (pair node l)))
      → walk node m (length l - 1) r path ≡ ok t
      → (r ≡ get_or l m d) × (path ≡ audit_from node (suc k) d m l)
  sound_level k d m l r [] inj h b up w = elim (place m (length l) h) [
    | inl _ ↦ cc (walk_last node m (length l - 1) r (omega arith))
    | inr (o, e) ↦
        let f : length l - 1 ≡ m = omega arith in
        let (a, c) =
          up r [] (rw f (sym (walk-promote node m r [] (omega arith) o) ∙ (rw f at w))) in
        (a ∙ get_or-pair_last node d l m o e, c ∙ sym (audit_last node k d m l o e))
  ]
  sound_level k d m l r (p ∷ ps) inj h b up w = elim (place m (length l) h) [
    | inl (inl o) ↦
        let (a, c) =
          up (node p r) ps (sym (walk_odd node m (length l - 1) r p ps (omega arith) o) ∙ w) in
        let (x, y) = inj _ _ _ _ (a ∙ get_or-pair_odd node d l m o h) in
        (y, ap₂ ◌∷◌ x c ∙ sym (audit_odd node k d m l o))
    | inl (inr (o, i)) ↦
        let (a, c) =
          up (node r p) ps (sym (walk_inner node m (length l - 1) r p ps (omega arith) o) ∙ w) in
        let (x, y) = inj _ _ _ _ (a ∙ get_or-pair_even node d l m o i) in
        (x, ap₂ ◌∷◌ y c ∙ sym (audit_inner node k d m l o i))
    | inr (o, e) ↦
        let f : length l - 1 ≡ m = omega arith in
        let (a, c) =
          up r (p ∷ ps)
            (rw f (sym (walk-promote node m r (p ∷ ps) (omega arith) o) ∙ (rw f at w))) in
        (a ∙ get_or-pair_last node d l m o e, c ∙ sym (audit_last node k d m l o e))
  ]

  pub walk_sound :
      (k : ℕ) (d : H) (m : ℕ) (l : List H) (r : H) (path : List H)
      → Injective
      → m < length l
      → length l ≤ k + 1
      → walk node m (length l - 1) r path ≡ ok (root_from node k d l)
      → (r ≡ get_or l m d) × (path ≡ audit_from node k d m l)
  walk_sound k d m [] r path inj h b w = elim h [ ]
  walk_sound k d zero (x ∷ []) r path inj h b w =
      rw (audit_from_single node k d x)
        (sound_single d x r path (w ∙ ap ok (root_from_single node k d x)))
  walk_sound k d (suc m) (x ∷ []) r path inj h b w = absurd (omega arith)
  walk_sound zero d m (x ∷ y ∷ l) r path inj h b w = absurd (omega arith)
  walk_sound (suc k) d m (x ∷ y ∷ l) r path inj h b w =
      sound_level k d m (x ∷ y ∷ l) r path {t = root_from node k d (pair node (x ∷ y ∷ l))} inj h
        (omega arith)
        (λ r' path' v.
          walk_sound k d (m / 2) (pair node (x ∷ y ∷ l)) r' path' inj
            (omega (arith, length-pair node (x ∷ y ∷ l)))
            (omega (arith, length-pair node (x ∷ y ∷ l)))
            (rw (last-pair node (x ∷ y ∷ l) (omega arith)) v))
        (w ∙ (unfold root_from in refl))
