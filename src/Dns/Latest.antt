-- ===== src/Dns/Latest.antt =====
-- ati/version_policy.go: the latest record is a latest one.
use mathlib.Core.Path.{subst}
use mathlib.Core.Bool.{false≢true, true≢false}
use alibaba_ati_golang_sdk.Base.{
  ◌≡◌, refl, sym, ap, ◌∙◌, ◌⊎◌, inl, inr, Bool, true, false, ◌&&◌, ◌||◌, List, [], ◌∷◌, Option,
  none, some, ok, Bool-cases, ok_eq, arith,
}
use alibaba_ati_golang_sdk.Models.Version.{version_string}
use alibaba_ati_golang_sdk.Dns.{AtiRecord}
use alibaba_ati_golang_sdk.Dns.Selection.{
  Semver, SelectionError, Best, better, keep_best, best_loop, best_or,
}
use alibaba_ati_golang_sdk.Dns.Claims.{In}

-- The precedence of semver is a total order, with Equal as its equality.
pub record IsOrder {V : Type 0} (x : Semver V) : Type 0 where
  pub irreflexive : (v : V) → x.greater_than v v ≡ false
  pub transitive :
      (u v w : V)
      → x.greater_than w v ≡ false
      → x.greater_than u v ≡ true
      → x.greater_than w u ≡ false
  pub congruent :
      (u v w : V) → x.greater_than w v ≡ false → x.equal u v ≡ true → x.greater_than w u ≡ false

some_eq {ℓ} : {A : Type ℓ} (a b : A) → some a ≡ some b → a ≡ b
some_eq a b h = ground arith

and_left : (a b : Bool) → (false || (a && b)) ≡ true → a ≡ true
and_left a b h = ground arith

or_left : (a b : Bool) → (a || b) ≡ false → a ≡ false
or_left a b h = ground arith

module _ {V : Type 0} (x : Semver V) (laws : IsOrder x) (test : V → Bool) where
  -- No record of the list that passes the test has a version above.
  abbrev pub AtMost : V → List AtiRecord → Type 0
  AtMost v [] = Unit
  AtMost v (r ∷ rs) =
      ((w : V)
        → x.new_version (version_string r.version) ≡ some w
        → test w ≡ true
        → x.greater_than w v ≡ false)
      × AtMost v rs

  -- A record of the list with a version that passes the test and that no other exceeds.
  pub record IsLatest (rs : List AtiRecord) (r : AtiRecord) : Type 0 where
    pub version : V
    pub parsed : x.new_version (version_string r.version) ≡ some version
    pub passes : test version ≡ true
    pub listed : In r rs
    pub latest : AtMost version rs

  abbrev Unchanged : AtiRecord → Option V → Best x → Type 0
  Unchanged r o best = (w : V) → o ≡ some w → test w ≡ true → better x r w best ≡ false

  abbrev Taken : AtiRecord → Option V → Best x → V → Type 0
  Taken r o best w =
      (o ≡ some w)
      × (test w ≡ true)
      × (better x r w best ≡ true)
      × (keep_best x test r o best ≡ some (r, w))

  keep_cases :
      (r : AtiRecord) (o : Option V) (best : Best x)
      → ((keep_best x test r o best ≡ best) × Unchanged r o best) ⊎ ((w : V) × Taken r o best w)
  keep_cases r none best = inl (refl, λ w e t. ground arith)
  keep_cases r (some v) best = elim (Bool-cases (test v)) [
    | inr t ↦ inl (rw t refl, λ w e u. absurd (false≢true (sym t ∙ (ap test (some_eq v w e) ∙ u))))
    | inl t ↦ elim (Bool-cases (better x r v best)) [
      | inl b ↦ inr (v, (refl, t, b, rw (t, b) refl))
      | inr b ↦ inl (rw (t, b) refl, λ w e u. ap (λ v. better x r v best) (sym (some_eq v w e)) ∙ b)
    ]
  ]

  -- The version exceeds whatever the kept one exceeds.
  abbrev Exceeds : V → Best x → Type 0
  Exceeds v best =
      (b : AtiRecord) (u w : V)
      → best ≡ some (b, u)
      → x.greater_than w u ≡ false
      → x.greater_than w v ≡ false

  better-Exceeds :
      (r : AtiRecord) (v : V) (best : Best x) → better x r v best ≡ true → Exceeds v best
  better-Exceeds r v none h b u w e g = ground arith
  better-Exceeds r v (some (c, y)) h b u w e g =
      let q : y ≡ u = ap (λ p. p.1) (some_eq (c, y) (b, u) e) in
      let g' = ap (x.greater_than w) q ∙ g in
      elim (Bool-cases (x.greater_than v y)) [
        | inl k ↦ laws.transitive v y w g' k
        | inr k ↦ laws.congruent v y w g' (and_left _ _ (rw k at h))
      ]

  not_better :
      (r : AtiRecord) (w : V) (best : Best x) (v : V)
      → better x r w best ≡ false
      → Exceeds v best
      → x.greater_than w v ≡ false
  not_better r w none v h k = absurd (true≢false h)
  not_better r w (some (c, y)) v h k = k c y w refl (or_left _ _ h)

  kept_version :
      (r b : AtiRecord) (y v : V)
      → x.new_version (version_string r.version) ≡ some y
      → Path (AtiRecord × V) (r, y) (b, v)
      → x.new_version (version_string b.version) ≡ some v
  kept_version r b y v q e =
      ap (λ r. x.new_version (version_string r.version)) (sym (ap (λ p. p.0) e))
      ∙ (q ∙ ap (λ p. some p.1) e)

  loop_lem :
      (rs : List AtiRecord) (best : Best x) (b : AtiRecord) (v : V)
      → best_loop x test rs best ≡ some (b, v)
      → ((best ≡ some (b, v))
          ⊎ (In b rs × (x.new_version (version_string b.version) ≡ some v) × (test v ≡ true)))
        × AtMost v rs
        × Exceeds v best
  unfolding best_loop
  loop_lem [] best b v h = (
    inl h,
    tt,
    λ c u w e g.
        ap (x.greater_than w) (sym (ap (λ p. p.1) (some_eq (c, u) (b, v) (sym e ∙ h)))) ∙ g,
  )
  loop_lem (r ∷ rs) best b v h =
      let o = x.new_version (version_string r.version) in
      let (s, m, k) = loop_lem rs (keep_best x test r o best) b v h in
      elim (keep_cases r o best) [
        | inl (e, n) ↦
            let k' : Exceeds v best = λ c u w q g. k c u w (e ∙ q) g in
            (
              elim s [ inl q ↦ inl (sym e ∙ q) | inr (i, p, q') ↦ inr (inr i, p, q') ],
              (λ w q t. not_better r w best v (n w q t) k', m),
              k',
            )
        | inr (y, (q, t, z, e)) ↦ (
          elim s [
            | inl d ↦ inr (
              inl (ap (λ p. p.0) (some_eq (r, y) (b, v) (sym e ∙ d))),
              kept_version r b y v q (some_eq (r, y) (b, v) (sym e ∙ d)),
              ap test (sym (ap (λ p. p.1) (some_eq (r, y) (b, v) (sym e ∙ d)))) ∙ t,
            )
            | inr (i, p, q') ↦ inr (inr i, p, q')
          ],
          (
            λ w j u.
                k r y w e
                  (ap (λ w. x.greater_than w y) (some_eq w y (sym j ∙ q)) ∙ laws.irreflexive y),
            m,
          ),
          λ c u w j g. k r y w e (better-Exceeds r y best z c u w j g),
        )
      ]

  selected :
      (rs : List AtiRecord) (r : AtiRecord) (e : SelectionError) (best : Best x)
      → best_loop x test rs none ≡ best
      → best_or x e best ≡ ok r
      → IsLatest rs r
  selected rs r e none i h = ground arith
  selected rs r e (some (b, v)) i h =
      let (s, m, k) = loop_lem rs none b v i in
      elim s [
        | inl d ↦ let z : Path (Best x) none (some (b, v)) = d in ground arith
        | inr (l, p, t) ↦
            subst (IsLatest rs) (ok_eq b r h)
              (record { version = v; parsed = p; passes = t; listed = l; latest = m })
      ]

  -- If the precedence of semver is a total order, the record that LATEST selects is one of the list, its version is
  -- one of semver, and no record of the list has a greater version; under a constraint the same holds among the
  -- versions that satisfy it.
  pub best-IsLatest :
      (rs : List AtiRecord) (r : AtiRecord) (e : SelectionError)
      → best_or x e (best_loop x test rs none) ≡ ok r
      → IsLatest rs r
  best-IsLatest rs r e h = selected rs r e (best_loop x test rs none) refl h
