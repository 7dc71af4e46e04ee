-- ===== src/Scitt/KeyStore/Merging.antt =====
-- What MergeFrom keeps, adds and counts.
use alibaba_ati_golang_sdk.Base.{
  ℕ, suc, ◌+◌, ◌≡◌, refl, ◌∙◌, sym, ap, List, [], ◌∷◌, Option, none, some, Bytes, Result, ok, err,
  length, bytes_eq, bytes_eq_iff, arith, Bool-cases, Option-cases, inl, inr, ◌⊎◌,
}
use alibaba_ati_golang_sdk.Base.Map.{
  Map, lookup, insert, lookup-insert, length-insert, has_key-eq-is_some,
}
use alibaba_ati_golang_sdk.Scitt.KeyStore.{
  KeyCodec, TrustedKey, KeyError, MergeResult, parse_c2sp_key, merge_key, merge_one, merge_loop,
  merge_from, no_result,
}

module _ {K : Type 0} (c : KeyCodec K) where
  -- One of the texts is the key.
  abbrev pub Parsed : List Bytes → TrustedKey K → Type 0
  Parsed [] tk = ⊥
  Parsed (s ∷ ss) tk = (parse_c2sp_key c s ≡ ok tk) ⊎ Parsed ss tk

  key_keeps :
      (tk : TrustedKey K) (x : Option (TrustedKey K)) (m : Map (TrustedKey K)) (r : MergeResult)
      (k : Bytes) (old : TrustedKey K)
      → lookup tk.kid m ≡ x
      → lookup k m ≡ some old
      → lookup k (merge_key c tk x m r).0 ≡ some old
  key_keeps tk (some e) m r k old h i = i
  key_keeps tk none m r k old h i =
      lookup-insert tk.kid k tk m ∙ ground (arith, bytes_eq_iff tk.kid k)

  one_keeps :
      (p : Result KeyError (TrustedKey K)) (m : Map (TrustedKey K)) (r : MergeResult) (k : Bytes)
      (old : TrustedKey K)
      → lookup k m ≡ some old
      → lookup k (merge_one c p m r).0 ≡ some old
  one_keeps (err e) m r k old i = i
  one_keeps (ok tk) m r k old i = key_keeps tk (lookup tk.kid m) m r k old refl i

  pub loop_keeps :
      (ss : List Bytes) (m : Map (TrustedKey K)) (r : MergeResult) (k : Bytes) (old : TrustedKey K)
      → lookup k m ≡ some old
      → lookup k (merge_loop c ss m r).0 ≡ some old
  unfolding merge_loop
  loop_keeps [] m r k old i = i
  loop_keeps (s ∷ ss) m r k old i =
      loop_keeps ss _ _ k old (one_keeps (parse_c2sp_key c s) m r k old i)

  abbrev some_or : TrustedKey K → Option (TrustedKey K) → TrustedKey K
  some_or d none = d
  some_or d (some x) = x

  key_source :
      (tk : TrustedKey K) (x : Option (TrustedKey K)) (m : Map (TrustedKey K)) (r : MergeResult)
      (k : Bytes) (new : TrustedKey K)
      → lookup k (merge_key c tk x m r).0 ≡ some new
      → (lookup k m ≡ some new) ⊎ (tk ≡ new)
  key_source tk (some e) m r k new h = inl h
  key_source tk none m r k new h = elim (Bool-cases (bytes_eq tk.kid k)) [
    | inl e ↦
        let i : some tk ≡ some new = rw e at (sym (lookup-insert tk.kid k tk m) ∙ h) in
        inr (ap (some_or tk) i)
    | inr e ↦ inl (rw e at (sym (lookup-insert tk.kid k tk m) ∙ h))
  ]

  one_source :
      (p : Result KeyError (TrustedKey K)) (m : Map (TrustedKey K)) (r : MergeResult) (k : Bytes)
      (new : TrustedKey K)
      → lookup k (merge_one c p m r).0 ≡ some new
      → (lookup k m ≡ some new) ⊎ (p ≡ ok new)
  one_source (err e) m r k new h = inl h
  one_source (ok tk) m r k new h = elim (key_source tk (lookup tk.kid m) m r k new h) [
    | inl e ↦ inl e
    | inr e ↦ inr (rw e refl)
  ]

  loop_source :
      (ss : List Bytes) (m : Map (TrustedKey K)) (r : MergeResult) (k : Bytes) (new : TrustedKey K)
      → lookup k (merge_loop c ss m r).0 ≡ some new
      → (lookup k m ≡ some new) ⊎ Parsed ss new
  unfolding merge_loop
  loop_source [] m r k new h = inl h
  loop_source (s ∷ ss) m r k new h = elim (loop_source ss _ _ k new h) [
    | inr p ↦ inr (inr p)
    | inl e ↦ elim (one_source (parse_c2sp_key c s) m r k new e) [
      | inl i ↦ inl i
      | inr p ↦ inr (inl p)
    ]
  ]

  -- A merge keeps every key that was there, and a key that is there afterwards was there or is one of the
  -- texts, parsed.
  pub merge-lookup :
      (ss : List Bytes) (store : Map (TrustedKey K)) (k : Bytes) (tk : TrustedKey K)
      → (lookup k store ≡ some tk → lookup k (merge_from c ss store).0 ≡ some tk)
        × (lookup k (merge_from c ss store).0 ≡ some tk → (lookup k store ≡ some tk) ⊎ Parsed ss tk)
  unfolding merge_from
  merge-lookup ss store k tk =
      (loop_keeps ss store no_result k tk, loop_source ss store no_result k tk)

  abbrev Counts : ℕ → ℕ → Map (TrustedKey K) × MergeResult → Type 0
  Counts n size x =
      (x.1.added + x.1.skipped ≡ n)
      × (x.1.skipped ≡ x.1.skipped_unparseable + x.1.skipped_duplicate)
      × (length x.0 ≡ size + x.1.added)

  one-Counts :
      (n size : ℕ) (p : Result KeyError (TrustedKey K)) (m : Map (TrustedKey K)) (r : MergeResult)
      → Counts n size (m, r)
      → Counts (suc n) size (merge_one c p m r)
  one-Counts n size (err e) m r (a, b, d) = (omega arith, omega arith, d)
  one-Counts n size (ok tk) m r (a, b, d) = elim (Option-cases (lookup tk.kid m)) [
    | inl e ↦
        let l : length (insert tk.kid tk m) ≡ suc (length m) =
          ground (arith, length-insert tk.kid tk m, has_key-eq-is_some tk.kid m) in
        rw e (omega arith, b, omega arith)
    | inr (x, e) ↦ rw e (omega arith, omega arith, d)
  ]

  loop-Counts :
      (ss : List Bytes) (n size : ℕ) (m : Map (TrustedKey K)) (r : MergeResult)
      → Counts n size (m, r)
      → Counts (length ss + n) size (merge_loop c ss m r)
  unfolding merge_loop
  loop-Counts [] n size m r h = (omega (arith, h.0), h.1, h.2)
  loop-Counts (s ∷ ss) n size m r h =
      let (a, b, d) =
        loop-Counts ss (suc n) size _ _ (one-Counts n size (parse_c2sp_key c s) m r h) in
      (omega (arith, a), b, d)

  -- A merge accounts for every text: it was added or skipped, for one of the two reasons, and the store has
  -- grown by those that were added.
  pub merge_counts :
      (ss : List Bytes) (store : Map (TrustedKey K))
      → ((merge_from c ss store).1.added + (merge_from c ss store).1.skipped ≡ length ss)
        × ((merge_from c ss store).1.skipped
            ≡ (merge_from c ss store).1.skipped_unparseable
              + (merge_from c ss store).1.skipped_duplicate)
        × (length (merge_from c ss store).0 ≡ length store + (merge_from c ss store).1.added)
  unfolding merge_from
  merge_counts ss store =
      let (a, b, d) = loop-Counts ss 0 (length store) store no_result (refl, refl, omega arith) in
      (omega arith, b, d)
