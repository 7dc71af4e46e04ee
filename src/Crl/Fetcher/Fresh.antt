-- ===== src/Crl/Fetcher/Fresh.antt =====
-- How old a list is that the fetcher answers.
use mathlib.Core.Path.{subst}
use alibaba_ati_golang_sdk.Base.{
  Some, ℕ, ◌+◌, ◌-◌, ◌≤◌, ◌≡◌, refl, sym, ap, ◌∙◌, ◌⊎◌, inl, inr, false, List, [], ◌∷◌, Option,
  none, some, Bytes, ltb, Result, ok, err, bytes_eq, bytes_eq_iff, Bool-cases, if_true, if_false,
  if_true_fst, if_false_fst, ok_eq, arith,
}
use alibaba_ati_golang_sdk.Base.Map.{lookup, insert, lookup-insert}
use alibaba_ati_golang_sdk.Crl.Fetcher.{
  FetchError, CachedEntry, Fetcher, Call, download, ttl_of, entry_of, is_expired, store,
  fetch_cached, fetch, run, new_fetcher,
}

-- A call that downloaded the contents of an entry and stored it.
pub record Stored (max_age : ℕ) (uri : Bytes) (e : CachedEntry) (d : Call) : Type 0 where
  pub asked : d.uri ≡ uri
  pub answered : download d ≡ ok e.contents
  pub at : e.fetched_at ≡ d.store_at
  pub ttl : e.ttl ≡ ttl_of max_age d.parse_at (d.next_update e.contents)

-- Every entry was stored by one of the calls.
pub record Backed (max_age : ℕ) (cs : List Call) (f : Fetcher) : Type 0 where
  pub age : f.max_age ≡ max_age
  pub entries :
      (uri : Bytes) (e : CachedEntry) → lookup uri f.cache ≡ some e → Some (Stored max_age uri e) cs

some_eq {ℓ} : {A : Type ℓ} (a b : A) → some a ≡ some b → a ≡ b
some_eq a b h = ground arith

module _ (max_age : ℕ) where
  later-Backed :
      (c : Call) (cs : List Call) (f : Fetcher) → Backed max_age cs f → Backed max_age (c ∷ cs) f
  later-Backed c cs f b = record { age = b.age; entries = λ uri e h. inr (b.entries uri e h) }

  stored :
      (c : Call) (cs : List Call) (f : Fetcher) (contents uri : Bytes) (e : CachedEntry)
      → Backed max_age cs f
      → download c ≡ ok contents
      → lookup uri (insert c.uri (entry_of c f.max_age contents) f.cache) ≡ some e
      → Some (Stored max_age uri e) (c ∷ cs)
  stored c cs f contents uri e b d h = elim (Bool-cases (bytes_eq c.uri uri)) [
    | inl q ↦ inl (
        subst (λ e. Stored max_age uri e c)
          (some_eq (entry_of c f.max_age contents) e
            (if_true _ _ _ (some e) q (sym (lookup-insert c.uri uri _ f.cache) ∙ h)))
          (record {
            asked = (bytes_eq_iff c.uri uri).0 q;
            answered = d;
            at = refl;
            ttl = ap (λ m. ttl_of m c.parse_at (c.next_update contents)) b.age;
          }))
    | inr q ↦
        inr (
          b.entries uri e (if_false _ _ _ (some e) q (sym (lookup-insert c.uri uri _ f.cache) ∙ h)))
  ]

  store-Backed :
      (c : Call) (cs : List Call) (f : Fetcher) (r : Result FetchError Bytes)
      → Backed max_age cs f
      → download c ≡ r
      → Backed max_age (c ∷ cs) (store c f r).1
  store-Backed c cs f (err e) b d = later-Backed c cs f b
  store-Backed c cs f (ok contents) b d = record {
    age = b.age;
    entries = λ uri e h. stored c cs f contents uri e b d h;
  }

  cached-Backed :
      (c : Call) (cs : List Call) (f : Fetcher) (o : Option CachedEntry)
      → Backed max_age cs f
      → Backed max_age (c ∷ cs) (fetch_cached c f o).1
  cached-Backed c cs f none b = store-Backed c cs f (download c) b refl
  cached-Backed c cs f (some e) b = elim (Bool-cases (is_expired c.lookup_at e)) [
    | inl q ↦ rw q (store-Backed c cs f (download c) b refl)
    | inr q ↦ rw q (later-Backed c cs f b)
  ]

  run-Backed : (cs : List Call) → Backed max_age cs (run max_age cs)
  unfolding run fetch new_fetcher lookup
  run-Backed [] = record { age = refl; entries = λ uri e h. ground arith }
  run-Backed (c ∷ cs) = cached-Backed c cs (run max_age cs) _ (run-Backed cs)

  -- An earlier call for the same URI downloaded the list, which is young enough for the call.
  pub record Serves (c : Call) (contents : Bytes) (d : Call) : Type 0 where
    pub asked : d.uri ≡ c.uri
    pub answered : download d ≡ ok contents
    pub young : c.lookup_at ≤ d.store_at + max_age
    pub current :
        (next : ℕ)
        → d.next_update contents ≡ some next
        → c.lookup_at ≤ d.store_at + (next - d.parse_at)

  within : (t now fetched : ℕ) → ltb t (now - fetched) ≡ false → now ≤ fetched + t
  within t now fetched h = ground arith

  ttl_le : (now : ℕ) (o : Option ℕ) → ttl_of max_age now o ≤ max_age
  unfolding ttl_of
  ttl_le now none = omega arith
  ttl_le now (some next) = ground arith

  ttl_le_next : (now next : ℕ) → ttl_of max_age now (some next) ≤ next - now
  unfolding ttl_of
  ttl_le_next now next = ground arith

  Stored-Serves :
      (c d : Call) (e : CachedEntry)
      → is_expired c.lookup_at e ≡ false
      → Stored max_age c.uri e d
      → Serves c e.contents d
  unfolding is_expired
  Stored-Serves c d e x s =
      let w = within e.ttl c.lookup_at e.fetched_at x in
      let l = ttl_le d.parse_at (d.next_update e.contents) in
      record {
        asked = s.asked;
        answered = s.answered;
        young = ground (arith, w, l, s.at, s.ttl);
        current = λ next n.
            let k = ttl_le_next d.parse_at next in
            let q = s.ttl ∙ ap (ttl_of max_age d.parse_at) n in ground (arith, w, k, s.at, q);
      }

  Some-Serves :
      (c : Call) (e : CachedEntry) (cs : List Call)
      → is_expired c.lookup_at e ≡ false
      → Some (Stored max_age c.uri e) cs
      → Some (Serves c e.contents) cs
  Some-Serves c e [] x h = absurd h
  Some-Serves c e (d ∷ cs) x (inl s) = inl (Stored-Serves c d e x s)
  Some-Serves c e (d ∷ cs) x (inr h) = inr (Some-Serves c e cs x h)

  store_answer :
      (c : Call) (f : Fetcher) (contents : Bytes) (r : Result FetchError Bytes)
      → (store c f r).0 ≡ ok contents
      → r ≡ ok contents
  store_answer c f contents (err e) h = h
  store_answer c f contents (ok b) h = h

  cached_answer :
      (c : Call) (cs : List Call) (f : Fetcher) (contents : Bytes) (o : Option CachedEntry)
      → Backed max_age cs f
      → lookup c.uri f.cache ≡ o
      → (fetch_cached c f o).0 ≡ ok contents
      → (download c ≡ ok contents) ⊎ Some (Serves c contents) cs
  cached_answer c cs f contents none b l h = inl (store_answer c f contents (download c) h)
  cached_answer c cs f contents (some e) b l h = elim (Bool-cases (is_expired c.lookup_at e)) [
    | inl q ↦ inl (store_answer c f contents (download c) (if_true_fst _ _ _ (ok contents) q h))
    | inr q ↦ inr (
        subst (λ b. Some (Serves c b) cs)
          (ok_eq e.contents contents (if_false_fst _ _ _ (ok contents) q h))
          (Some-Serves c e cs q (b.entries c.uri e l)))
  ]

  -- After any calls of Fetch, a list that is answered was downloaded by this call, or by an earlier one for the same
  -- URI no longer than the maximal age ago, and no longer ago than the list had until its next update.
  pub fetch-Serves :
      (cs : List Call) (c : Call) (contents : Bytes)
      → (fetch c (run max_age cs)).0 ≡ ok contents
      → (download c ≡ ok contents) ⊎ Some (Serves c contents) cs
  unfolding fetch
  fetch-Serves cs c contents h =
      cached_answer c cs (run max_age cs) contents _ (run-Backed cs) refl h
