-- ===== src/Scitt/KeyStore/Refreshing.antt =====
-- What the refreshes of a key store do over time.
use alibaba_ati_golang_sdk.Base.{
  ℕ, ◌+◌, ◌≤◌, ◌≡◌, refl, Bool, true, false, List, [], ◌∷◌, Option, none, some, Bytes, Result, ok,
  err, ltb_false→le, arith, Bool-cases, inl, inr,
}
use alibaba_ati_golang_sdk.Base.Map.{lookup}
use alibaba_ati_golang_sdk.Scitt.KeyStore.{
  KeyCodec, TrustedKey, RefreshableKeyStore, do_refresh, refresh_if_cooldown_elapsed,
  within_cooldown,
}
use alibaba_ati_golang_sdk.Scitt.KeyStore.Merging.{merge-lookup}

-- One refresh: in the background or on demand, with what the client answers and the times that it reads.
pub data Refresh (E : Type 0) : Type 0 where
  background : Option (Result E (List Bytes)) → ℕ → Refresh E
  on_demand : Option (Result E (List Bytes)) → ℕ → ℕ → ℕ → Refresh E

module _ {K E : Type 0} (c : KeyCodec K) where
  abbrev pub refreshed : Refresh E → RefreshableKeyStore K → RefreshableKeyStore K
  refreshed (background answer now) r = (do_refresh c answer now r).1
  refreshed (on_demand answer check_at recheck_at now) r =
      (refresh_if_cooldown_elapsed c answer check_at recheck_at now r).1

  -- The refreshes of a history, the last one first.
  abbrev pub after : List (Refresh E) → RefreshableKeyStore K → RefreshableKeyStore K
  after [] r = r
  after (x ∷ xs) r = refreshed x (after xs r)

  do_refresh_keeps :
      (answer : Option (Result E (List Bytes))) (now : ℕ) (r : RefreshableKeyStore K) (k : Bytes)
      (tk : TrustedKey K)
      → lookup k r.snapshot ≡ some tk
      → lookup k (do_refresh c answer now r).1.snapshot ≡ some tk
  unfolding do_refresh
  do_refresh_keeps none now r k tk h = h
  do_refresh_keeps (some (err e)) now r k tk h = h
  do_refresh_keeps (some (ok keys)) now r k tk h = (merge-lookup c keys r.snapshot k tk).0 h

  on_demand_keeps :
      (answer : Option (Result E (List Bytes))) (check_at recheck_at now : ℕ)
      (r : RefreshableKeyStore K) (k : Bytes) (tk : TrustedKey K)
      → lookup k r.snapshot ≡ some tk
      → lookup k (refresh_if_cooldown_elapsed c answer check_at recheck_at now r).1.snapshot
        ≡ some tk
  unfolding refresh_if_cooldown_elapsed
  on_demand_keeps none check_at recheck_at now r k tk h = h
  on_demand_keeps (some (err e)) check_at recheck_at now r k tk h = ground arith
  on_demand_keeps (some (ok keys)) check_at recheck_at now r k tk h =
      elim (Bool-cases (within_cooldown check_at r.last_refreshed r.cooldown)) [
        | inl a ↦ rw a h
        | inr a ↦ elim (Bool-cases (within_cooldown recheck_at r.last_refreshed r.cooldown)) [
          | inl b ↦ rw (a, b) h
          | inr b ↦ rw (a, b) ((merge-lookup c keys r.snapshot k tk).0 h)
        ]
      ]

  -- A key that the store has, under its ID, stays there with the same name and the same value through every
  -- history of refreshes, whatever the client answers.
  pub after_keeps :
      (history : List (Refresh E)) (r : RefreshableKeyStore K) (k : Bytes) (tk : TrustedKey K)
      → lookup k r.snapshot ≡ some tk
      → lookup k (after history r).snapshot ≡ some tk
  after_keeps [] r k tk h = h
  after_keeps (background answer now ∷ xs) r k tk h =
      do_refresh_keeps answer now (after xs r) k tk (after_keeps xs r k tk h)
  after_keeps (on_demand answer check_at recheck_at now ∷ xs) r k tk h =
      on_demand_keeps answer check_at recheck_at now (after xs r) k tk (after_keeps xs r k tk h)

  -- An on-demand refresh that says it was performed had a client, ran no sooner than the cooldown after the last
  -- refresh, if there was one, and left its own time as that of the last refresh.
  pub refresh_cooldown :
      (answer : Option (Result E (List Bytes))) (check_at recheck_at now last : ℕ)
      (r : RefreshableKeyStore K)
      → (refresh_if_cooldown_elapsed c answer check_at recheck_at now r).0 ≡ ok true
      → ((r.last_refreshed ≡ some last → last + r.cooldown ≤ recheck_at)
          × ((refresh_if_cooldown_elapsed c answer check_at recheck_at now r).1.last_refreshed
              ≡ some now))
  unfolding refresh_if_cooldown_elapsed
  refresh_cooldown none check_at recheck_at now last r h = ground arith
  refresh_cooldown (some (err e)) check_at recheck_at now last r h = ground arith
  refresh_cooldown (some (ok keys)) check_at recheck_at now last r h =
      elim (Bool-cases (within_cooldown check_at r.last_refreshed r.cooldown)) [
        | inl a ↦ let k : Path (Result E Bool) (ok false) (ok true) = rw a at h in ground arith
        | inr a ↦ elim (Bool-cases (within_cooldown recheck_at r.last_refreshed r.cooldown)) [
          | inl b ↦
              let k : Path (Result E Bool) (ok false) (ok true) = rw (a, b) at h in ground arith
          | inr b ↦ (λ e. ltb_false→le recheck_at (last + r.cooldown) (rw e at b), rw (a, b) refl)
        ]
      ]
