-- ===== src/Scitt/KeyStore.antt =====
-- verify/scitt/root_keys.go and the refresh of verify/scitt/refreshable_key_store.go: the trusted keys. Base64,
-- the parser of public keys and SHA-256 are parameters, over any type of keys.
pub mod Parsing
pub mod Merging
pub mod Refreshing
mod Tests
use alibaba_ati_golang_sdk.Base.{
  ℕ, zero, suc, ◌+◌, ◌≡◌, Bool, true, false, List, [], ◌∷◌, ◌++◌, Option, none, some, Bytes, ltb,
  ◌==◌, if◌then◌else◌, Result, ok, err, length, take, bytes_eq, is_empty,
}
use alibaba_ati_golang_sdk.Base.Hex.{encode, decode}
use alibaba_ati_golang_sdk.Base.Map.{Map, lookup, insert}
use alibaba_ati_golang_sdk.Base.Split.{split_n}

-- base64.StdEncoding.DecodeString; x509.ParsePKIXPublicKey with the tests for a key on P-256; sha256.Sum256.
pub record KeyCodec (K : Type 0) : Type 0 where
  pub base64 : Bytes → Option Bytes
  pub parse_p256 : Bytes → Option K
  pub sha256 : Bytes → Bytes

pub record TrustedKey (K : Type 0) : Type 0 where
  pub name : Bytes
  pub kid : Bytes
  pub key : K

pub data KeyError : Type 0 where
  part_count empty_name bad_kid kid_length bad_base64 bad_public_key hash_mismatch unknown_key_id :
      KeyError
  duplicate_key_id : Bytes → KeyError

pub record MergeResult : Type 0 where
  pub added : ℕ
  pub skipped : ℕ
  pub skipped_unparseable : ℕ
  pub skipped_duplicate : ℕ
  pub collisions : List Bytes

abbrev pub no_result : MergeResult
no_result = record {
  added = 0;
  skipped = 0;
  skipped_unparseable = 0;
  skipped_duplicate = 0;
  collisions = [];
}

-- The type byte of C2SP is dropped if it is there.
abbrev pub strip_type : Bytes → Bytes
strip_type [] = []
strip_type (b ∷ bs) = if b == 2 then bs else b ∷ bs

module _ {K : Type 0} (c : KeyCodec K) where
  abbrev pub key_of_der : Bytes → Bytes → Bytes → Option K → Result KeyError (TrustedKey K)
  key_of_der name kid der none = err bad_public_key
  key_of_der name kid der (some key) =
      if bytes_eq (take 4 (c.sha256 der)) kid
      then ok (record { name = name; kid = kid; key = key })
      else err hash_mismatch

  abbrev pub key_of_spki : Bytes → Bytes → Option Bytes → Result KeyError (TrustedKey K)
  key_of_spki name kid none = err bad_base64
  key_of_spki name kid (some raw) =
      key_of_der name kid (strip_type raw) (c.parse_p256 (strip_type raw))

  abbrev pub key_of_kid : Bytes → Bytes → Option Bytes → Result KeyError (TrustedKey K)
  key_of_kid name spki none = err bad_kid
  key_of_kid name spki (some kid) =
      if length kid == 4 then key_of_spki name kid (c.base64 spki) else err kid_length

  abbrev pub key_of_parts : List Bytes → Result KeyError (TrustedKey K)
  key_of_parts (name ∷ kid ∷ spki ∷ []) =
      if is_empty name then err empty_name else key_of_kid name spki (decode kid)
  key_of_parts _ = err part_count

  unfoldable pub parse_c2sp_key : Bytes → Result KeyError (TrustedKey K)
  parse_c2sp_key s = key_of_parts (split_n b'+' 3 s)

  abbrev pub merge_key :
      TrustedKey K
      → Option (TrustedKey K)
      → Map (TrustedKey K)
      → MergeResult
      → Map (TrustedKey K) × MergeResult
  merge_key tk none m r = (insert tk.kid tk m, record r { added = suc r.added })
  merge_key tk (some existing) m r = (
    m,
    record r {
      skipped = suc r.skipped;
      skipped_duplicate = suc r.skipped_duplicate;
      collisions =
          if bytes_eq existing.name tk.name
          then r.collisions
          else r.collisions ++ encode tk.kid ∷ [];
    },
  )

  -- The body of the loop of MergeFrom.
  abbrev pub merge_one :
      Result KeyError (TrustedKey K)
      → Map (TrustedKey K)
      → MergeResult
      → Map (TrustedKey K) × MergeResult
  merge_one (err e) m r =
      (m, record r { skipped = suc r.skipped; skipped_unparseable = suc r.skipped_unparseable })
  merge_one (ok tk) m r = merge_key tk (lookup tk.kid m) m r

  unfoldable pub merge_loop :
      List Bytes → Map (TrustedKey K) → MergeResult → Map (TrustedKey K) × MergeResult
  merge_loop [] m r = (m, r)
  merge_loop (s ∷ ss) m r =
      merge_loop ss (merge_one (parse_c2sp_key s) m r).0 (merge_one (parse_c2sp_key s) m r).1

  -- The method MergeFrom; a KeyStore is its map of keys.
  unfoldable pub merge_from : List Bytes → Map (TrustedKey K) → Map (TrustedKey K) × MergeResult
  merge_from keys store = merge_loop keys store no_result

  abbrev new_key :
      Map (TrustedKey K) → Result KeyError (TrustedKey K) → Result KeyError (Map (TrustedKey K))
  new_key m (err e) = err e
  new_key m (ok tk) = elim (lookup tk.kid m) [
    | none ↦ ok (insert tk.kid tk m)
    | some k ↦ err (duplicate_key_id tk.kid)
  ]

  new_loop :
      List Bytes → Result KeyError (Map (TrustedKey K)) → Result KeyError (Map (TrustedKey K))
  new_loop [] m = m
  new_loop (s ∷ ss) (err e) = err e
  new_loop (s ∷ ss) (ok m) = new_loop ss (new_key m (parse_c2sp_key s))

  unfoldable pub new_key_store : List Bytes → Result KeyError (Map (TrustedKey K))
  unfolding new_loop
  new_key_store keys = new_loop keys (ok [])

module _ {K : Type 0} where
  abbrev found : Option (TrustedKey K) → Result KeyError (TrustedKey K)
  found none = err unknown_key_id
  found (some tk) = ok tk

  unfoldable pub get_key : Bytes → Map (TrustedKey K) → Result KeyError (TrustedKey K)
  get_key kid m = found (lookup kid m)

pub record RefreshableKeyStore (K : Type 0) : Type 0 where
  pub cooldown : ℕ
  pub snapshot : Map (TrustedKey K)
  pub last_refreshed : Option ℕ

-- r.clock().Sub(*lr) < r.cooldown
abbrev pub within_cooldown : ℕ → Option ℕ → ℕ → Bool
within_cooldown now none cooldown = false
within_cooldown now (some t) cooldown = ltb now (t + cooldown)

module _ {K E : Type 0} (c : KeyCodec K) where
  -- The method DoRefresh, on what the client answers, and the time at which the keys were merged; none is
  -- the static mode, in which there is no client.
  unfoldable pub do_refresh :
      Option (Result E (List Bytes))
      → ℕ
      → RefreshableKeyStore K
      → Result E (Unit {0}) × RefreshableKeyStore K
  do_refresh none now r = (ok tt, r)
  do_refresh (some (err e)) now r = (err e, r)
  do_refresh (some (ok keys)) now r =
      (ok tt, record r { snapshot = (merge_from c keys r.snapshot).0; last_refreshed = some now })

  abbrev performed :
      Result E (Unit {0}) × RefreshableKeyStore K → Result E Bool × RefreshableKeyStore K
  performed (ok u, r) = (ok true, r)
  performed (err e, r) = (err e, r)

  -- RefreshIfCooldownElapsed of a caller that no other refresh overtakes; its two tests read the clock each.
  unfoldable pub refresh_if_cooldown_elapsed :
      Option (Result E (List Bytes))
      → ℕ
      → ℕ
      → ℕ
      → RefreshableKeyStore K
      → Result E Bool × RefreshableKeyStore K
  unfolding do_refresh
  refresh_if_cooldown_elapsed none check_at recheck_at now r = (ok false, r)
  refresh_if_cooldown_elapsed (some answer) check_at recheck_at now r =
      if within_cooldown check_at r.last_refreshed r.cooldown
      then (ok false, r)
      else if within_cooldown recheck_at r.last_refreshed r.cooldown
      then (ok false, r)
      else performed (do_refresh (some answer) now r)
