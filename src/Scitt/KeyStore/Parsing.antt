-- ===== src/Scitt/KeyStore/Parsing.antt =====
-- What ParseC2SPKey accepts.
use alibaba_ati_golang_sdk.Base.{
  ◌≡◌, refl, List, [], ◌∷◌, Option, none, some, Bytes, ◌==◌, ok, length, take, bytes_eq_iff,
  is_empty, arith, Bool-cases, inl, inr, ==_iff,
}
use alibaba_ati_golang_sdk.Base.Hex.{decode}
use alibaba_ati_golang_sdk.Base.Split.{split_n}
use alibaba_ati_golang_sdk.Scitt.KeyStore.{
  KeyCodec, TrustedKey, strip_type, key_of_der, key_of_spki, key_of_kid, key_of_parts,
  parse_c2sp_key,
}

-- The key's ID is the start of the hash of its encoding, four bytes long, and the key is what the encoding holds.
pub record IsBound {K : Type 0} (c : KeyCodec K) (tk : TrustedKey K) : Type 0 where
  pub der : Bytes
  pub hashed : take 4 (c.sha256 der) ≡ tk.kid
  pub held : c.parse_p256 der ≡ some tk.key
  pub size : length tk.kid ≡ 4

module _ {K : Type 0} (c : KeyCodec K) where
  der-IsBound :
      (name kid der : Bytes) (k : Option K) (tk : TrustedKey K)
      → length kid ≡ 4
      → c.parse_p256 der ≡ k
      → key_of_der c name kid der k ≡ ok tk
      → IsBound c tk
  der-IsBound name kid der none tk l e h = ground arith
  der-IsBound name kid der (some k) tk l e h = record {
    der = der;
    hashed = ground (arith, bytes_eq_iff (take 4 (c.sha256 der)) kid);
    held = ground arith;
    size = ground arith;
  }

  spki-IsBound :
      (name kid : Bytes) (raw : Option Bytes) (tk : TrustedKey K)
      → length kid ≡ 4
      → key_of_spki c name kid raw ≡ ok tk
      → IsBound c tk
  spki-IsBound name kid none tk l h = ground arith
  spki-IsBound name kid (some raw) tk l h =
      der-IsBound name kid (strip_type raw) (c.parse_p256 (strip_type raw)) tk l refl h

  kid-IsBound :
      (name spki : Bytes) (kid : Option Bytes) (tk : TrustedKey K)
      → key_of_kid c name spki kid ≡ ok tk
      → IsBound c tk
  kid-IsBound name spki none tk h = ground arith
  kid-IsBound name spki (some kid) tk h = elim (Bool-cases (length kid == 4)) [
    | inl e ↦ spki-IsBound name kid (c.base64 spki) tk ((==_iff (length kid) 4).0 e) (rw e at h)
    | inr e ↦ ground arith
  ]

  parts-IsBound : (ps : List Bytes) (tk : TrustedKey K) → key_of_parts c ps ≡ ok tk → IsBound c tk
  parts-IsBound [] tk h = ground arith
  parts-IsBound (a ∷ []) tk h = ground arith
  parts-IsBound (a ∷ b ∷ []) tk h = ground arith
  parts-IsBound (name ∷ kid ∷ spki ∷ []) tk h = elim (Bool-cases (is_empty name)) [
    | inl e ↦ ground arith
    | inr e ↦ kid-IsBound name spki (decode kid) tk (rw e at h)
  ]
  parts-IsBound (a ∷ b ∷ d ∷ e ∷ ps) tk h = ground arith

  -- A key that is parsed is bound to its ID: the ID is the first four bytes of the hash of an encoding that
  -- holds the key.
  pub parse-IsBound : (s : Bytes) (tk : TrustedKey K) → parse_c2sp_key c s ≡ ok tk → IsBound c tk
  unfolding parse_c2sp_key
  parse-IsBound s tk h = parts-IsBound (split_n b'+' 3 s) tk h
