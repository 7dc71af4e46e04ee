-- ===== src/Scitt/KeyStore/Tests.antt =====
-- A store with one key, for a codec that takes every text for itself.
use alibaba_ati_golang_sdk.Base.{
  ◌≡◌, refl, true, [], ◌∷◌, List, some, ok, err, Option, Bytes, Result, codes, bytes_eq,
}
use alibaba_ati_golang_sdk.Base.Hex.{decode}
use alibaba_ati_golang_sdk.Base.Map.{Map, lookup}
use alibaba_ati_golang_sdk.Base.Split.{split_n, cut}
use alibaba_ati_golang_sdk.Scitt.KeyStore.{
  KeyCodec, TrustedKey, RefreshableKeyStore, parse_c2sp_key, refresh_if_cooldown_elapsed,
}
use alibaba_ati_golang_sdk.Scitt.KeyStore.Parsing.{IsBound, parse-IsBound}
use alibaba_ati_golang_sdk.Scitt.KeyStore.Refreshing.{Refresh, background, after, after_keeps}

abbrev codec : KeyCodec Bytes
codec = record { base64 = λ s. some s; parse_p256 = λ s. some s; sha256 = λ s. s }

abbrev text : Bytes
text = codes "cnnic+61626364+abcdef"

abbrev key : TrustedKey Bytes
key = record { name = codes "cnnic"; kid = codes "abcd"; key = codes "abcdef" }

parsed : parse_c2sp_key codec text ≡ ok key
unfolding parse_c2sp_key split_n cut decode bytes_eq
parsed = refl

parse-IsBound_example : IsBound codec key
parse-IsBound_example = parse-IsBound codec text key parsed

abbrev store : Map (TrustedKey Bytes)
store = (codes "abcd", key) ∷ []

abbrev refreshable : RefreshableKeyStore Bytes
refreshable = record { cooldown = 300; snapshot = store; last_refreshed = some 100 }

abbrev history : List (Refresh Bytes)
history = background (some (ok (text ∷ []))) 500 ∷ background (some (err (codes "down"))) 400 ∷ []

stored : lookup (codes "abcd") store ≡ some key
unfolding lookup bytes_eq
stored = refl

after_keeps_example : lookup (codes "abcd") (after codec history refreshable).snapshot ≡ some key
after_keeps_example = after_keeps codec history refreshable (codes "abcd") key stored

abbrev answer : Option (Result Bytes (List Bytes))
answer = some (ok (text ∷ []))

performed : (refresh_if_cooldown_elapsed codec answer 400 401 402 refreshable).0 ≡ ok true
unfolding refresh_if_cooldown_elapsed
performed = refl
