-- ===== src/Scitt/TokenCache.antt =====
-- `StatusTokenCache` of verify/scitt/cache.go. An entry expires when the token that it holds does. The
-- clock, in seconds since the epoch, is an argument of `get`.
pub mod Claims
use alibaba_ati_golang_sdk.Base.{ℕ, Option, none, some, Bytes, length, if◌then◌else◌}
use alibaba_ati_golang_sdk.Base.Int.{ℤ, lt_int}
use alibaba_ati_golang_sdk.Base.Map.{lookup}
use alibaba_ati_golang_sdk.Fifo
use alibaba_ati_golang_sdk.Fifo.{Fifo, put}
use alibaba_ati_golang_sdk.Scitt.Types.{VerifiedStatusToken}

pub record TokenEntry : Type 0 where
  pub token : VerifiedStatusToken
  pub expires_at : ℤ

pub record StatusTokenCache : Type 0 where
  pub fifo : Fifo TokenEntry
  pub max_entries : ℕ

unfoldable pub new_status_token_cache : ℕ → StatusTokenCache
new_status_token_cache max_entries = record { fifo = Fifo.empty; max_entries = max_entries }

-- What `Get` makes of the entry that it finds; `none` is the result `nil, false`.
abbrev pub answer : ℤ → Option TokenEntry → Option VerifiedStatusToken
answer now none = none
answer now (some e) = if lt_int e.expires_at now then none else some e.token

pub get : ℤ → Bytes → StatusTokenCache → Option VerifiedStatusToken
get now agent_id c = answer now (lookup agent_id c.fifo.entries)

pub insert : Bytes → VerifiedStatusToken → StatusTokenCache → StatusTokenCache
insert agent_id token c = record c {
  fifo =
      put c.max_entries agent_id (record { token = token; expires_at = token.payload.exp }) c.fifo;
}

pub invalidate : Bytes → StatusTokenCache → StatusTokenCache
invalidate agent_id c = record c { fifo = Fifo.invalidate agent_id c.fifo }

pub len : StatusTokenCache → ℕ
len c = length c.fifo.entries
