-- ===== src/Scitt/ReceiptCache.antt =====
-- `ReceiptCache` of verify/scitt/cache.go, over any type of receipts. The clock is an argument of the
-- operations that read it. Instants and durations are counts of nanoseconds; a negative bound on the
-- number of entries behaves as 0.
pub mod Claims
use alibaba_ati_golang_sdk.Base.{
  ℕ, ◌+◌, Option, none, some, List, [], ◌∷◌, Bytes, length, ltb, if◌then◌else◌,
}
use alibaba_ati_golang_sdk.Base.Map.{lookup}
use alibaba_ati_golang_sdk.Fifo.{Fifo, put}
use alibaba_ati_golang_sdk.Fifo

pub record ReceiptEntry (R : Type 0) : Type 0 where
  pub receipt : R
  pub expires_at : ℕ

pub record ReceiptCache (R : Type 0) : Type 0 where
  pub fifo : Fifo (ReceiptEntry R)
  pub ttl : ℕ
  pub max_entries : ℕ

module _ {R : Type 0} where
  pub new_receipt_cache : ℕ → ℕ → ReceiptCache R
  new_receipt_cache ttl max_entries = record {
    fifo = Fifo.empty;
    ttl = ttl;
    max_entries = max_entries;
  }

  abbrev fresh : ℕ → ReceiptEntry R → Option R
  fresh now entry = if ltb entry.expires_at now then none else some entry.receipt

  -- What `Get` makes of the entry that it finds; `none` is the result `nil, false`.
  abbrev pub answer : ℕ → Option (ReceiptEntry R) → Option R
  answer now none = none
  answer now (some e) = fresh now e

  pub get : ℕ → Bytes → ReceiptCache R → Option R
  get now agent_id c = answer now (lookup agent_id c.fifo.entries)

  pub insert : ℕ → Bytes → R → ReceiptCache R → ReceiptCache R
  insert now agent_id receipt c = record c {
    fifo =
        put c.max_entries agent_id (record { receipt = receipt; expires_at = now + c.ttl }) c.fifo;
  }

  pub invalidate : Bytes → ReceiptCache R → ReceiptCache R
  invalidate agent_id c = record c { fifo = Fifo.invalidate agent_id c.fifo }

  pub len : ReceiptCache R → ℕ
  len c = length c.fifo.entries
