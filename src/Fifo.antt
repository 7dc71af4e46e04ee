-- ===== src/Fifo.antt =====
-- The part that `ReceiptCache` and `StatusTokenCache` of verify/scitt/cache.go have in common: a map
-- with a queue of the keys in the order of their insertion, and eviction from its front.
pub mod Refine
pub mod Eviction
mod Tests
use alibaba_ati_golang_sdk.Base.{
  ℕ, zero, suc, ◌-◌, List, [], ◌∷◌, ◌++◌, Bytes, bytes_eq, length, leb, if◌then◌else◌,
}
use alibaba_ati_golang_sdk.Base.Map.{Map, lookup, insert, remove, has_key}

pub record Fifo (V : Type 0) : Type 0 where
  pub entries : Map V
  pub insert_order : List Bytes

-- `removeFromOrderLocked`: the first occurrence.
unfoldable pub remove_from_order : Bytes → List Bytes → List Bytes
remove_from_order id [] = []
remove_from_order id (k ∷ order) = if bytes_eq k id then order else k ∷ remove_from_order id order

module _ {V : Type 0} where
  abbrev pub empty : Fifo V
  empty = record { entries = []; insert_order = [] }

  -- The loop of `evictLocked`, over the number of entries to remove.
  pub evict_loop : ℕ → List Bytes → Map V → Fifo V
  evict_loop zero order entries = record { entries = entries; insert_order = order }
  evict_loop (suc n) [] entries = record { entries = entries; insert_order = [] }
  evict_loop (suc n) (oldest ∷ order) entries = evict_loop n order (remove oldest entries)

  unfoldable pub evict_locked : ℕ → Fifo V → Fifo V
  unfolding evict_loop remove
  evict_locked max_entries c =
      if leb (length c.entries) max_entries
      then c
      else evict_loop (length c.entries - max_entries) c.insert_order c.entries

  -- `Insert`, from the test for the key on.
  unfoldable pub put : ℕ → Bytes → V → Fifo V → Fifo V
  unfolding evict_locked has_key insert
  put max_entries id e c = evict_locked max_entries (record {
    entries = insert id e c.entries;
    insert_order = if has_key id c.entries then c.insert_order else c.insert_order ++ id ∷ [];
  })

  unfoldable pub invalidate : Bytes → Fifo V → Fifo V
  unfolding remove_from_order has_key remove
  invalidate id c =
      if has_key id c.entries
      then record {
        entries = remove id c.entries;
        insert_order = remove_from_order id c.insert_order;
      }
      else c
