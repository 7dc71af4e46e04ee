-- ===== src/Base/Int.antt =====
-- Go's signed integers: `negsuc n` is -(n + 1).
use alibaba_ati_golang_sdk.Base.{ℕ, suc, ◌+◌, ◌-◌, Bool, true, false, ltb, leb, ◌==◌, if◌then◌else◌}

pub data ℤ : Type 0 where
  pos : ℕ → ℤ
  negsuc : ℕ → ℤ

abbrev pub pos_part : ℤ → ℕ
pos_part (pos n) = n
pos_part (negsuc n) = 0

abbrev pub neg_part : ℤ → ℕ
neg_part (pos n) = 0
neg_part (negsuc n) = suc n

-- a < b and a <= b
abbrev pub lt_int : ℤ → ℤ → Bool
lt_int a b = ltb (pos_part a + neg_part b) (pos_part b + neg_part a)

abbrev pub le_int : ℤ → ℤ → Bool
le_int a b = leb (pos_part a + neg_part b) (pos_part b + neg_part a)

-- a + n, for a count n.
abbrev pub add_nat : ℤ → ℕ → ℤ
add_nat (pos m) n = pos (m + n)
add_nat (negsuc m) n = elim (leb (suc m) n) [ true ↦ pos (n - suc m) | false ↦ negsuc m ]

abbrev pub int_eq : ℤ → ℤ → Bool
int_eq (pos m) (pos n) = m == n
int_eq (negsuc m) (negsuc n) = m == n
int_eq (pos m) (negsuc n) = false
int_eq (negsuc m) (pos n) = false

-- a + n in int64, for a count n below 2 ^ 63: the sum wraps around.
abbrev pub add_nat64 : ℤ → ℕ → ℤ
add_nat64 (negsuc m) n = add_nat (negsuc m) n
add_nat64 (pos m) n =
    if ltb (m + n) 9223372036854775808 then pos (m + n) else negsuc (18446744073709551615 - (m + n))
