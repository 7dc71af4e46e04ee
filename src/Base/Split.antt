-- ===== src/Base/Split.antt =====
-- strings.Split and strings.TrimSuffix at one byte, and the decimal notation of strconv and fmt.
use alibaba_ati_golang_sdk.Base.{
  ℕ, zero, suc, ◌+◌, ◌-◌, ◌*◌, ◌/◌, ◌%◌, ◌^◌, ◌≤◌, ◌<◌, ◌≡◌, refl, ◌∙◌, ap, Bool, true, false, ◌&&◌,
  List, [], ◌∷◌, ◌++◌, Option, none, some, arith, Bytes, leb, ltb, ◌==◌, if◌then◌else◌,
  contains_byte, Bool-cases, bytes_eq, bytes_eq_iff, bytes_eq_refl, length, length-append, ◌↔◌, inl,
  inr, ltb→lt, ltb_false→le, lt→ltb,
}

-- A byte in front of the first part.
abbrev pub cons_head : ℕ → List Bytes → List Bytes
cons_head x [] = (x ∷ []) ∷ []
cons_head x (p ∷ ps) = (x ∷ p) ∷ ps

-- strings.Split(s, string(c))
unfoldable pub split : ℕ → Bytes → List Bytes
split c [] = [] ∷ []
split c (x ∷ xs) = let rest = split c xs in if x == c then [] ∷ rest else cons_head x rest

-- strings.TrimSuffix(s, string(c))
unfoldable pub trim_suffix : ℕ → Bytes → Bytes
trim_suffix c [] = []
trim_suffix c (x ∷ []) = if x == c then [] else x ∷ []
trim_suffix c (x ∷ y ∷ r) = x ∷ trim_suffix c (y ∷ r)

pub split_free : (c : ℕ) (s : Bytes) → contains_byte c s ≡ false → split c s ≡ s ∷ []
unfolding split contains_byte
split_free c [] h = refl
split_free c (x ∷ xs) h = ground (arith, split_free c xs)

pub split-append :
    (c : ℕ) (s r : Bytes) → contains_byte c s ≡ false → split c (s ++ c ∷ r) ≡ s ∷ split c r
unfolding split contains_byte
split-append c [] r h = ground arith
split-append c (x ∷ xs) r h = ground (arith, split-append c xs r)

is_digit : ℕ → Bool
is_digit c = leb b'0' c && leb c b'9'

digits_from : ℕ → Bytes → Option ℕ
unfolding is_digit
digits_from acc [] = some acc
digits_from acc (c ∷ cs) = if is_digit c then digits_from (acc * 10 + (c - b'0')) cs else none

-- strconv.ParseUint(s, 10, 32)
unfoldable pub parse_uint32 : Bytes → Option ℕ
unfolding digits_from
parse_uint32 [] = none
parse_uint32 (c ∷ cs) = elim (digits_from 0 (c ∷ cs)) [
  | none ↦ none
  | some n ↦ if ltb n (2 ^ 32) then some n else none
]

decimal_from : ℕ → ℕ → Bytes
decimal_from zero n = []
decimal_from (suc k) n =
    let front = decimal_from k (n / 10) in
    if ltb n 10 then (b'0' + n) ∷ [] else front ++ (b'0' + n % 10) ∷ []

-- The verb %d; as many rounds as the number is large are enough.
unfoldable pub decimal : ℕ → Bytes
unfolding decimal_from
decimal n = decimal_from (suc n) n

digits-snoc :
    (acc : ℕ) (s : Bytes) (c v : ℕ)
    → is_digit c ≡ true
    → digits_from acc s ≡ some v
    → digits_from acc (s ++ c ∷ []) ≡ some (v * 10 + (c - b'0'))
unfolding digits_from
digits-snoc acc [] c v d h = ground arith
digits-snoc acc (x ∷ xs) c v d h = ground (arith, digits-snoc (acc * 10 + (x - b'0')) xs c v d)

digits-decimal : (k n : ℕ) → n < k → digits_from 0 (decimal_from k n) ≡ some n
unfolding decimal_from
digits-decimal zero n h = elim h [ ]
digits-decimal (suc k) n h = elim (Bool-cases (ltb n 10)) [
  | inl small ↦
      let le : n < 10 = ltb→lt n 10 small in rw small (unfold digits_from is_digit in ground arith)
  | inr large ↦
      let ge : 10 ≤ n = ltb_false→le n 10 large in
      rw large (
        digits-snoc 0 (decimal_from k (n / 10)) (b'0' + n % 10) (n / 10)
          (unfold is_digit in ground arith) (digits-decimal k (n / 10) (omega arith))
        ∙ ap some (omega arith))
]

decimal_nonempty : (k n : ℕ) → n < k → (c : ℕ) × (cs : Bytes) × (decimal_from k n ≡ c ∷ cs)
unfolding decimal_from
decimal_nonempty zero n h = elim h [ ]
decimal_nonempty (suc k) n h = elim (Bool-cases (ltb n 10)) [
  | inl small ↦ (b'0' + n, [], rw small refl)
  | inr large ↦
      let ge : 10 ≤ n = ltb_false→le n 10 large in
      let (c, cs, e) = decimal_nonempty k (n / 10) (omega arith) in
      (c, cs ++ (b'0' + n % 10) ∷ [], rw (large, e) refl)
]

parse_of_digits :
    (c : ℕ) (cs : Bytes) (n : ℕ)
    → digits_from 0 (c ∷ cs) ≡ some n
    → n < 2 ^ 32
    → parse_uint32 (c ∷ cs) ≡ some n
unfolding parse_uint32
parse_of_digits c cs n d h = rw (d, parse_uint32) (rw (lt→ltb n (2 ^ 32) h) refl)

-- What is printed is read back.
pub parse-decimal : (n : ℕ) → n < 2 ^ 32 → parse_uint32 (decimal n) ≡ some n
unfolding decimal
parse-decimal n h =
    let (c, cs, e) = decimal_nonempty (suc n) n (omega arith) in
    let d : digits_from 0 (c ∷ cs) ≡ some n = rw e at (digits-decimal (suc n) n (omega arith)) in
    rw e (parse_of_digits c cs n d h)

contains-append :
    (c : ℕ) (s r : Bytes)
    → contains_byte c s ≡ false
    → contains_byte c r ≡ false
    → contains_byte c (s ++ r) ≡ false
unfolding contains_byte
contains-append c [] r h k = k
contains-append c (x ∷ xs) r h k = ground (arith, contains-append c xs r)

no_dot_from : (k n : ℕ) → contains_byte b'.' (decimal_from k n) ≡ false
unfolding decimal_from
no_dot_from zero n = unfold contains_byte in refl
no_dot_from (suc k) n = elim (Bool-cases (ltb n 10)) [
  | inl small ↦ rw small (unfold contains_byte in ground arith)
  | inr large ↦ rw large (
      contains-append b'.' (decimal_from k (n / 10)) _ (no_dot_from k (n / 10))
        (unfold contains_byte in ground arith))
]

pub no_dot-decimal : (n : ℕ) → contains_byte b'.' (decimal n) ≡ false
unfolding decimal
no_dot-decimal n = no_dot_from (suc n) n

abbrev cons_before : ℕ → Option (Bytes × Bytes) → Option (Bytes × Bytes)
cons_before x none = none
cons_before x (some (a, b)) = some (x ∷ a, b)

-- strings.Cut(s, string(c)): what stands before and after the first occurrence.
unfoldable pub cut : ℕ → Bytes → Option (Bytes × Bytes)
cut c [] = none
cut c (x ∷ xs) = let rest = cut c xs in if x == c then some ([], xs) else cons_before x rest

-- strings.SplitN(s, string(c), n), for n ≥ 1: the last part is not split.
unfoldable pub split_n : ℕ → ℕ → Bytes → List Bytes
split_n c zero s = []
split_n c (suc zero) s = s ∷ []
split_n c (suc (suc n)) s = elim (cut c s) [ none ↦ s ∷ [] | some (a, b) ↦ a ∷ split_n c (suc n) b ]

abbrev pub cons_some : ℕ → Option Bytes → Option Bytes
cons_some x none = none
cons_some x (some s) = some (x ∷ s)

-- strings.CutSuffix: what stands before the suffix, if it is there.
unfoldable pub cut_suffix : Bytes → Bytes → Option Bytes
unfolding bytes_eq
cut_suffix [] suffix = if bytes_eq [] suffix then some [] else none
cut_suffix (x ∷ xs) suffix =
    let rest = cut_suffix xs suffix in
    if bytes_eq (x ∷ xs) suffix then some [] else cons_some x rest

cut_suffix_sound : (s suffix p : Bytes) → cut_suffix s suffix ≡ some p → s ≡ p ++ suffix
unfolding cut_suffix
cut_suffix_sound [] suffix p h = ground (arith, bytes_eq_iff [] suffix)
cut_suffix_sound (x ∷ xs) suffix [] h = ground (arith, bytes_eq_iff (x ∷ xs) suffix)
cut_suffix_sound (x ∷ xs) suffix (y ∷ p) h =
    ground (arith, bytes_eq_iff (x ∷ xs) suffix, cut_suffix_sound xs suffix p)

cut_suffix_complete : (p suffix : Bytes) → cut_suffix (p ++ suffix) suffix ≡ some p
unfolding cut_suffix
cut_suffix_complete [] [] = refl
cut_suffix_complete [] (x ∷ suffix) = ground (arith, bytes_eq_refl (x ∷ suffix))
cut_suffix_complete (y ∷ p) suffix = elim (Bool-cases (bytes_eq (y ∷ (p ++ suffix)) suffix)) [
  | inl e ↦
      let same : y ∷ (p ++ suffix) ≡ suffix = (bytes_eq_iff (y ∷ (p ++ suffix)) suffix).0 e in
      absurd (omega (arith, ap length same, length-append p suffix))
  | inr e ↦ ground (arith, cut_suffix_complete p suffix)
]

pub cut_suffix_iff : (s suffix p : Bytes) → (cut_suffix s suffix ≡ some p) ↔ (s ≡ p ++ suffix)
cut_suffix_iff s suffix p = (cut_suffix_sound s suffix p, λ e. rw e (cut_suffix_complete p suffix))

pub cut-append :
    (c : ℕ) (s r : Bytes) → contains_byte c s ≡ false → cut c (s ++ c ∷ r) ≡ some (s, r)
unfolding cut contains_byte
cut-append c [] r h = ground arith
cut-append c (x ∷ xs) r h = ground (arith, cut-append c xs r)

split_n_step :
    (c n : ℕ) (s a b : Bytes)
    → cut c s ≡ some (a, b)
    → split_n c (suc (suc n)) s ≡ a ∷ split_n c (suc n) b
unfolding split_n
split_n_step c n s a b h = rw (h, split_n) refl

pub split_n_four :
    (c : ℕ) (a b d r : Bytes)
    → contains_byte c a ≡ false
    → contains_byte c b ≡ false
    → contains_byte c d ≡ false
    → split_n c 4 (a ++ c ∷ (b ++ c ∷ (d ++ c ∷ r))) ≡ a ∷ b ∷ d ∷ r ∷ []
unfolding split_n
split_n_four c a b d r h i j =
    split_n_step c 2 _ _ _ (cut-append c a (b ++ c ∷ (d ++ c ∷ r)) h)
    ∙ ap (λ t. a ∷ t) (split_n_step c 1 _ _ _ (cut-append c b (d ++ c ∷ r) i))
    ∙ ap (λ t. a ∷ b ∷ t) (split_n_step c 0 _ _ _ (cut-append c d r j))
