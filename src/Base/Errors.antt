-- ===== src/Base/Errors.antt =====
-- Go's pair of a value and an error: a value or an error, and never both.
use mathlib.Core.Path.{◌≡◌, refl, ap}
use mathlib.Core.Logic.{◌⊎◌, inl, inr}
use mathlib.Core.Bool.{Bool, true, false, not}
use mathlib.Core.Option.{Option, none, some}
use native.Mathlib.Omega.{arith}

pub data Result {ℓ} (E A : Type ℓ) : Type ℓ where
  ok : A → Result E A
  err : E → Result E A

infixl 5 ◌>>=◌
abbrev pub ◌>>=◌ {ℓ} : {E A B : Type ℓ} → Result E A → (A → Result E B) → Result E B
ok a >>= f = f a
err e >>= f = err e

pub Result-cases {ℓ} :
    {E A : Type ℓ} (r : Result E A) → ((a : A) × (r ≡ ok a)) ⊎ ((e : E) × (r ≡ err e))
Result-cases (ok a) = inl (a, refl)
Result-cases (err e) = inr (e, refl)

module _ {ℓ} {E A : Type ℓ} where
  abbrev err_or : E → Result E A → E
  err_or d (ok x) = d
  err_or d (err e) = e

  pub err_eq : (a b : E) → Path (Result E A) (err a) (err b) → a ≡ b
  err_eq a b h = ap (err_or a) h

-- The two forms of `if ... { return nil, e }`.
unfoldable pub ensure {ℓ} : {E : Type ℓ} → E → Bool → Result E (Unit {ℓ})
ensure e true = ok tt
ensure e false = err e

unfoldable pub require {ℓ} : {E A : Type ℓ} → E → Option A → Result E A
require e none = err e
require e (some a) = ok a

abbrev pub map_err {ℓ} : {E F A : Type ℓ} → (E → F) → Result E A → Result F A
map_err f (ok a) = ok a
map_err f (err e) = err (f e)

-- A chain ends well only if its first step does.
pub bind_ok {ℓ} :
    {E A B : Type ℓ} (r : Result E A) (f : A → Result E B) (b : B)
    → (r >>= f) ≡ ok b
    → (a : A) × (r ≡ ok a) × (f a ≡ ok b)
bind_ok (ok a) f b h = (a, refl, h)
bind_ok (err e) f b h = ground arith

pub ensure_ok {ℓ} : {E : Type ℓ} (e : E) (b : Bool) (u : Unit {ℓ}) → ensure e b ≡ ok u → b ≡ true
unfolding ensure
ensure_ok e true u h = refl
ensure_ok e false u h = ground arith

pub require_ok {ℓ} : {E A : Type ℓ} (e : E) (o : Option A) (a : A) → require e o ≡ ok a → o ≡ some a
unfolding require
require_ok e none a h = ground arith
require_ok e (some b) a h = ground arith

pub map_err_ok {ℓ} :
    {E F A : Type ℓ} (f : E → F) (r : Result E A) (a : A) → map_err f r ≡ ok a → r ≡ ok a
map_err_ok f (ok b) a h = ground arith
map_err_ok f (err e) a h = ground arith

pub ok_eq {ℓ} : {E A : Type ℓ} (a b : A) → Path (Result E A) (ok a) (ok b) → a ≡ b
ok_eq a b h = ground arith

pub ensure_then {ℓ} :
    {E B : Type ℓ} (e : E) (t : Bool) (f : Unit {ℓ} → Result E B) (b : B)
    → (ensure e t >>= f) ≡ ok b
    → (t ≡ true) × (f tt ≡ ok b)
unfolding ensure
ensure_then e true f b h = (refl, h)
ensure_then e false f b h = ground arith

pub require_then {ℓ} :
    {E A B : Type ℓ} (e : E) (o : Option A) (f : A → Result E B) (b : B)
    → (require e o >>= f) ≡ ok b
    → (a : A) × (o ≡ some a) × (f a ≡ ok b)
unfolding require
require_then e none f b h = ground arith
require_then e (some a) f b h = (a, refl, h)

pub false_of_not : (b : Bool) → not b ≡ true → b ≡ false
false_of_not b h = ground arith
