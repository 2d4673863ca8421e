-- ===== src/Prelude/Results.antt =====
-- `Result<A, E>` with its `?` operator.
use mathlib.Core.Path.{◌≡◌, refl, ap}
use mathlib.Core.Option.{Option, none, some}

pub data Result {ℓ} (E : Type 0) (A : Type ℓ) : Type ℓ where
  ok : A → Result E A
  err : E → Result E A

module _ {ℓ κ} {E : Type 0} {A : Type ℓ} {B : Type κ} where
  -- `m?` in front of what follows.
  abbrev pub and_then : Result E A → (A → Result E B) → Result E B
  and_then (ok a) f = f a
  and_then (err e) f = err e

  pub and_then-eq-ok :
      (m : Result E A) (f : A → Result E B) {b : B}
      → and_then m f ≡ ok b
      → (a : A) × (m ≡ ok a) × (f a ≡ ok b)
  and_then-eq-ok (ok a) f h = (a, refl, h)
  and_then-eq-ok (err e) f h = cc

-- `ok_or`: the error for a missing value.
abbrev pub ok_or {ℓ} : {E : Type 0} {A : Type ℓ} → Option A → E → Result E A
ok_or none e = err e
ok_or (some a) e = ok a

pub ok_injective {ℓ} :
    {E : Type 0} {A : Type ℓ} {a b : A} → ◌≡◌ {A = Result E A} (ok a) (ok b) → a ≡ b
ok_injective e = cc

pub ok_or-eq-ok {ℓ} :
    {E : Type 0} {A : Type ℓ} {a : A} (e : E) (o : Option A) → ok_or o e ≡ ok a → o ≡ some a
ok_or-eq-ok e none h = absurd (cc)
ok_or-eq-ok e (some a) h = ap some (ok_injective h)
