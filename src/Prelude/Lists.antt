-- ===== src/Prelude/Lists.antt =====
-- Lists measured and indexed by native numbers, under the library's names.
use Prim.Native.Nat.{ℕ, zero, suc, ◌+◌, ◌≤◌}
use mathlib.Core.Path.{◌≡◌, refl, ap, subst}
use mathlib.Core.Bool.{Bool, true, false, ◌&&◌}
use mathlib.Core.Logic.{◌⊎◌, inl, inr}
use mathlib.Core.List.{List, [], ◌∷◌, ◌++◌}
use mathlib.Core.Option.{Option, none, some, some-injective}
use native.Mathlib.Omega.{arith}

module _ {ℓ} {A : Type ℓ} where
  abbrev pub length : List A → ℕ
  length [] = 0
  length (x ∷ xs) = suc (length xs)

  abbrev pub is_empty : List A → Bool
  is_empty [] = true
  is_empty (x ∷ xs) = false

  abbrev pub get_elem? : List A → ℕ → Option A
  get_elem? [] i = none
  get_elem? (x ∷ xs) zero = some x
  get_elem? (x ∷ xs) (suc i) = get_elem? xs i

  -- A write out of bounds changes nothing.
  abbrev pub set : List A → ℕ → A → List A
  set [] i v = []
  set (x ∷ xs) zero v = v ∷ xs
  set (x ∷ xs) (suc i) v = x ∷ set xs i v

  abbrev pub remove_at : List A → ℕ → List A
  remove_at [] i = []
  remove_at (x ∷ xs) zero = xs
  remove_at (x ∷ xs) (suc i) = x ∷ remove_at xs i

  abbrev pub take : ℕ → List A → List A
  take zero xs = []
  take (suc n) [] = []
  take (suc n) (x ∷ xs) = x ∷ take n xs

  abbrev pub drop : ℕ → List A → List A
  drop zero xs = xs
  drop (suc n) [] = []
  drop (suc n) (x ∷ xs) = drop n xs

  abbrev pub replicate : ℕ → A → List A
  replicate zero a = []
  replicate (suc n) a = a ∷ replicate n a

  abbrev pub all : (A → Bool) → List A → Bool
  all p [] = true
  all p (x ∷ xs) = p x && all p xs

  pub length-append : (xs ys : List A) → length (xs ++ ys) ≡ length xs + length ys
  length-append [] ys = omega arith
  length-append (x ∷ xs) ys = omega (arith, length-append xs ys)

  pub length-replicate : (n : ℕ) (a : A) → length (replicate n a) ≡ n
  length-replicate zero a = refl
  length-replicate (suc n) a = ap suc (length-replicate n a)

  pub length-take_of_le : (n : ℕ) (xs : List A) → n ≤ length xs → length (take n xs) ≡ n
  length-take_of_le zero xs h = refl
  length-take_of_le (suc n) [] h = absurd (omega arith)
  length-take_of_le (suc n) (x ∷ xs) h = ap suc (length-take_of_le n xs (omega arith))

  pub take-append : (xs ys : List A) → take (length xs) (xs ++ ys) ≡ xs
  take-append [] ys = refl
  take-append (x ∷ xs) ys = ap (◌∷◌ x) (take-append xs ys)

  pub drop-append : (xs ys : List A) → drop (length xs) (xs ++ ys) ≡ ys
  drop-append [] ys = refl
  drop-append (x ∷ xs) ys = drop-append xs ys

-- Membership that keeps the place.
pub data Contains {ℓ} {A : Type ℓ} (x : A) : List A → Type ℓ where
  here : {ys : List A} → Contains x (x ∷ ys)
  there : {y : A} {ys : List A} → Contains x ys → Contains x (y ∷ ys)

module _ {ℓ} {A : Type ℓ} where
  pub Contains-append_left :
      {x : A} {xs : List A} (ys : List A) → Contains x xs → Contains x (xs ++ ys)
  Contains-append_left ys here = here
  Contains-append_left ys (there m) = there (Contains-append_left ys m)

  pub Contains-append_right :
      {x : A} (xs : List A) {ys : List A} → Contains x ys → Contains x (xs ++ ys)
  Contains-append_right [] m = m
  Contains-append_right (y ∷ xs) m = there (Contains-append_right xs m)

  pub Contains-append :
      {x : A} (xs ys : List A) → Contains x (xs ++ ys) → Contains x xs ⊎ Contains x ys
  Contains-append [] ys m = inr m
  Contains-append (y ∷ xs) ys here = inl here
  Contains-append (y ∷ xs) ys (there m) = elim (Contains-append xs ys m) [
    | inl l ↦ inl (there l)
    | inr r ↦ inr r
  ]

  pub remove_at-Contains :
      (xs : List A) (i : ℕ) {x : A} → Contains x (remove_at xs i) → Contains x xs
  remove_at-Contains [] i c = c
  remove_at-Contains (y ∷ ys) zero c = there c
  remove_at-Contains (y ∷ ys) (suc i) here = here
  remove_at-Contains (y ∷ ys) (suc i) (there c) = there (remove_at-Contains ys i c)

  pub get_elem?-Contains : (xs : List A) (i : ℕ) {x : A} → get_elem? xs i ≡ some x → Contains x xs
  get_elem?-Contains [] i e = absurd cc
  get_elem?-Contains (y ∷ ys) zero {x} e =
      subst (λ z. Contains z (y ∷ ys)) (some-injective y x e) here
  get_elem?-Contains (y ∷ ys) (suc i) e = there (get_elem?-Contains ys i e)
