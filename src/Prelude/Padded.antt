-- ===== src/Prelude/Padded.antt =====
-- Decimal text that is filled up with zeros: what `{:02}` and the like print of an unsigned number.
use zebrafish.Prelude.Tests.{ltb, Bool-cases}
use zebrafish.Prelude.Lists.{length, replicate}
use zebrafish.Prelude.Strings.{Text}
use zebrafish.Prelude.Decimal.{show_onto, to_string}
use Prim.Native.Nat.{ℕ, zero, suc, ◌+◌, ◌-◌, ◌/◌, ◌%◌, ◌≤◌, ◌<◌}
use mathlib.Core.Path.{◌≡◌, refl, ◌∙◌, ap}
use mathlib.Core.Logic.{inl, inr}
use mathlib.Core.Bool.{true, false}
use mathlib.Core.List.{[], ◌∷◌, ◌++◌}
use native.Mathlib.Omega.{arith}

abbrev pub fill : ℕ → Text → Text
fill width s = replicate (width - length s) b'0' ++ s

unfoldable pub padded : ℕ → ℕ → Text
padded width n = fill width (to_string n)

-- The digit of a number at the place of a power of ten.
abbrev pub digit : ℕ → ℕ
digit n = n % 10 + b'0'

show_digit : (f n : ℕ) (rest : Text) → n < 10 → show_onto f n rest ≡ digit n ∷ rest
unfolding show_onto
show_digit zero n rest h = refl
show_digit (suc f) n rest h =
    let small : ltb n 10 ≡ true = ground arith in
    rw small (ap (λ m. (m + b'0') ∷ rest) (omega arith))

show_step :
    (f n : ℕ) (rest : Text)
    → 10 ≤ n
    → n ≤ f
    → (g : ℕ) × (n / 10 ≤ g) × (show_onto f n rest ≡ show_onto g (n / 10) (digit n ∷ rest))
unfolding show_onto
show_step zero n rest h k = absurd (omega arith)
show_step (suc f) n rest h k =
    let large : ltb n 10 ≡ false = ground arith in (f, omega arith, rw large refl)

show_two :
    (f n : ℕ) (rest : Text)
    → 10 ≤ n
    → n < 100
    → n ≤ f
    → show_onto f n rest ≡ digit (n / 10) ∷ digit n ∷ rest
show_two f n rest low high k =
    let (g, le, e) = show_step f n rest low k in
    e ∙ show_digit g (n / 10) (digit n ∷ rest) (omega arith)

show_three :
    (f n : ℕ) (rest : Text)
    → 100 ≤ n
    → n < 1000
    → n ≤ f
    → show_onto f n rest ≡ digit (n / 100) ∷ digit (n / 10) ∷ digit n ∷ rest
show_three f n rest low high k =
    let (g, le, e) = show_step f n rest (omega arith) k in
    let hundreds : n / 10 / 10 ≡ n / 100 = omega arith in
    e
    ∙ show_two g (n / 10) (digit n ∷ rest) (omega arith) (omega arith) le
    ∙ ap (λ m. digit m ∷ digit (n / 10) ∷ digit n ∷ rest) hundreds

show_four :
    (f n : ℕ) (rest : Text)
    → 1000 ≤ n
    → n < 10000
    → n ≤ f
    → show_onto f n rest ≡ digit (n / 1000) ∷ digit (n / 100) ∷ digit (n / 10) ∷ digit n ∷ rest
show_four f n rest low high k =
    let (g, le, e) = show_step f n rest (omega arith) k in
    let hundreds : n / 10 / 10 ≡ n / 100 = omega arith in
    let thousands : n / 10 / 100 ≡ n / 1000 = omega arith in
    e
    ∙ show_three g (n / 10) (digit n ∷ rest) (omega arith) (omega arith) le
    ∙ ap (λ m. digit m ∷ digit (n / 10 / 10) ∷ digit (n / 10) ∷ digit n ∷ rest) thousands
    ∙ ap (λ m. digit (n / 1000) ∷ digit m ∷ digit (n / 10) ∷ digit n ∷ rest) hundreds

pub padded_two : (n : ℕ) → n < 100 → padded 2 n ≡ digit (n / 10) ∷ digit n ∷ []
unfolding padded to_string
padded_two n h = elim (Bool-cases (ltb n 10)) [
  | inl one ↦ let z : n / 10 ≡ 0 = ground arith in rw (show_digit n n [] (ground arith), z) refl
  | inr two ↦ rw (show_two n n [] (ground arith) h (omega arith)) refl
]

pub padded_three : (n : ℕ) → n < 1000 → padded 3 n ≡ digit (n / 100) ∷ digit (n / 10) ∷ digit n ∷ []
unfolding padded to_string
padded_three n h = elim (Bool-cases (ltb n 10)) [
  | inl one ↦
      let z : n / 10 ≡ 0 = ground arith in
      let y : n / 100 ≡ 0 = ground arith in rw (show_digit n n [] (ground arith), z, y) refl
  | inr more ↦ elim (Bool-cases (ltb n 100)) [
    | inl two ↦
        let y : n / 100 ≡ 0 = ground arith in
        rw (show_two n n [] (ground arith) (ground arith) (omega arith), y) refl
    | inr three ↦ rw (show_three n n [] (ground arith) h (omega arith)) refl
  ]
]

pub padded_four :
    (n : ℕ)
    → n < 10000
    → padded 4 n ≡ digit (n / 1000) ∷ digit (n / 100) ∷ digit (n / 10) ∷ digit n ∷ []
unfolding padded to_string
padded_four n h = elim (Bool-cases (ltb n 10)) [
  | inl one ↦
      let z : n / 10 ≡ 0 = ground arith in
      let y : n / 100 ≡ 0 = ground arith in
      let x : n / 1000 ≡ 0 = ground arith in rw (show_digit n n [] (ground arith), z, y, x) refl
  | inr more ↦ elim (Bool-cases (ltb n 100)) [
    | inl two ↦
        let y : n / 100 ≡ 0 = ground arith in
        let x : n / 1000 ≡ 0 = ground arith in
        rw (show_two n n [] (ground arith) (ground arith) (omega arith), y, x) refl
    | inr most ↦ elim (Bool-cases (ltb n 1000)) [
      | inl three ↦
          let x : n / 1000 ≡ 0 = ground arith in
          rw (show_three n n [] (ground arith) (ground arith) (omega arith), x) refl
      | inr four ↦ rw (show_four n n [] (ground arith) h (omega arith)) refl
    ]
  ]
]
