-- ===== src/Prelude/Decimal.antt =====
-- Decimal text of unsigned numbers: what the standard library's `to_string` and `parse::<usize>`
-- do, for 64-bit words.
use zebrafish.Prelude.Tests.{ltb, leb, ◌==◌, if◌then◌else◌, Bool-cases, lt→ltb}
use zebrafish.Prelude.Lists.{is_empty, all}
use zebrafish.Prelude.Strings.{Text}
use Prim.Native.Nat.{ℕ, zero, suc, ◌+◌, ◌-◌, ◌*◌, ◌/◌, ◌%◌, ◌≤◌, ◌<◌}
use mathlib.Core.Path.{◌≡◌, refl, ◌∙◌, ap}
use mathlib.Core.Logic.{inl, inr}
use mathlib.Core.Bool.{Bool, true, ◌&&◌}
use mathlib.Core.Option.{Option, none, some}
use mathlib.Core.List.{[], ◌∷◌}
use native.Mathlib.Omega.{arith}

abbrev pub u64_limit : ℕ
u64_limit = 18446744073709551616

abbrev pub is_ascii_digit : ℕ → Bool
is_ascii_digit c = leb b'0' c && leb c b'9'

-- The digits of a number in front of `rest`, by fuel; the number itself is enough fuel.
unfoldable pub show_onto : ℕ → ℕ → Text → Text
show_onto zero n rest = (n % 10 + b'0') ∷ rest
show_onto (suc f) n rest =
    let more = show_onto f (n / 10) ((n % 10 + b'0') ∷ rest) in
    if ltb n 10 then (n + b'0') ∷ rest else more

-- `to_string` of an unsigned integer.
unfoldable pub to_string : ℕ → Text
to_string n = show_onto n n []

-- The digit loop of `from_str_radix`: each step is checked against the width.
unfoldable pub parse_digits : ℕ → Text → Option ℕ
parse_digits acc [] = some acc
parse_digits acc (c ∷ cs) =
    let rest = parse_digits (acc * 10 + (c - b'0')) cs in
    if is_ascii_digit c then if ltb (acc * 10 + (c - b'0')) u64_limit then rest else none else none

-- `parse::<usize>()` on a 64-bit target: an optional plus sign, then at least one digit.
unfoldable pub parse_usize : Text → Option ℕ
parse_usize [] = none
parse_usize (c ∷ cs) =
    if c == b'+' then if is_empty cs then none else parse_digits 0 cs else parse_digits 0 (c ∷ cs)

parse_digits-cons :
    (acc c : ℕ) (rest : Text)
    → c < 10
    → acc * 10 + c < u64_limit
    → parse_digits acc ((c + b'0') ∷ rest) ≡ parse_digits (acc * 10 + c) rest
unfolding parse_digits
parse_digits-cons acc c rest h k =
    let e : c + b'0' - b'0' ≡ c = omega arith in
    let d : is_ascii_digit (c + b'0') ≡ true = ground arith in
    let l : ltb (acc * 10 + c) u64_limit ≡ true = lt→ltb _ _ k in rw (d, e, l)

parse_digits-show_onto :
    (f n : ℕ) (rest : Text)
    → n ≤ f
    → n < u64_limit
    → parse_digits 0 (show_onto f n rest) ≡ parse_digits n rest
unfolding show_onto
parse_digits-show_onto zero n rest h k =
    parse_digits-cons 0 (n % 10) rest (omega arith) (omega arith)
    ∙ ap (λ m. parse_digits m rest) (omega arith)
parse_digits-show_onto (suc f) n rest h k = elim (Bool-cases (ltb n 10)) [
  | inl small ↦ rw small (
      parse_digits-cons 0 n rest (ground arith) (omega arith)
      ∙ ap (λ m. parse_digits m rest) (omega arith))
  | inr large ↦ rw large (
      parse_digits-show_onto f (n / 10) ((n % 10 + b'0') ∷ rest) (ground arith) (omega arith)
      ∙ parse_digits-cons (n / 10) (n % 10) rest (omega arith) (omega arith)
      ∙ ap (λ m. parse_digits m rest) (omega arith))
]

show_onto-digits :
    (f n : ℕ) (rest : Text)
    → all is_ascii_digit rest ≡ true
    → all is_ascii_digit (show_onto f n rest) ≡ true
unfolding show_onto
show_onto-digits zero n rest h = let d : n % 10 < 10 = omega arith in ground arith
show_onto-digits (suc f) n rest h =
    let d : n % 10 < 10 = omega arith in
    ground (arith, show_onto-digits f (n / 10) ((n % 10 + b'0') ∷ rest))

show_onto-cons : (f n : ℕ) (rest : Text) → (c : ℕ) × (cs : Text) × (show_onto f n rest ≡ c ∷ cs)
unfolding show_onto
show_onto-cons zero n rest = (n % 10 + b'0', rest, refl)
show_onto-cons (suc f) n rest = elim (Bool-cases (ltb n 10)) [
  | inl small ↦ (n + b'0', rest, rw small)
  | inr large ↦
      let (c, cs, e) = show_onto-cons f (n / 10) ((n % 10 + b'0') ∷ rest) in (c, cs, rw large e)
]

pub all-is_ascii_digit-to_string : (n : ℕ) → all is_ascii_digit (to_string n) ≡ true
unfolding to_string
all-is_ascii_digit-to_string n = show_onto-digits n n [] refl

pub to_string-cons : (n : ℕ) → (c : ℕ) × (cs : Text) × (to_string n ≡ c ∷ cs)
unfolding to_string
to_string-cons n = show_onto-cons n n []

parse_usize_digits :
    (c : ℕ) (cs : Text) → is_ascii_digit c ≡ true → parse_usize (c ∷ cs) ≡ parse_digits 0 (c ∷ cs)
unfolding parse_usize
parse_usize_digits c cs h = ground arith

-- A number that fits in 64 bits is read back from its decimal text.
pub parse_usize-to_string : (n : ℕ) → n < u64_limit → parse_usize (to_string n) ≡ some n
parse_usize-to_string n h =
    let (c, cs, e) = to_string-cons n in
    let d : all is_ascii_digit (c ∷ cs) ≡ true = rw e at (all-is_ascii_digit-to_string n) in
    let first : is_ascii_digit c ≡ true = ground arith in
    let shown : parse_digits 0 (to_string n) ≡ some n =
      unfold to_string parse_digits in parse_digits-show_onto n n [] (omega arith) h in
    rw e (parse_usize_digits c cs first ∙ (rw e at shown))

parse_digits-lt :
    (acc : ℕ) (cs : Text) {n : ℕ} → acc < u64_limit → parse_digits acc cs ≡ some n → n < u64_limit
unfolding parse_digits
parse_digits-lt acc [] h e = ground arith
parse_digits-lt acc (c ∷ cs) {n} h e =
    ground (arith, parse_digits-lt (acc * 10 + (c - b'0')) cs {n = n})

-- What `parse::<usize>` accepts fits in 64 bits.
pub parse_usize-lt : (s : Text) {n : ℕ} → parse_usize s ≡ some n → n < u64_limit
unfolding parse_usize
parse_usize-lt [] e = cc
parse_usize-lt (c ∷ cs) {n} e = ground (
  arith,
  parse_digits-lt 0 cs {n = n} (omega arith),
  parse_digits-lt 0 (c ∷ cs) {n = n} (omega arith),
)
