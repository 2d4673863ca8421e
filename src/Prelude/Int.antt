-- ===== src/Prelude/Int.antt =====
-- Signed numbers over the native ones, under the library's names, with their decimal text and
-- the checked `parse::<i64>` of the standard library.
use zebrafish.Prelude.Tests.{ltb, leb, ◌==◌, if◌then◌else◌, ◌>>=◌}
use zebrafish.Prelude.Lists.{is_empty}
use zebrafish.Prelude.Strings.{Text}
use zebrafish.Prelude.Decimal.{is_ascii_digit}
use Prim.Native.Nat.{ℕ, zero, suc, ◌+◌, ◌-◌, ◌*◌}
use mathlib.Core.Bool.{Bool, true, false}
use mathlib.Core.Option.{Option, none, some}
use mathlib.Core.List.{[], ◌∷◌}

-- `negsuc n` is -(n + 1).
pub data ℤ : Type 0 where
  pos : ℕ → ℤ
  negsuc : ℕ → ℤ

-- The value of a text of digits, of any length.
unfoldable pub digits_value : ℕ → Text → Option ℕ
digits_value acc [] = some acc
digits_value acc (c ∷ cs) =
    let rest = digits_value (acc * 10 + (c - b'0')) cs in if is_ascii_digit c then rest else none

abbrev pub i64_limit : ℕ
i64_limit = 9223372036854775808

abbrev negated : ℕ → ℤ
negated zero = pos zero
negated (suc n) = negsuc n

-- At least one digit, and the value in the range of 64-bit signed numbers.
unfoldable pub parse_magnitude : Bool → Text → Option ℤ
parse_magnitude minus s =
    if is_empty s
    then none
    else digits_value 0 s >>= λ n.
        if minus
        then (if leb n i64_limit then some (negated n) else none)
        else (if ltb n i64_limit then some (pos n) else none)

-- `parse::<i64>()`.
unfoldable pub parse_i64 : Text → Option ℤ
unfolding parse_magnitude
parse_i64 [] = none
parse_i64 (c ∷ cs) =
    if c == b'-'
    then parse_magnitude true cs
    else if c == b'+'
    then parse_magnitude false cs
    else parse_magnitude false (c ∷ cs)
