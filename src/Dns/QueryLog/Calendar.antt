-- ===== src/Dns/QueryLog/Calendar.antt =====
-- The Gregorian calendar by its rules: the specification of `days_to_date` in
-- package/zebrafish-dns/src/query_log.rs. Days and years are counted from 0000-01-01.
use zebrafish.Prelude.{
  ℕ, zero, suc, ◌+◌, ◌-◌, ◌*◌, ◌/◌, ◌%◌, ◌≤◌, Bool, not, ◌&&◌, ◌||◌, if◌then◌else◌, ◌==◌, ◌≡◌,
  arith,
}

unfoldable pub is_leap : ℕ → Bool
is_leap y = y % 4 == 0 && (not (y % 100 == 0) || y % 400 == 0)

unfoldable pub days_in_month : ℕ → ℕ → ℕ
unfolding is_leap
days_in_month y m =
    if m == 2
    then (if is_leap y then 29 else 28)
    else if m == 4 || m == 6 || m == 9 || m == 11
    then 30
    else 31

-- The days of the year before the first of a month; months count from 1.
unfoldable pub days_before_month : ℕ → ℕ → ℕ
days_before_month y zero = 0
days_before_month y (suc zero) = 0
days_before_month y (suc (suc m)) = days_before_month y (suc m) + days_in_month y (suc m)

unfoldable pub days_before_year : ℕ → ℕ
days_before_year zero = 0
days_before_year (suc y) = days_before_year y + days_before_month y 13

-- The number of a date, where 0000-01-01 has number 0.
unfoldable pub day_number : ℕ → ℕ → ℕ → ℕ
day_number y m d = days_before_year y + days_before_month y m + (d - 1)

pub record IsDate (y m d : ℕ) : Type 0 where
  pub month_in : (1 ≤ m) × (m ≤ 12)
  pub day_in : (1 ≤ d) × (d ≤ days_in_month y m)

pub days_before_month_13 : (y : ℕ) → days_before_month y 13 ≡ (if is_leap y then 366 else 365)
unfolding days_before_month days_in_month
days_before_month_13 y = ground arith

-- The closed form.
pub days_before_year_lem :
    (y : ℕ) → days_before_year y + (y + 99) / 100 ≡ 365 * y + (y + 3) / 4 + (y + 399) / 400
unfolding days_before_year is_leap
days_before_year_lem zero = omega arith
days_before_year_lem (suc y) = ground (arith, days_before_year_lem y, days_before_month_13 y)
