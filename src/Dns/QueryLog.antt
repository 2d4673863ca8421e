-- ===== src/Dns/QueryLog.antt =====
-- package/zebrafish-dns/src/query_log.rs
pub mod Calendar
pub mod Dates
pub mod Timestamp
pub mod Entry
use zebrafish.Prelude.{ℕ, suc, ◌+◌, ◌-◌, ◌*◌, ◌/◌, ◌%◌, if◌then◌else◌, ltb, leb}
use zebrafish.Prelude.Int.{ℤ, pos, negsuc}

abbrev pub u32_limit : ℕ
u32_limit = 4294967296

-- `as i32` of an unsigned number: the low 32 bits in two's complement.
unfoldable pub as_i32 : ℕ → ℤ
as_i32 n =
    if ltb (n % u32_limit) 2147483648
    then pos (n % u32_limit)
    else negsuc (u32_limit - 1 - n % u32_limit)

abbrev pub as_u32 : ℕ → ℕ
as_u32 n = n % u32_limit

-- The days in the 400-year era that ends with February, and what they say of the year in it.
unfoldable pub year_of_era : ℕ → ℕ
year_of_era doe = (doe - doe / 1460 + doe / 36524 - doe / 146096) / 365

unfoldable pub day_of_year : ℕ → ℕ
day_of_year doe = let yoe = year_of_era doe in doe - (365 * yoe + yoe / 4 - yoe / 100)

-- Month and day from the day of a year that begins in March.
unfoldable pub month_from_march : ℕ → ℕ
month_from_march doy = (5 * doy + 2) / 153

unfoldable pub day_of_month : ℕ → ℕ
day_of_month doy = doy - (153 * month_from_march doy + 2) / 5 + 1

unfoldable pub month_of : ℕ → ℕ
month_of mp = if ltb mp 10 then mp + 3 else mp - 9

-- `days_to_date`. `days` is below 2 ^ 64 / 86400, so the cast to `i64` is exact, `z` is not
-- negative and only the first branch of the era's quotient is taken.
unfoldable pub days_to_date : ℕ → ℤ × ℕ × ℕ
days_to_date days =
    let z = days + 719468 in
    let era = z / 146097 in
    let doe = z - era * 146097 in
    let y = year_of_era doe + era * 400 in
    let doy = day_of_year doe in
    let d = day_of_month doy in
    let m = month_of (month_from_march doy) in
    (as_i32 (if leb m 2 then y + 1 else y), as_u32 m, as_u32 d)
