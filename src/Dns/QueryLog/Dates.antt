-- ===== src/Dns/QueryLog/Dates.antt =====
-- package/zebrafish-dns/src/query_log.rs: `days_to_date` against the calendar.
use zebrafish.Prelude.{
  ℕ, zero, suc, ◌+◌, ◌-◌, ◌*◌, ◌/◌, ◌≤◌, ◌<◌, ◌^◌, if◌then◌else◌, leb, ltb, tests, ◌≡◌, refl, arith,
  Bool-cases, inl, inr, ap, ◌∙◌,
}
use native.Mathlib.Nat.{mod-eq_of_lt}
use native.Mathlib.Numerals.{add-one}
use zebrafish.Prelude.Int.{pos}
use zebrafish.Dns.QueryLog.{
  year_of_era, day_of_year, month_from_march, day_of_month, month_of, days_to_date, as_i32, as_u32,
}
use zebrafish.Dns.QueryLog.Calendar.{
  is_leap, days_in_month, days_before_month, days_before_year, day_number, IsDate,
  days_before_year_lem, days_before_month_13,
}

module _ (doe : ℕ) (h : doe < 146097) where
  year_of_era-lt : year_of_era doe < 400
  unfolding year_of_era
  year_of_era-lt = omega arith

  -- A year of the era begins on or before its days.
  year_of_era_low : 365 * year_of_era doe + year_of_era doe / 4 ≤ doe + year_of_era doe / 100
  unfolding year_of_era
  year_of_era_low = omega arith

  -- The next year begins after them; the last year of the era has the leap day.
  year_of_era_high :
      doe + (year_of_era doe + 1) / 100
      < 365 * (year_of_era doe + 1) + (year_of_era doe + 1) / 4 + (year_of_era doe + 1) / 400
  unfolding year_of_era
  year_of_era_high = omega arith

  day_of_year-eq :
      day_of_year doe + 365 * year_of_era doe + year_of_era doe / 4 ≡ doe + year_of_era doe / 100
  unfolding day_of_year
  day_of_year-eq = omega (arith, year_of_era_low)

-- Where the day stands in a year that begins in March: the month, the day in it, and the days
-- before that month.
month_from_march_bounds :
    (doy : ℕ)
    → doy < 366
    → (month_from_march doy < 12)
      × ((153 * month_from_march doy + 2) / 5 ≤ doy)
      × (doy < (153 * (month_from_march doy + 1) + 2) / 5)
unfolding month_from_march
month_from_march_bounds doy h = omega arith

-- The civil date of day `doy` of the year that begins in March of year `y`.
abbrev civil_year : ℕ → ℕ → ℕ
civil_year y doy = if leb (month_of (month_from_march doy)) 2 then y + 1 else y

-- The days before the months of such a year are those of the calendar.
march_month :
    (y mp : ℕ)
    → mp < 12
    → days_before_year y + 59 + (if is_leap y then 1 else 0) + (153 * mp + 2) / 5
      ≡ days_before_year (if leb (month_of mp) 2 then y + 1 else y)
        + days_before_month (if leb (month_of mp) 2 then y + 1 else y) (month_of mp)
unfolding month_of days_before_month days_in_month
march_month y zero h = ground arith
march_month y (suc zero) h = ground arith
march_month y (suc (suc zero)) h = ground arith
march_month y (suc (suc (suc zero))) h = ground arith
march_month y (suc (suc (suc (suc zero)))) h = ground arith
march_month y (suc (suc (suc (suc (suc zero))))) h = ground arith
march_month y (suc (suc (suc (suc (suc (suc zero)))))) h = ground arith
march_month y (suc (suc (suc (suc (suc (suc (suc zero))))))) h = ground arith
march_month y (suc (suc (suc (suc (suc (suc (suc (suc zero)))))))) h = ground arith
march_month y (suc (suc (suc (suc (suc (suc (suc (suc (suc zero))))))))) h = ground arith
march_month y (suc (suc (suc (suc (suc (suc (suc (suc (suc (suc zero)))))))))) h =
    rw add-one (unfold days_before_year in ground (arith, days_before_month_13 y))
march_month y (suc (suc (suc (suc (suc (suc (suc (suc (suc (suc (suc zero))))))))))) h =
    rw add-one (unfold days_before_year in ground (arith, days_before_month_13 y))
march_month y (suc (suc (suc (suc (suc (suc (suc (suc (suc (suc (suc (suc m)))))))))))) h =
    absurd (omega arith)

day_of_year-lt :
    (doe era : ℕ)
    → doe < 146097
    → day_of_year doe < (if is_leap (year_of_era doe + era * 400 + 1) then 366 else 365)
unfolding is_leap
day_of_year-lt doe era h =
    let yoe : ℕ = year_of_era doe in
    ground (arith, year_of_era-lt doe h, year_of_era_high doe h, day_of_year-eq doe h)

month_length :
    (y mp : ℕ)
    → mp < 11
    → (153 * (mp + 1) + 2) / 5 - (153 * mp + 2) / 5
      ≡ days_in_month (if leb (month_of mp) 2 then y + 1 else y) (month_of mp)
unfolding month_of days_in_month
month_length y zero h = ground arith
month_length y (suc zero) h = ground arith
month_length y (suc (suc zero)) h = ground arith
month_length y (suc (suc (suc zero))) h = ground arith
month_length y (suc (suc (suc (suc zero)))) h = ground arith
month_length y (suc (suc (suc (suc (suc zero))))) h = ground arith
month_length y (suc (suc (suc (suc (suc (suc zero)))))) h = ground arith
month_length y (suc (suc (suc (suc (suc (suc (suc zero))))))) h = ground arith
month_length y (suc (suc (suc (suc (suc (suc (suc (suc zero)))))))) h = ground arith
month_length y (suc (suc (suc (suc (suc (suc (suc (suc (suc zero))))))))) h = ground arith
month_length y (suc (suc (suc (suc (suc (suc (suc (suc (suc (suc zero)))))))))) h = ground arith
month_length y (suc (suc (suc (suc (suc (suc (suc (suc (suc (suc (suc m))))))))))) h =
    absurd (omega arith)

february_length :
    (y : ℕ) → days_in_month (y + 1) 2 + (153 * 11 + 2) / 5 ≡ (if is_leap (y + 1) then 366 else 365)
unfolding days_in_month
february_length y = ground arith

month_of_range : (mp : ℕ) → mp < 12 → (1 ≤ month_of mp) × (month_of mp ≤ 12)
unfolding month_of
month_of_range mp h = ground arith

module _ (y doy : ℕ) (h : doy < (if is_leap (y + 1) then 366 else 365)) where
  day_of_month-le :
      (mp : ℕ)
      → month_from_march doy ≡ mp
      → mp < 12
      → (153 * mp + 2) / 5 ≤ doy
      → doy < (153 * (mp + 1) + 2) / 5
      → day_of_month doy ≤ days_in_month (if leb (month_of mp) 2 then y + 1 else y) (month_of mp)
  unfolding day_of_month
  day_of_month-le mp e lo begin stop = elim (Bool-cases (ltb mp 11)) [
    | inl early ↦ omega (tests, month_length y mp (ground arith), ap (λ m. (153 * m + 2) / 5) e)
    | inr last ↦
        let e11 : mp ≡ 11 = ground arith in
        rw e11 (unfold month_of in ground (arith, february_length y, ap (λ m. (153 * m + 2) / 5) e))
  ]

  civil_year-IsDate : IsDate (civil_year y doy) (month_of (month_from_march doy)) (day_of_month doy)
  civil_year-IsDate =
      let bound : doy < 366 = ground arith in
      let (lo, begin, stop) = month_from_march_bounds doy bound in
      record {
        month_in = month_of_range (month_from_march doy) lo;
        day_in = (
          unfold day_of_month in omega arith,
          day_of_month-le (month_from_march doy) refl lo begin stop,
        );
      }

  date-day_number :
      day_number (civil_year y doy) (month_of (month_from_march doy)) (day_of_month doy)
      ≡ days_before_year y + 59 + (if is_leap y then 1 else 0) + doy
  unfolding day_number day_of_month
  date-day_number =
      let bound : doy < 366 = ground arith in
      let (lo, start, stop) = month_from_march_bounds doy bound in
      omega (arith, march_month y (month_from_march doy) lo)

-- The days up to the end of February of a year.
days_before_march :
    (y : ℕ)
    → days_before_year y + (if is_leap y then 1 else 0) + y / 100 ≡ 365 * y + y / 4 + y / 400 + 1
unfolding is_leap
days_before_march y = ground (arith, days_before_year_lem y)

era_day_number :
    (doe era : ℕ)
    → doe < 146097
    → days_before_year (year_of_era doe + era * 400)
        + 59
        + (if is_leap (year_of_era doe + era * 400) then 1 else 0)
        + day_of_year doe
      ≡ doe + era * 146097 + 60
era_day_number doe era h = omega (
  arith,
  days_before_march (year_of_era doe + era * 400),
  year_of_era-lt doe h,
  day_of_year-eq doe h,
)

as_i32_small : (n : ℕ) → n < 2 ^ 31 → as_i32 n ≡ pos n
unfolding as_i32
as_i32_small n h = ground arith

as_u32_small : (n : ℕ) → n < 4294967296 → as_u32 n ≡ n
as_u32_small n h = mod-eq_of_lt h

civil_year-le : (y doy : ℕ) → civil_year y doy ≤ y + 1
civil_year-le y doy = ground arith

-- `days_to_date` gives the date of the calendar: for a number of days since 1970-01-01 below
-- 2 ^ 39, it is a year, a month and a day that exist, and counting the days from 1970-01-01 to
-- it, which is day 719528 from 0000-01-01, gives the number back.
pub days_to_date-day_number :
    (days : ℕ)
    → days < 2 ^ 39
    → (y : ℕ) × (m : ℕ) × (d : ℕ) × (days_to_date days ≡ (pos y, m, d))
      × IsDate y m d
      × (day_number y m d ≡ days + 719528)
unfolding days_to_date
days_to_date-day_number days h =
    let era : ℕ = (days + 719468) / 146097 in
    let doe : ℕ = days + 719468 - era * 146097 in
    let in_era : doe < 146097 = omega arith in
    let y : ℕ = year_of_era doe + era * 400 in
    let doy : ℕ = day_of_year doe in
    let in_year = day_of_year-lt doe era in_era in
    let date = civil_year-IsDate y doy in_year in
    let small : civil_year y doy < 2 ^ 31 =
      omega (arith, civil_year-le y doy, year_of_era-lt doe in_era) in
    let day_small : day_of_month doy < 4294967296 = unfold day_of_month in ground arith in
    (
      civil_year y doy,
      month_of (month_from_march doy),
      day_of_month doy,
      rw (
        as_i32_small (civil_year y doy) small,
        as_u32_small (month_of (month_from_march doy)) (omega arith),
        as_u32_small (day_of_month doy) day_small,
      ),
      date,
      date-day_number y doy in_year ∙ era_day_number doe era in_era ∙ omega arith,
    )
