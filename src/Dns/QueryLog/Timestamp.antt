-- ===== src/Dns/QueryLog/Timestamp.antt =====
-- package/zebrafish-dns/src/query_log.rs: `rfc3339`, and a reader of such a text.
use zebrafish.Prelude.{
  ℕ, ◌+◌, ◌-◌, ◌*◌, ◌/◌, ◌%◌, ◌<◌, ◌≤◌, [], ◌∷◌, ◌++◌, Option, none, some, Text, text, text_eq,
  if◌then◌else◌, ◌≡◌, arith, ap, ◌∙◌,
}
use zebrafish.Prelude.Decimal.{to_string}
use zebrafish.Prelude.Padded.{fill, padded, digit, padded_two, padded_three, padded_four}
use zebrafish.Prelude.Int.{ℤ, pos, negsuc}
use zebrafish.Dns.QueryLog.{days_to_date}
use zebrafish.Dns.QueryLog.Calendar.{day_number, days_before_year_lem, days_in_month}
use zebrafish.Dns.QueryLog.Dates.{days_to_date-day_number}

-- `{:04}` of an `i32`: the sign counts.
abbrev pub padded_year : ℤ → Text
padded_year (pos n) = padded 4 n
padded_year (negsuc n) = b'-' ∷ fill 3 (to_string (1 + n))

-- The format string, after the year: month, day, hour, minute, second and millisecond.
abbrev pub after_year : ℕ → ℕ → ℕ → ℕ → ℕ → ℕ → Text
after_year m d h mi s millis =
    b'-'
    ∷ (padded 2 m
        ++ (b'-'
            ∷ (padded 2 d
                ++ (b'T'
                    ∷ (padded 2 h
                        ++ (b':'
                            ∷ (padded 2 mi
                                ++ (b':'
                                    ∷ (padded 2 s ++ (b'.' ∷ (padded 3 millis ++ text "Z")))))))))))

abbrev pub date_time : ℤ × ℕ × ℕ → ℕ → ℕ → Text
date_time (y, m, d) t millis =
    padded_year y ++ after_year m d (t / 3600) (t % 3600 / 60) (t % 60) millis

-- `rfc3339`, of the nanoseconds since 1970; `none` is a clock before that, which counts as 1970.
abbrev pub or_epoch : Option ℕ → ℕ
or_epoch none = 0
or_epoch (some nanos) = nanos

unfoldable pub rfc3339_at : ℕ → Text
rfc3339_at nanos =
    let total_secs = nanos / 1000000000 in
    date_time (days_to_date (total_secs / 86400)) (total_secs % 86400)
      (nanos % 1000000000 / 1000000)

abbrev pub rfc3339 : Option ℕ → Text
rfc3339 clock = rfc3339_at (or_epoch clock)

abbrev pub two : ℕ → ℕ → ℕ
two a b = (a - b'0') * 10 + (b - b'0')

-- The milliseconds since 1970 that a text of the right shape stands for.
unfoldable pub read_timestamp : Text → Option ℕ
read_timestamp
      (y ∷ yy ∷ yyy ∷ yyyy ∷ dash ∷ m ∷ mm ∷ bar ∷ d ∷ dd ∷ at ∷ h ∷ hh ∷ colon ∷ i ∷ ii ∷ mark ∷ s
        ∷ ss ∷ dot ∷ x ∷ xx ∷ xxx ∷ zone ∷ []) =
    let days = day_number (two y yy * 100 + two yyy yyyy) (two m mm) (two d dd) - 719528 in
    if text_eq (dash ∷ bar ∷ at ∷ colon ∷ mark ∷ dot ∷ zone ∷ []) (text "--T::.Z")
    then some (
        (days * 86400 + two h hh * 3600 + two i ii * 60 + two s ss) * 1000
        + (two x xx * 10 + (xxx - b'0')))
    else none
read_timestamp _ = none

days_in_month_le : (y m : ℕ) → days_in_month y m ≤ 31
unfolding days_in_month
days_in_month_le y m = ground arith

year_lt : (y m d : ℕ) → day_number y m d < 3652425 → y < 10000
unfolding day_number
year_lt y m d h = omega (arith, days_before_year_lem y)

two-digit : (n : ℕ) → n < 100 → two (digit (n / 10)) (digit n) ≡ n
two-digit n h = omega arith

read_timestamp-date_time :
    (y m d t millis : ℕ)
    → y < 10000
    → m < 100
    → d < 100
    → t < 86400
    → millis < 1000
    → read_timestamp (date_time (pos y, m, d) t millis)
      ≡ some (((day_number y m d - 719528) * 86400 + t) * 1000 + millis)
unfolding read_timestamp text_eq
read_timestamp-date_time y m d t millis yb mb db tb sb =
    let year : two (digit (y / 1000)) (digit (y / 100)) * 100 + two (digit (y / 10)) (digit y) ≡ y =
      omega arith in
    let clock : t / 3600 * 3600 + t % 3600 / 60 * 60 + t % 60 ≡ t = omega arith in
    let parts : two (digit (millis / 100)) (digit (millis / 10)) * 10 + (digit millis - b'0')
        ≡ millis =
      omega arith in
    rw
      (
        padded_four y yb,
        padded_two m mb,
        padded_two d db,
        padded_two (t / 3600) (omega arith),
        padded_two (t % 3600 / 60) (omega arith),
        padded_two (t % 60) (omega arith),
        padded_three millis sb,
        year,
        two-digit m mb,
        two-digit d db,
        two-digit (t / 3600) (omega arith),
        two-digit (t % 3600 / 60) (omega arith),
        two-digit (t % 60) (omega arith),
        parts,
      )
      (ap some (omega arith))

-- Before the year 10000, the text of `rfc3339` has the shape of a timestamp, and the calendar date
-- and the time in it stand for the number of milliseconds since 1970 that the clock showed.
pub read_timestamp-rfc3339 :
    (nanos : ℕ)
    → nanos < 253402300800 * 1000000000
    → read_timestamp (rfc3339 (some nanos)) ≡ some (nanos / 1000000)
unfolding rfc3339_at
read_timestamp-rfc3339 nanos h =
    let days : ℕ = nanos / 1000000000 / 86400 in
    let (y, m, d, date, real, number) = days_to_date-day_number days (omega arith) in
    let early : y < 10000 = year_lt y m d (omega (arith, number)) in
    rw date (
      read_timestamp-date_time y m d (nanos / 1000000000 % 86400) (nanos % 1000000000 / 1000000)
        early (omega (arith, real.month_in)) (omega (arith, real.day_in, days_in_month_le y m))
        (omega arith) (omega arith)
      ∙ ap some (omega (arith, number)))
