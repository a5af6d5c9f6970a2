-- ===== src/Date/Calendar.antt =====
-- The Gregorian calendar, and what the conversions of Date.cc are to it. Year `n` of the calendar here is
-- the year n - 4800 of the code: 4800 is a multiple of 400, so the leap years are the same.
pub mod RoundTrip
pub mod NextDay
use multi_thread_log.Common.{
  ℕ, ◌+◌, ◌-◌, ◌*◌, ◌/◌, ◌%◌, ◌≤◌, ◌<◌, ◌≡◌, ◌≢◌, refl, sym, ap, ◌∙◌, Bool, true, false, not, ◌&&◌,
  ◌||◌, ◌==◌, ltb, leb, if◌then◌else◌, arith, inl, inr, ◌⊎◌, dec_le, ℕ_discrete, Bool-cases,
}
use multi_thread_log.Common.Int.{
  ℤ, pos, negsuc, pos_part, neg_part, ◌+ℤ◌, ◌-ℤ◌, ◌*ℤ◌, quot, rem, int_laws, *ℤ_pos, quot_pos,
  -ℤ_pos, +ℤ_pos, ◌≤ℤ◌,
}
use multi_thread_log.Date.{
  Date, YearMonthDay, get_julian_day_number, get_year_month_day, week_day, make,
  k_julian_day_of_1970_01_01,
}
use multi_thread_log.Date.March.{
  month_start, year_start, IsLong, century, day_of_century, year_of_century, day_of_year, month_of,
  year_start-split, century-start, year-start, day_of_century-lt, day_of_year-lt, month-start,
  month_of-lt, parts-back, parts-sum, day_of_year-IsLong,
}

abbrev pub year_of : ℕ → ℤ
year_of n = pos n -ℤ pos 4800

-- The rule of the Gregorian calendar.
abbrev pub is_leap : ℕ → Bool
is_leap n = (n % 4 == 0) && (not (n % 100 == 0) || (n % 400 == 0))

abbrev pub days_in_month : ℕ → ℕ → ℕ
days_in_month n month =
    if month == 2
    then (if is_leap n then 29 else 28)
    else if (month == 4) || (month == 6) || (month == 9) || (month == 11)
    then 30
    else 31

-- A date of the calendar, from March of year 0 here on.
pub record IsDate (n month day : ℕ) : Type 0 where
  pub not_before : 3 ≤ n * 12 + month
  pub month_in : (1 ≤ month) × (month ≤ 12)
  pub day_in : (1 ≤ day) × (day ≤ days_in_month n month)

-- The year from March on that a month lies in, and the month's place in it.
abbrev pub march_year : ℕ → ℕ → ℕ
march_year n month = n - (14 - month) / 12

abbrev pub march_month : ℕ → ℕ
march_month month = month + 12 * ((14 - month) / 12) - 3

-- Days since March 1 of year 0.
abbrev pub march_day : ℕ → ℕ → ℕ → ℕ
march_day n month day =
    year_start (march_year n month) + month_start (march_month month) + (day - 1)

pub get_julian_day_number-march :
    (n month day : ℕ)
    → IsDate n month day
    → get_julian_day_number (year_of n) (pos month) (pos day)
      ≡ pos (march_day n month day) -ℤ pos 32044
unfolding get_julian_day_number
get_julian_day_number-march n month day v =
    rw
      (
        -ℤ_pos 14 month (omega arith),
        quot_pos (14 - month) 12,
        ey,
        *ℤ_pos 12 a,
        +ℤ_pos month (12 * a),
        -ℤ_pos (month + 12 * a) 3 (omega arith),
        *ℤ_pos 153 m,
        +ℤ_pos (153 * m) 2,
        quot_pos (153 * m + 2) 5,
        *ℤ_pos y 365,
        quot_pos y 4,
        quot_pos y 100,
        quot_pos y 400,
      )
      (omega (int_laws))
  where
    a : ℕ
    a = (14 - month) / 12

    y : ℕ
    y = march_year n month

    m : ℕ
    m = march_month month

    ey : year_of n +ℤ pos 4800 -ℤ pos a ≡ pos y
    ey = omega int_laws

-- The date of day `a` since March 1 of year 0, in the notation of the code.
unfoldable pub date_of : ℕ → YearMonthDay
date_of a =
    let e = day_of_year a in
    let m = month_of e in
    record {
      day = pos (e - month_start m + 1);
      month = pos (m + 3 - 12 * (m / 10));
      year = year_of (century a * 100 + year_of_century a + m / 10);
    }

pub get_year_month_day-march : (a : ℕ) → get_year_month_day (pos a -ℤ pos 32044) ≡ date_of a
unfolding get_year_month_day date_of
get_year_month_day-march a = rw (
  ea,
  *ℤ_pos 4 a,
  +ℤ_pos (4 * a) 3,
  quot_pos (4 * a + 3) 146097,
  *ℤ_pos b 146097,
  quot_pos (b * 146097) 4,
  -ℤ_pos a (b * 146097 / 4) (day_of_century-lt a).0,
  *ℤ_pos 4 c,
  +ℤ_pos (4 * c) 3,
  quot_pos (4 * c + 3) 1461,
  *ℤ_pos 1461 d,
  quot_pos (1461 * d) 4,
  -ℤ_pos c (1461 * d / 4) (day_of_year-lt a).0,
  *ℤ_pos 5 e,
  +ℤ_pos (5 * e) 2,
  quot_pos (5 * e + 2) 153,
  *ℤ_pos 153 m,
  +ℤ_pos (153 * m) 2,
  quot_pos (153 * m + 2) 5,
  -ℤ_pos e (month_start m) (month_of-lt e (day_of_year-lt a).1).0,
  +ℤ_pos (e - month_start m) 1,
  quot_pos m 10,
  +ℤ_pos m 3,
  *ℤ_pos 12 (m / 10),
  -ℤ_pos (m + 3) (12 * (m / 10)) (omega arith),
  *ℤ_pos b 100,
  +ℤ_pos (b * 100) d,
  ey,
)
  where
    b : ℕ
    b = century a

    c : ℕ
    c = day_of_century a

    d : ℕ
    d = year_of_century a

    e : ℕ
    e = day_of_year a

    m : ℕ
    m = month_of e

    ea : pos a -ℤ pos 32044 +ℤ pos 32044 ≡ pos a
    ea = omega int_laws

    ey : pos (b * 100 + d) -ℤ pos 4800 +ℤ pos (m / 10) ≡ year_of (b * 100 + d + m / 10)
    ey = omega int_laws

pub leap_year : (n : ℕ) → is_leap n ≡ true → (n % 4 ≡ 0) × ((n % 100 ≢ 0) ⊎ (n % 400 ≡ 0))
leap_year n h = ground arith
