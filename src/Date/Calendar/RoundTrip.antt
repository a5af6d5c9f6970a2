-- ===== src/Date/Calendar/RoundTrip.antt =====
-- `getJulianDayNumber` and `getYearMonthDay` one after the other.
use multi_thread_log.Common.{
  ℕ, ◌+◌, ◌-◌, ◌*◌, ◌/◌, ◌≤◌, ◌<◌, ◌≡◌, refl, ap, ◌∙◌, true, arith, inl, inr, dec_le, Bool-cases,
}
use multi_thread_log.Common.Int.{pos, ◌-ℤ◌}
use multi_thread_log.Date.{get_julian_day_number, get_year_month_day}
use multi_thread_log.Date.March.{
  month_start, year_start, IsLong, century, year_of_century, day_of_year, month_of, day_of_year-lt,
  month-start, month_of-lt, parts-back, parts-sum, day_of_year-IsLong,
}
use multi_thread_log.Date.Calendar.{
  year_of, is_leap, days_in_month, IsDate, march_year, march_month, march_day,
  get_julian_day_number-march, date_of, get_year_month_day-march, leap_year,
}

-- The months from March on have the lengths that the code's formula gives them.
day_in-march :
    (n month day : ℕ)
    → IsDate n month day
    → (march_month month < 12)
      × (day - 1 < month_start (march_month month + 1) - month_start (march_month month))
      × (month_start (march_month month) + (day - 1) < 366)
day_in-march n month day v = ground (arith, v.month_in, v.day_in)

february :
    (n month day : ℕ)
    → IsDate n month day
    → month_start (march_month month) + (day - 1) ≡ 365
    → (month ≡ 2) × (is_leap n ≡ true)
february n month day v e = ground (arith, v.month_in, v.day_in)

IsLong-march :
    (n month day : ℕ)
    → IsDate n month day
    → month_start (march_month month) + (day - 1) ≡ 365
    → IsLong (march_year n month)
IsLong-march n month day v e =
    let f = february n month day v e in
    let y : march_year n month + 1 ≡ n = omega (arith, v.not_before, f.0) in rw y (leap_year n f.1)

-- The day count of a date, taken apart again, is the date.
date_of-march_day :
    (n month day : ℕ)
    → IsDate n month day
    → date_of (march_day n month day)
      ≡ record { year = year_of n; month = pos month; day = pos day }
unfolding date_of
date_of-march_day n month day v =
    let d = day_in-march n month day v in
    let p =
      parts-back (march_year n month) (month_start (march_month month) + (day - 1)) d.2
        (IsLong-march n month day v) in
    let same : march_day n month day
        ≡ year_start (march_year n month) + (month_start (march_month month) + (day - 1)) =
      omega arith in
    rw (same, p.0, p.1, month-start (march_month month) (day - 1) d.0 d.1, ey, em, ed) refl
  where
    ey : march_year n month + march_month month / 10 ≡ n
    ey = omega (arith, v.not_before, v.month_in)

    em : march_month month + 3 - 12 * (march_month month / 10) ≡ month
    em = omega (arith, v.month_in)

    ed : month_start (march_month month) + (day - 1) - month_start (march_month month) + 1 ≡ day
    ed = omega (arith, v.day_in)

-- A date of the calendar is given back by the two conversions.
pub get_year_month_day-get_julian_day_number :
    (n month day : ℕ)
    → IsDate n month day
    → get_year_month_day (get_julian_day_number (year_of n) (pos month) (pos day))
      ≡ record { year = year_of n; month = pos month; day = pos day }
get_year_month_day-get_julian_day_number n month day v =
    ap get_year_month_day (get_julian_day_number-march n month day v)
    ∙ get_year_month_day-march (march_day n month day)
    ∙ date_of-march_day n month day v

-- The date of day `a`, in the years of the calendar.
abbrev year_at : ℕ → ℕ
year_at a = century a * 100 + year_of_century a + month_of (day_of_year a) / 10

abbrev month_at : ℕ → ℕ
month_at a = month_of (day_of_year a) + 3 - 12 * (month_of (day_of_year a) / 10)

abbrev day_at : ℕ → ℕ
day_at a = day_of_year a - month_start (month_of (day_of_year a)) + 1

long-leap : (y : ℕ) → IsLong y → is_leap (y + 1) ≡ true
long-leap y (four, inl c) = ground arith
long-leap y (four, inr c) = ground arith

day_in_other_month :
    (n m e : ℕ)
    → m < 11
    → e < month_start (m + 1)
    → month_start m ≤ e
    → e - month_start m + 1 ≤ days_in_month n (m + 3 - 12 * (m / 10))
day_in_other_month n m e h lt le = ground arith

day_in_february :
    (n e : ℕ) → e < 366 → ((e ≡ 365) → is_leap n ≡ true) → e - 337 + 1 ≤ days_in_month n 2
day_in_february n e h leap = elim (Bool-cases (is_leap n)) [
  | inl l ↦ rw l (omega arith)
  | inr l ↦ elim (dec_le 365 e) [
    | yes last ↦ absurd (cc (l, leap (omega arith)))
    | no before ↦ rw l (omega arith)
  ]
]

day_in_month :
    (y m e : ℕ)
    → m < 12
    → e < 366
    → e < month_start (m + 1)
    → month_start m ≤ e
    → ((e ≡ 365) → is_leap (y + 1) ≡ true)
    → e - month_start m + 1 ≤ days_in_month (y + m / 10) (m + 3 - 12 * (m / 10))
day_in_month y m e h short lt le leap = elim (dec_le 11 m) [
  | no before ↦ day_in_other_month (y + m / 10) m e (omega arith) lt le
  | yes last ↦ let m_is : m ≡ 11 = omega arith in rw m_is (day_in_february (y + 1) e short leap)
]

at-IsDate : (a : ℕ) → IsDate (year_at a) (month_at a) (day_at a)
at-IsDate a =
    let y = day_of_year-lt a in
    let m = month_of-lt (day_of_year a) y.1 in
    record {
      not_before = omega arith;
      month_in = (omega arith, omega arith);
      day_in = (
        omega arith,
        day_in_month (century a * 100 + year_of_century a) (month_of (day_of_year a))
            (day_of_year a) m.1 y.1 (omega arith) m.0 (λ e. long-leap _ (day_of_year-IsLong a e)),
      );
    }

day_before :
    (y m : ℕ)
    → (m < 12)
    → (y + m / 10 - (14 - (m + 3 - 12 * (m / 10))) / 12 ≡ y)
      × (march_month (m + 3 - 12 * (m / 10)) ≡ m)
day_before y m h = omega arith

march_day-at : (a : ℕ) → march_day (year_at a) (month_at a) (day_at a) ≡ a
march_day-at a =
    let m = month_of-lt (day_of_year a) (day_of_year-lt a).1 in
    let b = day_before (century a * 100 + year_of_century a) (month_of (day_of_year a)) m.1 in
    rw (b.0, b.1) (omega (arith, parts-sum a, m.0))

-- Every day number from March 1 of -4800 on is that of one date, and its parts are those of that date.
pub get_julian_day_number-get_year_month_day :
    (a : ℕ)
    → (n : ℕ) × (month : ℕ) × (day : ℕ) × IsDate n month day
      × (get_year_month_day (pos a -ℤ pos 32044)
          ≡ record { year = year_of n; month = pos month; day = pos day })
      × (get_julian_day_number (year_of n) (pos month) (pos day) ≡ pos a -ℤ pos 32044)
unfolding date_of
get_julian_day_number-get_year_month_day a = (
  year_at a,
  month_at a,
  day_at a,
  at-IsDate a,
  get_year_month_day-march a,
  get_julian_day_number-march (year_at a) (month_at a) (day_at a) (at-IsDate a)
      ∙ ap (λ x. pos x -ℤ pos 32044) (march_day-at a),
)
