-- ===== src/Date/Calendar/NextDay.antt =====
-- The order of the days: what follows a date, in Julian day numbers and in week days.
use multi_thread_log.Common.{
  ℕ, ◌+◌, ◌-◌, ◌*◌, ◌/◌, ◌%◌, ◌≤◌, ◌<◌, ◌≡◌, ◌≢◌, refl, sym, ap, ◌∙◌, true, false, ltb,
  if◌then◌else◌, arith, inl, inr, ◌⊎◌, ℕ_discrete, Bool-cases,
}
use multi_thread_log.Common.Int.{ℤ, pos, negsuc, ◌+ℤ◌, rem, int_laws, +ℤ_pos, ltb_ℤ}
use multi_thread_log.Date.{get_julian_day_number, week_day, make, valid, k_days_per_week}
use multi_thread_log.Date.March.{month_start, year_start}
use multi_thread_log.Date.Calendar.{
  year_of, is_leap, days_in_month, IsDate, march_month, march_day, get_julian_day_number-march,
  leap_year,
}

-- The date of the next day.
abbrev pub next_day : ℕ → ℕ → ℕ → ℕ × ℕ × ℕ
next_day n month day =
    if ltb day (days_in_month n month)
    then (n, month, day + 1)
    else if ltb month 12
    then (n, month + 1, 1)
    else (n + 1, 1, 1)

month_end :
    (n month : ℕ)
    → 1 ≤ month
    → month < 12
    → month ≢ 2
    → (month_start (march_month month) + days_in_month n month
        ≡ month_start (march_month (month + 1)))
      × ((14 - month) / 12 ≡ (14 - (month + 1)) / 12)
month_end n month h lt other = ground arith

-- February is the last month of a year that begins with March.
february_end :
    (y : ℕ) → year_start y + month_start 11 + days_in_month (y + 1) 2 ≡ year_start (y + 1)
february_end y = elim (Bool-cases (is_leap (y + 1))) [
  | inl l ↦ rw l (omega (arith, leap_year (y + 1) l))
  | inr l ↦ rw l (omega (arith, common_year (y + 1) l))
]
  where
    common_year : (n : ℕ) → is_leap n ≡ false → (n % 4 ≢ 0) ⊎ ((n % 100 ≡ 0) × (n % 400 ≢ 0))
    common_year n h = ground arith

month_end-march_day :
    (n month : ℕ)
    → 3 ≤ n * 12 + month
    → 1 ≤ month
    → month < 12
    → march_day n (month + 1) 1 ≡ march_day n month (days_in_month n month) + 1
month_end-march_day n month nb h lt = elim (ℕ_discrete month 2) [
  | yes feb ↦
      let y : n ≡ n - 1 + 1 = omega (arith, feb) in
      rw feb (omega (arith, february_end (n - 1), ap (λ x. days_in_month x 2) y, ap year_start y))
  | no other ↦
      let m = month_end n month h lt other in omega (arith, ap (λ x. year_start (n - x)) m.1, m.0)
]

year_end-march_day :
    (n month day : ℕ)
    → IsDate n month day
    → month ≡ 12
    → day ≡ days_in_month n month
    → march_day (n + 1) 1 1 ≡ march_day n month day + 1
year_end-march_day n month day v december last =
    let d : day ≡ 31 = last ∙ ap (days_in_month n) december in rw (december, d) (omega arith)

march_day-next :
    (n month day : ℕ)
    → IsDate n month day
    → let t = next_day n month day in
      IsDate t.0 t.1 t.2 × (march_day t.0 t.1 t.2 ≡ march_day n month day + 1)
march_day-next n month day v = elim (Bool-cases (ltb day (days_in_month n month))) [
  | inl e ↦ rw e (
    record {
      not_before = v.not_before;
      month_in = v.month_in;
      day_in = (omega arith, ground arith);
    },
    omega (arith, v.day_in),
  )
  | inr e ↦
      let last : day ≡ days_in_month n month = ground (arith, v.day_in) in
      elim (Bool-cases (ltb month 12)) [
        | inl f ↦
            rw (e, f)
              (
                record {
                  not_before = omega (arith, v.not_before);
                  month_in = (omega arith, ground arith);
                  day_in = (omega arith, ground arith);
                },
                month_end-march_day n month v.not_before (v.month_in).0 (ground arith)
                    ∙ ap (λ d. march_day n month d + 1) (sym last),
              )
        | inr f ↦
            rw (e, f)
              (
                record {
                  not_before = omega (arith, v.not_before);
                  month_in = (omega arith, omega arith);
                  day_in = (omega arith, ground arith);
                },
                year_end-march_day n month day v (ground (arith, v.month_in)) last,
              )
      ]
]

-- The day after a date of the calendar has the next Julian day number.
pub get_julian_day_number-next_day :
    (n month day : ℕ)
    → IsDate n month day
    → let t = next_day n month day in
      IsDate t.0 t.1 t.2
      × (get_julian_day_number (year_of t.0) (pos t.1) (pos t.2)
          ≡ get_julian_day_number (year_of n) (pos month) (pos day) +ℤ pos 1)
get_julian_day_number-next_day n month day v =
    let t = next_day n month day in
    let p = march_day-next n month day v in
    (
      p.0,
      rw
          (
            get_julian_day_number-march n month day v,
            get_julian_day_number-march t.0 t.1 t.2 p.0,
            p.1,
          )
          (omega int_laws),
    )

-- The week days of the valid dates go round: one day after another, from 0 to 6.
week_day-next_day :
    (n month day : ℕ)
    → IsDate n month day
    → valid (make (year_of n) (pos month) (pos day)) ≡ true
    → let t = next_day n month day in
      (k : ℕ) × (k < k_days_per_week)
      × (week_day (make (year_of n) (pos month) (pos day)) ≡ pos k)
      × (week_day (make (year_of t.0) (pos t.1) (pos t.2)) ≡ pos ((k + 1) % k_days_per_week))
unfolding week_day make valid rem
week_day-next_day n month day v ok =
    week_day_of (get_julian_day_number (year_of n) (pos month) (pos day)) _ ok
      (get_julian_day_number-next_day n month day v).1
  where
    week_day_of :
        (j j' : ℤ)
        → ltb_ℤ (pos 0) j ≡ true
        → j' ≡ j +ℤ pos 1
        → (k : ℕ) × (k < 7)
          × (rem (j +ℤ pos 1) 7 ≡ pos k)
          × (rem (j' +ℤ pos 1) 7 ≡ pos ((k + 1) % 7))
    week_day_of (pos j) j' ok e = (
      (j + 1) % 7,
      omega arith,
      rw (+ℤ_pos j 1) refl,
      rw (e, +ℤ_pos j 1, +ℤ_pos (j + 1) 1) (ap pos (omega arith)),
    )
    week_day_of (negsuc j) j' ok e = absurd (ground (arith, ok))
