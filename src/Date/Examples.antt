-- ===== src/Date/Examples.antt =====
-- Dates at concrete inputs.
use multi_thread_log.Common.{ℕ, ◌≡◌, refl, true, false, codes, arith}
use multi_thread_log.Common.Decimal.{padded, print_blank, print_zero}
use multi_thread_log.Common.Int.{pos, ◌+ℤ◌, ◌-ℤ◌, ◌*ℤ◌, quot, rem}
use multi_thread_log.Date.{
  get_julian_day_number, get_year_month_day, k_julian_day_of_1970_01_01, week_day, make, valid,
  invalid, to_iso_string, year_month_day,
}
use multi_thread_log.Date.Calendar.{IsDate, year_of}
use multi_thread_log.Date.Calendar.RoundTrip.{
  get_year_month_day-get_julian_day_number, get_julian_day_number-get_year_month_day,
}

-- February 29, 2000, is a Tuesday.
leap_day-IsDate : IsDate 6800 2 29
leap_day-IsDate = record {
  not_before = omega arith;
  month_in = (omega arith, omega arith);
  day_in = (omega arith, omega arith);
}

get_year_month_day-get_julian_day_number_example :
    get_year_month_day (get_julian_day_number (year_of 6800) (pos 2) (pos 29))
    ≡ record { year = year_of 6800; month = pos 2; day = pos 29 }
get_year_month_day-get_julian_day_number_example =
    get_year_month_day-get_julian_day_number 6800 2 29 leap_day-IsDate

get_julian_day_number-get_year_month_day_example :
    (n : ℕ) × (month : ℕ) × (day : ℕ) × IsDate n month day
    × (get_year_month_day (pos 2472632 -ℤ pos 32044)
        ≡ record { year = year_of n; month = pos month; day = pos day })
    × (get_julian_day_number (year_of n) (pos month) (pos day) ≡ pos 2472632 -ℤ pos 32044)
get_julian_day_number-get_year_month_day_example = get_julian_day_number-get_year_month_day 2472632

leap_day-valid : valid (make (year_of 6800) (pos 2) (pos 29)) ≡ true
unfolding valid make get_julian_day_number ◌-ℤ◌ ◌+ℤ◌ ◌*ℤ◌ quot
leap_day-valid = refl

-- The epoch is a Thursday.
epoch :
    (k_julian_day_of_1970_01_01 ≡ pos 2440588)
    × (week_day (make (pos 1970) (pos 1) (pos 1)) ≡ pos 4)
    × (valid invalid ≡ false)
unfolding valid k_julian_day_of_1970_01_01 week_day make get_julian_day_number ◌-ℤ◌ ◌+ℤ◌ ◌*ℤ◌ quot
    rem
epoch = (refl, refl, refl)

epoch-printed : to_iso_string (make (pos 1970) (pos 1) (pos 1)) ≡ codes "1970-01-01"
unfolding to_iso_string year_month_day get_year_month_day make get_julian_day_number ◌-ℤ◌ ◌+ℤ◌ ◌*ℤ◌
    quot print_blank print_zero padded
epoch-printed = refl
