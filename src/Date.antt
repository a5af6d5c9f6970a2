-- ===== src/Date.antt =====
-- Date.h and Date.cc. `int` is ℤ here, with the division of C++; its overflow, which takes
-- years beyond a million, is left out.
pub mod March
pub mod Calendar
mod Examples
use multi_thread_log.Common.{
  ℕ, ◌+◌, ◌-◌, length, replicate, ◌≡◌, refl, Bool, List, ◌++◌, ◌∷◌, [], codes, if◌then◌else◌,
}
use multi_thread_log.Common.Decimal.{print_blank, print_zero, snprintf}
use multi_thread_log.Common.Int.{ℤ, pos, negsuc, magnitude, ◌+ℤ◌, ◌-ℤ◌, ◌*ℤ◌, ltb_ℤ, quot, rem}

unfoldable pub get_julian_day_number : ℤ → ℤ → ℤ → ℤ
get_julian_day_number year month day =
    let a = quot (pos 14 -ℤ month) 12 in
    let y = year +ℤ pos 4800 -ℤ a in
    let m = month +ℤ pos 12 *ℤ a -ℤ pos 3 in
    day
    +ℤ quot (pos 153 *ℤ m +ℤ pos 2) 5
    +ℤ y *ℤ pos 365
    +ℤ quot y 4
    -ℤ quot y 100
    +ℤ quot y 400
    -ℤ pos 32045

pub record YearMonthDay : Type 0 where
  pub year : ℤ
  pub month : ℤ
  pub day : ℤ

unfoldable pub get_year_month_day : ℤ → YearMonthDay
get_year_month_day julian_day_number =
    let a = julian_day_number +ℤ pos 32044 in
    let b = quot (pos 4 *ℤ a +ℤ pos 3) 146097 in
    let c = a -ℤ quot (b *ℤ pos 146097) 4 in
    let d = quot (pos 4 *ℤ c +ℤ pos 3) 1461 in
    let e = c -ℤ quot (pos 1461 *ℤ d) 4 in
    let m = quot (pos 5 *ℤ e +ℤ pos 2) 153 in
    record {
      day = e -ℤ quot (pos 153 *ℤ m +ℤ pos 2) 5 +ℤ pos 1;
      month = m +ℤ pos 3 -ℤ pos 12 *ℤ quot m 10;
      year = b *ℤ pos 100 +ℤ d -ℤ pos 4800 +ℤ quot m 10;
    }

pub record Date : Type 0 where
  pub julian_day_number : ℤ

abbrev pub k_days_per_week : ℕ
k_days_per_week = 7

unfoldable pub k_julian_day_of_1970_01_01 : ℤ
unfolding get_julian_day_number
k_julian_day_of_1970_01_01 = get_julian_day_number (pos 1970) (pos 1) (pos 1)

-- `Date()`, which is not valid, and `Date(int, int, int)`.
abbrev pub invalid : Date
invalid = record { julian_day_number = pos 0 }

unfoldable pub make : ℤ → ℤ → ℤ → Date
unfolding get_julian_day_number
make y m d = record { julian_day_number = get_julian_day_number y m d }

unfoldable pub valid : Date → Bool
valid t = ltb_ℤ (pos 0) t.julian_day_number

unfoldable pub year_month_day : Date → YearMonthDay
unfolding get_year_month_day
year_month_day t = get_year_month_day t.julian_day_number

unfoldable pub week_day : Date → ℤ
week_day t = rem (t.julian_day_number +ℤ pos 1) k_days_per_week

unfoldable pub to_iso_string : Date → List ℕ
unfolding year_month_day
to_iso_string t =
    let ymd = year_month_day t in
    snprintf 32
      (print_blank 4 ymd.year ++ (b'-' ∷ (print_zero 2 ymd.month ++ (b'-' ∷ print_zero 2 ymd.day))))

-- `swap`: the two dates, exchanged.
unfoldable pub swap : Date × Date → Date × Date
swap (this, that) = (
  record this { julian_day_number = that.julian_day_number },
  record that { julian_day_number = this.julian_day_number },
)
