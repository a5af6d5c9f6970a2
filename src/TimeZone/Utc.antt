-- ===== src/TimeZone/Utc.antt =====
-- The conversions between seconds and UTC dates.
use multi_thread_log.Common.{ℕ, ◌/◌, ◌≡◌, sym, ap, ◌∙◌, Bool}
use multi_thread_log.Common.Int.{pos, ◌+ℤ◌, ◌-ℤ◌, ◌*ℤ◌}
use multi_thread_log.Date
use multi_thread_log.Date.{
  Date, YearMonthDay, get_julian_day_number, get_year_month_day, k_julian_day_of_1970_01_01,
  year_month_day, week_day,
}
use multi_thread_log.Date.Calendar.{IsDate, year_of}
use multi_thread_log.Date.Calendar.RoundTrip.{get_julian_day_number-get_year_month_day}
use multi_thread_log.TimeZone.{
  Tm, fill_hms, split_day, to_utc_time, from_utc_parts, from_utc_time, date_of_tm,
}
use multi_thread_log.TimeZone.Days.{
  split_day-Split, epoch, time_at, day_at, day_back, less_and_more, clock,
}

-- The date of a day, as `Date` has it.
record DateAt (a : ℕ) : Type 0 where
  n : ℕ
  month : ℕ
  day : ℕ
  date_in : IsDate n month day
  taken :
      year_month_day (record { julian_day_number = pos a -ℤ pos 32044 })
      ≡ record { year = year_of n; month = pos month; day = pos day }
  made :
      Date.make (year_of n) (pos month) (pos day)
      ≡ record { julian_day_number = pos a -ℤ pos 32044 }

date_at : (a : ℕ) → DateAt a
unfolding year_month_day Date.make
date_at a =
    let c = get_julian_day_number-get_year_month_day a in
    record {
      n = c.0;
      month = c.1;
      day = c.2;
      date_in = c.3;
      taken = c.4;
      made = ap (λ j. record { julian_day_number = j }) c.5;
    }

-- Each second from March 1 of -4800 on, before the epoch as after it, is given back by the conversion to a UTC
-- date and time and the conversion from it.
pub from_utc_time-to_utc_time :
    (u : ℕ) (yday : Bool) → from_utc_time (to_utc_time (time_at u) yday) ≡ time_at u
unfolding from_utc_time to_utc_time from_utc_parts fill_hms
from_utc_time-to_utc_time u yday =
    let w = split_day-Split (time_at u) in
    let c = date_at (u / 86400) in
    let j = day_at u w.second (split_day (time_at u)).1 w.in_day w.sum in
    rw
      (
        w.second_is,
        epoch,
        j,
        c.taken,
        less_and_more (year_of c.n) 1900,
        less_and_more (pos c.month) 1,
        c.made,
        clock w.second,
      )
      (ap (λ d. d *ℤ pos 86400 +ℤ pos w.second) (day_back _ _ j) ∙ sym w.sum)

-- A date and a time of the day as a `struct tm` holds them.
pub record Holds (n month day hour minute second : ℕ) (utc : Tm) : Type 0 where
  pub year_is : utc.tm_year ≡ year_of n -ℤ pos 1900
  pub month_is : utc.tm_mon ≡ pos month -ℤ pos 1
  pub day_is : utc.tm_mday ≡ pos day
  pub hour_is : utc.tm_hour ≡ pos hour
  pub minute_is : utc.tm_min ≡ pos minute
  pub second_is : utc.tm_sec ≡ pos second
  pub week_day_is : utc.tm_wday ≡ week_day (Date.make (year_of n) (pos month) (pos day))

-- The date that is made of the UTC date and time of a second, from March 1 of -4800 on, before the epoch as after it, is that of
-- its day, counted from noon of November 24 of -4713: that March 1 is day -32044.
pub date_of_tm-to_utc_time :
    (u : ℕ) (yday : Bool)
    → date_of_tm (to_utc_time (time_at u) yday)
      ≡ record { julian_day_number = pos (u / 86400) -ℤ pos 32044 }
unfolding date_of_tm to_utc_time fill_hms
date_of_tm-to_utc_time u yday =
    let w = split_day-Split (time_at u) in
    let c = date_at (u / 86400) in
    let j = day_at u w.second (split_day (time_at u)).1 w.in_day w.sum in
    rw (epoch, j, c.taken, less_and_more (year_of c.n) 1900, less_and_more (pos c.month) 1) c.made
