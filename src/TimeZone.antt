-- ===== src/TimeZone.antt =====
-- TimeZone.h and TimeZone.cc. `time_t` and `int` are ℤ. Of `tm_isdst` only whether it is
-- zero is kept, since nothing else of it is used.
pub mod Days
pub mod Utc
pub mod Zone
mod Examples
use multi_thread_log.Common.{
  ℕ, ◌+◌, ◌-◌, ◌*◌, ◌/◌, ◌%◌, ◌≡◌, refl, Bool, true, false, Option, none, some, List, [], ◌∷◌, ◌++◌,
  ltb, leb, ◌==◌, not, ◌||◌, if◌then◌else◌, ◌>>=◌, length, codes,
}
use multi_thread_log.Common.Int.{
  ℤ, pos, negsuc, pos_part, neg_part, ◌+ℤ◌, ◌-ℤ◌, ◌*ℤ◌, quot, rem, ltb_ℤ, eqb_ℤ,
}
use multi_thread_log.Date
use multi_thread_log.Date.{Date, k_julian_day_of_1970_01_01, year_month_day, week_day}

abbrev pub k_seconds_per_day : ℕ
k_seconds_per_day = 24 * 60 * 60

-- `struct tm`
pub record Tm : Type 0 where
  pub tm_sec : ℤ
  pub tm_min : ℤ
  pub tm_hour : ℤ
  pub tm_mday : ℤ
  pub tm_mon : ℤ
  pub tm_year : ℤ
  pub tm_wday : ℤ
  pub tm_yday : ℤ
  pub tm_isdst : Bool
  pub tm_gmtoff : ℤ
  pub tm_zone : List ℕ

abbrev pub zero_tm : Tm
zero_tm = record {
  tm_sec = pos 0;
  tm_min = pos 0;
  tm_hour = pos 0;
  tm_mday = pos 0;
  tm_mon = pos 0;
  tm_year = pos 0;
  tm_wday = pos 0;
  tm_yday = pos 0;
  tm_isdst = false;
  tm_gmtoff = pos 0;
  tm_zone = [];
}

-- `fillHMS`, whose argument is unsigned.
unfoldable pub fill_hms : ℕ → Tm → Tm
fill_hms seconds utc =
    let minutes = seconds / 60 in
    record utc {
      tm_sec = pos (seconds % 60);
      tm_min = pos (minutes % 60);
      tm_hour = pos (minutes / 60);
    }

-- The seconds within the day and the days, of `toUtcTime`.
unfoldable pub split_day : ℤ → ℤ × ℤ
split_day t =
    let seconds = rem t k_seconds_per_day in
    let days = quot t k_seconds_per_day in
    if ltb_ℤ seconds (pos 0)
    then (seconds +ℤ pos k_seconds_per_day, days -ℤ pos 1)
    else (seconds, days)

unfoldable pub to_utc_time : ℤ → Bool → Tm
unfolding split_day fill_hms
to_utc_time t yday =
    let s = split_day t in
    let utc = fill_hms (pos_part s.0) (record zero_tm { tm_zone = codes "GMT" }) in
    let date : Date = record { julian_day_number = s.1 +ℤ k_julian_day_of_1970_01_01 } in
    let ymd = year_month_day date in
    let start_of_year = Date.make ymd.year (pos 1) (pos 1) in
    record utc {
      tm_year = ymd.year -ℤ pos 1900;
      tm_mon = ymd.month -ℤ pos 1;
      tm_mday = ymd.day;
      tm_wday = week_day date;
      tm_yday = if yday then date.julian_day_number -ℤ start_of_year.julian_day_number else pos 0;
    }

-- `fromUtcTime(int, int, int, int, int, int)`
unfoldable pub from_utc_parts : ℤ → ℤ → ℤ → ℤ → ℤ → ℤ → ℤ
from_utc_parts year month day hour minute seconds =
    let date = Date.make year month day in
    let seconds_in_day = hour *ℤ pos 3600 +ℤ minute *ℤ pos 60 +ℤ seconds in
    let days = date.julian_day_number -ℤ k_julian_day_of_1970_01_01 in
    days *ℤ pos k_seconds_per_day +ℤ seconds_in_day

-- `fromUtcTime(const struct tm&)`
unfoldable pub from_utc_time : Tm → ℤ
unfolding from_utc_parts
from_utc_time utc =
    from_utc_parts (utc.tm_year +ℤ pos 1900) (utc.tm_mon +ℤ pos 1) utc.tm_mday utc.tm_hour
      utc.tm_min utc.tm_sec

-- `Date(const struct tm&)` of Date.cc.
unfoldable pub date_of_tm : Tm → Date
unfolding Date.make
date_of_tm t = Date.make (t.tm_year +ℤ pos 1900) (t.tm_mon +ℤ pos 1) t.tm_mday
