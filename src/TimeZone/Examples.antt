-- ===== src/TimeZone/Examples.antt =====
-- Times at concrete inputs.
use multi_thread_log.Common.{◌-◌, ◌≡◌, refl, true}
use multi_thread_log.Common.Int.{pos, negsuc, ◌+ℤ◌, ◌-ℤ◌, ◌*ℤ◌, quot, rem}
use multi_thread_log.Date
use multi_thread_log.Date.{
  get_julian_day_number, get_year_month_day, year_month_day, week_day, k_julian_day_of_1970_01_01,
}
use multi_thread_log.TimeZone.{split_day, fill_hms, to_utc_time, from_utc_time}
use multi_thread_log.TimeZone.Days.{time_at, seconds_before_epoch}
use multi_thread_log.Common.{◌/◌}
use multi_thread_log.TimeZone.{date_of_tm}
use multi_thread_log.TimeZone.Utc.{date_of_tm-to_utc_time, from_utc_time-to_utc_time}

-- The second before the epoch.
from_utc_time-to_utc_time_example :
    from_utc_time (to_utc_time (time_at (seconds_before_epoch - 1)) true)
    ≡ time_at (seconds_before_epoch - 1)
from_utc_time-to_utc_time_example = from_utc_time-to_utc_time (seconds_before_epoch - 1) true

date_of_tm-to_utc_time_example :
    date_of_tm (to_utc_time (time_at (seconds_before_epoch - 1)) true)
    ≡ record { julian_day_number = pos ((seconds_before_epoch - 1) / 86400) -ℤ pos 32044 }
date_of_tm-to_utc_time_example = date_of_tm-to_utc_time (seconds_before_epoch - 1) true

last_second : to_utc_time (negsuc 0) true ≡ record (to_utc_time (negsuc 0) true) {
  tm_hour = pos 23;
  tm_min = pos 59;
  tm_sec = pos 59;
  tm_year = pos 69;
  tm_mon = pos 11;
  tm_mday = pos 31;
  tm_wday = pos 3;
  tm_yday = pos 364;
}
unfolding to_utc_time split_day fill_hms year_month_day get_year_month_day get_julian_day_number
    week_day Date.make k_julian_day_of_1970_01_01 ◌+ℤ◌ ◌-ℤ◌ ◌*ℤ◌ quot rem
last_second = refl
