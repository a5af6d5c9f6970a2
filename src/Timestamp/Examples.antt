-- ===== src/Timestamp/Examples.antt =====
-- Timestamps at concrete inputs.
use multi_thread_log.Common.{◌≡◌, arith, refl, true, false, codes}
use multi_thread_log.Common.Decimal.{padded, decimal, print_blank, print_zero}
use multi_thread_log.Common.Double.{whole_double, whole-IsExact}
use multi_thread_log.Timestamp.Seconds.{add_time-time_difference}
use multi_thread_log.Common.Int.{ℤ, pos, negsuc, ◌+ℤ◌, ◌-ℤ◌, ◌*ℤ◌, quot, rem}
use multi_thread_log.Date
use multi_thread_log.Date.{
  get_julian_day_number, get_year_month_day, year_month_day, week_day, k_julian_day_of_1970_01_01,
}
use multi_thread_log.TimeZone.{to_utc_time, split_day, fill_hms}
use multi_thread_log.Timestamp.Printed.{read_back, read_back-to_string}
use multi_thread_log.Timestamp.{
  time_difference, add_time, from_unix_time, to_string, print_tm, to_formatted_string,
}

printed : to_string (from_unix_time (pos 12) (pos 34)) ≡ codes "12.000034"
unfolding to_string from_unix_time print_blank print_zero padded decimal ◌+ℤ◌ ◌*ℤ◌ quot rem
printed = refl

-- A microsecond before the epoch.
printed_before : to_string (from_unix_time (pos 0) (negsuc 0)) ≡ codes "0.-00001"
unfolding to_string from_unix_time print_blank print_zero padded decimal ◌+ℤ◌ ◌*ℤ◌ quot rem
printed_before = refl

formatted :
    to_formatted_string (λ t. to_utc_time t false) (from_unix_time (pos 86399) (pos 7)) true
    ≡ codes "19700101 23:59:59.000007"
unfolding to_formatted_string from_unix_time print_tm print_blank print_zero padded decimal ◌+ℤ◌
    ◌-ℤ◌ ◌*ℤ◌ quot rem to_utc_time split_day fill_hms year_month_day get_year_month_day
    get_julian_day_number week_day Date.make k_julian_day_of_1970_01_01
formatted = refl

-- 2021-12-17 08:05:09, and a microsecond.
read_back-to_string_example :
    read_back (to_string (record { micro_seconds_since_epoch = pos 1639728309000001 }))
    ≡ 1639728309000001
read_back-to_string_example = read_back-to_string 1639728309000001 (omega arith)

-- Ten seconds, computed in whole numbers.
add_time-time_difference_example :
    (time_difference
        (record { micro_seconds_since_epoch = pos 12000034 })
        (record { micro_seconds_since_epoch = pos 2000034 })
      ≡ pos 10)
    × (add_time
          (record { micro_seconds_since_epoch = pos 2000034 })
          (time_difference {D = ℤ}
            (record { micro_seconds_since_epoch = pos 12000034 })
            (record { micro_seconds_since_epoch = pos 2000034 }))
        ≡ record { micro_seconds_since_epoch = pos 12000034 })
unfolding ◌+ℤ◌ ◌*ℤ◌
add_time-time_difference_example =
    add_time-time_difference whole-IsExact (record { micro_seconds_since_epoch = pos 12000034 })
      (record { micro_seconds_since_epoch = pos 2000034 }) (pos 10) refl (omega arith)
