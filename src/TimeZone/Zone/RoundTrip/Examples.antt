-- ===== src/TimeZone/Zone/RoundTrip/Examples.antt =====
-- A zone with summer time.
use multi_thread_log.Common.{◌≡◌, inl, inr, refl, true, false, some, [], ◌∷◌, codes}
use multi_thread_log.Common.Int.{ℤ, pos, ◌+ℤ◌, ◌-ℤ◌}
use multi_thread_log.TimeZone.{Tm}
use multi_thread_log.TimeZone.Zone.{
  Localtime, Data, find_localtime, settle, settle_at, lower_bound, to_local_time, from_local_time,
}
use multi_thread_log.TimeZone.Zone.RoundTrip.{at_gmt, from_local_time-to_local_time_clear}

abbrev summer : Localtime
summer = record { gmt_offset = pos 7200; is_dst = true; arrb_idx = 0 }

abbrev winter : Localtime
winter = record { gmt_offset = pos 3600; is_dst = false; arrb_idx = 5 }

-- At 9000 the clock is put back from 16200 to 12600.
abbrev two_changes : Data
two_changes = record {
  transitions =
      record { gmttime = pos 1000; localtime = pos 8200; localtime_idx = 0 }
      ∷ record { gmttime = pos 9000; localtime = pos 12600; localtime_idx = 1 }
      ∷ [];
  localtimes = summer ∷ winter ∷ [];
  abbreviation = codes "CEST CET";
}

-- A `gmtime_r` that puts all into the seconds, and the `timegm` that takes them back.
abbrev seconds_only : ℤ → Tm
seconds_only t = record {
  tm_sec = t;
  tm_min = pos 0;
  tm_hour = pos 0;
  tm_mday = pos 1;
  tm_mon = pos 0;
  tm_year = pos 70;
  tm_wday = pos 4;
  tm_yday = pos 0;
  tm_isdst = false;
  tm_gmtoff = pos 0;
  tm_zone = [];
}

-- 12200 in summer.
abbrev shown : Tm
shown = record (seconds_only (pos 12200)) {
  tm_isdst = true;
  tm_gmtoff = pos 7200;
  tm_zone = codes "CEST CET";
}

in_summer : find_localtime two_changes (at_gmt (pos 5000)) true ≡ some summer
unfolding find_localtime settle settle_at lower_bound
in_summer = refl

shown_runs : to_local_time seconds_only (some two_changes) (pos 5000) ≡ some shown
unfolding to_local_time find_localtime settle settle_at lower_bound ◌+ℤ◌
shown_runs = refl

from_local_time-to_local_time_clear_example :
    from_local_time seconds_only (λ tm. tm.tm_sec) (some two_changes) shown ≡ some (pos 5000)
unfolding ◌+ℤ◌
from_local_time-to_local_time_clear_example =
    from_local_time-to_local_time_clear seconds_only (λ tm. tm.tm_sec) two_changes (pos 5000) summer
      shown ((summer, refl, refl), ((winter, refl, refl), tt)) (refl, tt) (refl, tt) in_summer
      (inl refl, (inr refl, tt)) (λ t o dst z. refl) shown_runs

-- A time that the clock shows twice is taken for the later one.
twice :
    from_local_time seconds_only
      (λ tm. tm.tm_sec)
      (some two_changes)
      (record (seconds_only (pos 13000)) { tm_isdst = false })
    ≡ some (pos 9400)
unfolding from_local_time to_local_time find_localtime settle settle_at lower_bound ◌+ℤ◌ ◌-ℤ◌
twice = refl
