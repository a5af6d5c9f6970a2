-- ===== src/TimeZone/Zone/Fixed.antt =====
-- Zones with one offset for all times.
use multi_thread_log.Common.{ℕ, ◌≡◌, refl, ap, false, some, List, ◌>>=◌, le→leb, arith, length}
use multi_thread_log.Common.Int.{ℤ, ◌+ℤ◌, +ℤ_cancel}
use multi_thread_log.TimeZone.{Tm}
use multi_thread_log.TimeZone.Zone.{find_localtime, make_fixed, to_local_time, from_local_time}

-- The local time of a fixed zone is the UTC time as many seconds later as the constructor was given, never
-- summer time, and has the zone's name.
pub to_local_time-make_fixed :
    (gmtime : ℤ → Tm) (east_utc seconds : ℤ) (name : List ℕ)
    → to_local_time gmtime (make_fixed east_utc name) seconds
      ≡ some (record (gmtime (seconds +ℤ east_utc)) {
        tm_isdst = false;
        tm_gmtoff = east_utc;
        tm_zone = name;
      })
unfolding to_local_time make_fixed find_localtime
to_local_time-make_fixed gmtime east_utc seconds name =
    rw (le→leb 0 (length name) (omega arith)) refl

-- If `timegm` takes back what `gmtime_r` makes of a time, whatever zone the result was given, then for a fixed
-- zone `fromLocalTime` takes back what `toLocalTime` makes of it.
from_local_time-to_local_time :
    (gmtime : ℤ → Tm) (timegm : Tm → ℤ) (east_utc seconds : ℤ) (name : List ℕ)
    → ((t o : ℤ) (z : List ℕ)
        → timegm (record (gmtime t) { tm_isdst = false; tm_gmtoff = o; tm_zone = z }) ≡ t)
    → (to_local_time gmtime (make_fixed east_utc name) seconds
        >>= from_local_time gmtime timegm (make_fixed east_utc name))
      ≡ some seconds
unfolding from_local_time make_fixed find_localtime
from_local_time-to_local_time gmtime timegm east_utc seconds name back =
    rw
      (
        to_local_time-make_fixed gmtime east_utc seconds name,
        back (seconds +ℤ east_utc) east_utc name,
      )
      (ap some (+ℤ_cancel seconds east_utc))
