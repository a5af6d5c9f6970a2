-- ===== src/TimeZone/Zone/InForce/Examples.antt =====
-- A zone with two transitions.
use multi_thread_log.Common.{◌≡◌, refl, true, false, some, [], ◌∷◌, codes}
use multi_thread_log.Common.Lists.{get_elem?}
use multi_thread_log.Common.Int.{pos}
use multi_thread_log.TimeZone.Zone.{
  Transition, Localtime, Data, find_localtime, settle, settle_at, lower_bound,
}
use multi_thread_log.TimeZone.Zone.InForce.{find_localtime-in_force, index_in_force}

abbrev summer : Localtime
summer = record { gmt_offset = pos 7200; is_dst = true; arrb_idx = 0 }

abbrev winter : Localtime
winter = record { gmt_offset = pos 3600; is_dst = false; arrb_idx = 5 }

abbrev two_changes : Data
two_changes = record {
  transitions =
      record { gmttime = pos 1000; localtime = pos 8200; localtime_idx = 0 }
      ∷ record { gmttime = pos 9000; localtime = pos 12600; localtime_idx = 1 }
      ∷ [];
  localtimes = summer ∷ winter ∷ [];
  abbreviation = codes "CEST CET";
}

-- A time between the two, and the time of the second.
abbrev between : Transition
between = record { gmttime = pos 5000; localtime = pos 0; localtime_idx = 0 }

abbrev at_second : Transition
at_second = record { gmttime = pos 9000; localtime = pos 0; localtime_idx = 0 }

find_localtime-in_force_example :
    find_localtime two_changes between true
    ≡ get_elem? two_changes.localtimes (index_in_force true two_changes.transitions between)
find_localtime-in_force_example = find_localtime-in_force two_changes between true (refl, tt)

found_times :
    (find_localtime two_changes between true ≡ some summer)
    × (find_localtime two_changes at_second true ≡ some winter)
unfolding find_localtime settle settle_at lower_bound
found_times = (refl, refl)
