-- ===== src/Mutex/Deadline/Examples.antt =====
-- Waits of whole seconds.
use multi_thread_log.Common.{◌<◌, ◌≡◌, refl, arith}
use multi_thread_log.Common.Double.{whole_double}
use multi_thread_log.Common.Int.{pos, negsuc, ◌+ℤ◌, ◌*ℤ◌, ◌≤ℤ◌, pos_part, quot, rem}
use multi_thread_log.Mutex.Deadline.{Timespec, k_nano_seconds_per_second, nanoseconds, deadline}
use multi_thread_log.Mutex.Deadline.Reached.{total, deadline-total}

abbrev now : Timespec
now = record { tv_sec = pos 100; tv_nsec = pos 999999999 }

deadline-total_example :
    (total (deadline now (pos 3)) ≡ total now +ℤ nanoseconds (pos 3))
    × (pos 0 ≤ℤ (deadline now (pos 3)).tv_nsec)
    × (pos_part (deadline now (pos 3)).tv_nsec < k_nano_seconds_per_second)
unfolding nanoseconds ◌*ℤ◌
deadline-total_example = deadline-total now (pos 3) (omega arith) (omega arith)

-- A time that is over.
negative_runs :
    deadline (record { tv_sec = pos 100; tv_nsec = pos 0 }) (negsuc 0)
    ≡ record { tv_sec = pos 99; tv_nsec = pos 0 }
unfolding deadline nanoseconds ◌+ℤ◌ ◌*ℤ◌ quot rem
negative_runs = refl
