-- ===== src/CountDownLatch/Examples.antt =====
-- A latch of 1: thread 7 waits, thread 8 counts down.
use multi_thread_log.Common.{◌≤◌, ◌<◌, ◌≡◌, ◌≢◌}
use multi_thread_log.Common.Int.{pos, ◌-ℤ◌}
use multi_thread_log.CountDownLatch.{
  CountDownLatch, blocked, returned, make, wait, count_down, get_count, made, waits, counts,
}
use multi_thread_log.CountDownLatch.Waiting.{Reachable-returned}

abbrev some_latch : CountDownLatch
some_latch = count_down (wait 7 (make (pos 1)))

Reachable-returned_example :
    (get_count some_latch ≡ pos 1 -ℤ pos 1)
    × (1 < 1 → some_latch.waiter 7 ≢ returned)
    × (1 ≤ 1 → (some_latch.waiter 7 ≢ blocked) × ((wait 7 some_latch).waiter 7 ≡ returned))
Reachable-returned_example =
    Reachable-returned 1 1 some_latch 7
      (counts 0 (wait 7 (make (pos 1))) (waits 7 0 (make (pos 1)) made))
