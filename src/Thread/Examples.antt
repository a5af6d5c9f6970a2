-- ===== src/Thread/Examples.antt =====
-- A thread of number 4712, started by thread 4711.
use multi_thread_log.Common.{◌≡◌, refl, true, arith, codes}
use multi_thread_log.Common.Decimal.{decimal}
use multi_thread_log.CountDownLatch.{returned}
use multi_thread_log.CurrentThread
use multi_thread_log.CurrentThread.{CurrentThread}
use multi_thread_log.Thread.{
  Thread, make, start, await, is_asserted, run_tid, run_count_down, run_name, born, running, unborn,
  State, Reachable, made, starts, awaits, tells, counts_down,
}
use multi_thread_log.Thread.Starting.{HasBegun, Reachable-asserted}

abbrev new_thread : Thread
new_thread = (make 2 (codes "")).0

abbrev started_thread : Thread
started_thread = record new_thread { started = true }

abbrev told_thread : Thread × CurrentThread
told_thread = run_tid 4712 (started_thread, CurrentThread.fresh)

-- The other thread tests the count between the two statements, and again after them.
abbrev begun : State
begun = record {
  thread = await 4711 (run_count_down (await 4711 told_thread.0));
  child = running (run_name (await 4711 told_thread.0) told_thread.1);
}

begun-Reachable : Reachable 4712 begun
unfolding start make run_tid run_count_down await
begun-Reachable =
    awaits _ 4711
      (counts_down _ told_thread.1
        (awaits _ 4711
          (tells (record { thread = started_thread; child = born })
            (starts (record { thread = new_thread; child = unborn }) started_thread
              (made 2 (codes "")) refl)
            refl)
          refl)
        refl)
      refl

Reachable-asserted_example :
    (begun.thread.latch.waiter 4711 ≡ returned
      → (begun.thread.tid ≡ 4712) × (is_asserted begun.thread ≡ true))
    × (HasBegun begun.child → (await 4711 begun.thread).latch.waiter 4711 ≡ returned)
Reachable-asserted_example = Reachable-asserted 4712 begun 4711 (omega arith) begun-Reachable

make_runs : new_thread.name ≡ codes "Thread3"
unfolding make decimal
make_runs = refl
