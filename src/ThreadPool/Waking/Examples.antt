-- ===== src/ThreadPool/Waking/Examples.antt =====
-- A pool with one place: a worker sleeps, a task comes and the worker is woken.
use multi_thread_log.Common.{◌-◌, ◌≤◌, ◌≡◌, ◌⊎◌, refl, true, [], ◌∷◌, length}
use multi_thread_log.ThreadPool.{make, run_locked, take_locked, pop_front}
use multi_thread_log.ThreadPool.Waking.{
  Monitor, nobody, sleep, notify, run_ends, run, take_ends, take, start, made, starts, runs, takes,
}
use multi_thread_log.ThreadPool.Waking.Awake.{Reachable-woken}

-- Two workers find no task, and then task 5 comes.
abbrev called : Monitor
called =
    run 5 (take (take (start (record { pool = make 1; not_empty = nobody; not_full = nobody }))))

called_runs : (called.pool.queue ≡ 5 ∷ []) × (called.not_empty ≡ record { sleeping = 1; woken = 1 })
unfolding make run_locked take_locked pop_front sleep notify run_ends run take_ends take start
called_runs = (refl, refl)

Reachable-woken_example :
    ((called.not_empty.sleeping ≡ 0) ⊎ (length called.pool.queue ≤ called.not_empty.woken))
    × ((called.not_full.sleeping ≡ 0) ⊎ (1 - length called.pool.queue ≤ called.not_full.woken))
    × ((called.pool.running ≡ true)
        ⊎ ((called.not_empty.sleeping ≡ 0) × (called.not_full.sleeping ≡ 0)))
Reachable-woken_example = Reachable-woken (runs _ 5 (takes _ (takes _ (starts _ made))))
