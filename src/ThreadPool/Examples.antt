-- ===== src/ThreadPool/Examples.antt =====
-- A run of a pool with one worker and room for one task.
use multi_thread_log.Common.{ℕ, zero, suc, ◌≡◌, ◌≢◌, refl, true, some, List, [], ◌∷◌, ◌++◌}
use multi_thread_log.Common.Lists.{get_elem?}
use multi_thread_log.ThreadPool.{
  Pool, make, run_locked, take_locked, pop_front, Worker, starting, testing, taking, sleeping,
  working, System, Event, starts, moves, accepts, takes, do_start, do_init, do_run, do_test,
  do_wait, do_take, wakes_one, wakes_nobody, Run, begin, then_step,
}
use multi_thread_log.ThreadPool.Order.{accepted, taken, Run-order}

abbrev pool : List ℕ → Pool
pool queue = record { running = true; max_queue_size = 1; queue = queue }

-- The worker finds no task and sleeps; tasks 7 and 8 are given to the pool, and the worker has taken the first.
abbrev events : List Event
events = accepts 8 ∷ takes 7 ∷ accepts 7 ∷ moves ∷ moves ∷ moves ∷ starts ∷ []

abbrev with_worker : List ℕ → Worker → System
with_worker queue w = record { pool = pool queue; workers = w ∷ [] }

abbrev last_state : System
last_state = with_worker (8 ∷ []) (working 7)

nobody_sleeps : (i : ℕ) → get_elem? (working 7 ∷ []) i ≢ some sleeping
nobody_sleeps zero e = cc e
nobody_sleeps (suc i) e = cc e

two_tasks : Run 1 events last_state
unfolding make run_locked take_locked pop_front
two_tasks =
    then_step {s = with_worker [] (working 7)}
      (then_step {s = with_worker (7 ∷ []) taking}
        (then_step {s = with_worker [] sleeping}
          (then_step {s = with_worker [] taking}
            (then_step {s = with_worker [] testing}
              (then_step {s = with_worker [] starting} (then_step begin (do_start 1 refl refl))
                (do_init 0 refl refl))
              (do_test 0 refl refl))
            (do_wait 0 refl refl refl))
          (do_run 7 (pool (7 ∷ [])) _ (λ e. cc e) refl refl (wakes_one 0 refl refl) refl))
        (do_take 0 7 (pool []) refl refl refl))
      (do_run 8 (pool (8 ∷ [])) _ (λ e. cc e) refl refl (wakes_nobody nobody_sleeps refl) refl)

Run-order_example : accepted events ≡ taken events ++ 8 ∷ []
Run-order_example = Run-order two_tasks
