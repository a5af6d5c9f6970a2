-- ===== src/ThreadPool/Stopping/Examples.antt =====
-- A pool is stopped while one worker runs a task and another sleeps in `take`.
use multi_thread_log.Common.{
  ℕ, ◌*◌, ◌≤◌, ◌≡◌, ◌⊎◌, refl, Bool, true, false, List, [], ◌∷◌, length, arith,
}
use multi_thread_log.ThreadPool.{
  make, run_locked, take_locked, pop_front, Worker, starting, testing, taking, sleeping, working,
  notify_all, wakes_one, System, Event, starts, stops, moves, accepts, takes, Step, do_start,
  do_stop, do_run, do_init, do_test, do_take, do_take_nothing, do_wait, do_finish, Run, begin,
  then_step,
}
use multi_thread_log.ThreadPool.Stopping.{HaveExited, stop-ends}
use multi_thread_log.ThreadPool.Stopping.Asleep.{AreAwake}
use multi_thread_log.ThreadPool.Stopping.StepsLeft.{
  Goes, stays, goes, worker_steps, worker_steps_of,
}

abbrev system : Bool → List ℕ → List Worker → System
system running queue workers = record {
  pool = record { running = running; max_queue_size = 1; queue = queue };
  workers = workers;
}

abbrev stopped : System
stopped = system false [] (working 7 ∷ taking ∷ [])

-- The second worker sleeps when task 7 comes, and again when the first one has taken it.
until_stopped :
    Run 1
      (stops ∷ moves ∷ takes 7 ∷ accepts 7 ∷ moves ∷ moves ∷ moves ∷ moves ∷ moves ∷ starts ∷ [])
      stopped
unfolding make run_locked take_locked pop_front notify_all
until_stopped =
    then_step {s = system true [] (working 7 ∷ sleeping ∷ [])}
      (then_step {s = system true [] (working 7 ∷ taking ∷ [])}
        (then_step {s = system true (7 ∷ []) (taking ∷ taking ∷ [])}
          (then_step {s = system true [] (taking ∷ sleeping ∷ [])}
            (then_step {s = system true [] (testing ∷ sleeping ∷ [])}
              (then_step {s = system true [] (starting ∷ sleeping ∷ [])}
                (then_step {s = system true [] (starting ∷ taking ∷ [])}
                  (then_step {s = system true [] (starting ∷ testing ∷ [])}
                    (then_step {s = system true [] (starting ∷ starting ∷ [])}
                      (then_step begin (do_start 2 refl refl)) (do_init 1 refl refl))
                    (do_test 1 refl refl))
                  (do_wait 1 refl refl refl))
                (do_init 0 refl refl))
              (do_test 0 refl refl))
            (do_run 7 _ _ (λ e. cc e) refl refl (wakes_one 1 refl refl) refl))
          (do_take 0 7 _ refl refl refl))
        (do_wait 1 refl refl refl))
      (do_stop refl)

abbrev later : System
later = system false [] (testing ∷ testing ∷ [])

two_steps : Goes stopped (moves ∷ moves ∷ []) later
unfolding take_locked pop_front
two_steps =
    goes {t = system false [] (testing ∷ taking ∷ [])} (goes stays (do_finish 0 7 refl refl))
      (do_take_nothing 1 _ refl refl refl)

stop-ends_example :
    (worker_steps (moves ∷ moves ∷ []) ≤ 3 * length stopped.workers)
    × AreAwake later.workers
    × (HaveExited later.workers
        ⊎ ((u : System) × (e : Event) × Step later u e × (worker_steps_of e ≡ 1)))
stop-ends_example = stop-ends until_stopped refl (omega arith) two_steps
