-- ===== src/ThreadPool/Stopping.antt =====
-- What becomes of the workers of a pool that has been stopped.
mod Examples
mod Asleep
mod StepsLeft
use multi_thread_log.Common.{
  ℕ, suc, ◌*◌, ◌≤◌, ◌<◌, ◌≡◌, ◌≢◌, ◌⊎◌, inl, inr, refl, false, some, List, [], ◌∷◌, length, arith,
}
use multi_thread_log.Common.Lists.{get_elem?}
use multi_thread_log.ThreadPool.{
  Task, Worker, starting, testing, taking, sleeping, do_init, Run, working, exited, System, Event,
  moves, takes, Step, do_test, do_take, do_take_nothing, do_finish,
}
use multi_thread_log.ThreadPool.Stopping.Asleep.{AreAwake, get_elem?-AreAwake, Run-IsAwake}
use multi_thread_log.ThreadPool.Waking.Calls.{take_locked-off, take_locked-task}
use multi_thread_log.ThreadPool.Stopping.StepsLeft.{
  Goes, worker_steps_of, worker_steps, Goes-Fewer, at_most_three,
}

abbrev pub HaveExited : List Worker → Type 0
HaveExited [] = Unit
HaveExited (w ∷ ws) = (w ≡ exited) × HaveExited ws

-- All have exited, or there is one that has not.
someone :
    (ws : List Worker)
    → HaveExited ws ⊎ ((i : ℕ) × (w : Worker) × (get_elem? ws i ≡ some w) × (w ≢ exited))
someone [] = inl tt
someone (starting ∷ ws) = inr (0, starting, refl, λ e. cc e)
someone (sleeping ∷ ws) = inr (0, sleeping, refl, λ e. cc e)
someone (testing ∷ ws) = inr (0, testing, refl, λ e. cc e)
someone (taking ∷ ws) = inr (0, taking, refl, λ e. cc e)
someone (working task ∷ ws) = inr (0, working task, refl, λ e. cc e)
someone (exited ∷ ws) = elim (someone ws) [
  | inl all ↦ inl (refl, all)
  | inr (i, w, h, n) ↦ inr (suc i, w, h, n)
]

-- One that has not exited has a step.
record Moves (s : System) : Type 0 where
  after : System
  event : Event
  step : Step s after event
  is_worker : worker_steps_of event ≡ 1

takes-Moves :
    (s : System) (i : ℕ) → s.pool.running ≡ false → get_elem? s.workers i ≡ some taking → Moves s
takes-Moves s i off h = by_queue s.pool.queue refl
  where
    by_queue : (ts : List Task) → s.pool.queue ≡ ts → Moves s
    by_queue [] e = record {
      after = _;
      event = moves;
      step = do_take_nothing i s.pool h (take_locked-off s.pool off e) refl;
      is_worker = refl;
    }
    by_queue (t ∷ ts) e = record {
      after = _;
      event = takes t;
      step = do_take i t _ h (take_locked-task s.pool t ts e) refl;
      is_worker = refl;
    }

worker-Moves :
    (s : System) (i : ℕ) (w : Worker)
    → s.pool.running ≡ false
    → get_elem? s.workers i ≡ some w
    → w ≢ exited
    → AreAwake s.workers
    → Moves s
worker-Moves s i starting off h n a = record {
  after = _;
  event = moves;
  step = do_init i h refl;
  is_worker = refl;
}
worker-Moves s i sleeping off h n a = absurd (get_elem?-AreAwake s.workers i a h)
worker-Moves s i testing off h n a = record {
  after = _;
  event = moves;
  step = do_test i h refl;
  is_worker = refl;
}
worker-Moves s i taking off h n a = takes-Moves s i off h
worker-Moves s i (working task) off h n a = record {
  after = _;
  event = moves;
  step = do_finish i task h refl;
  is_worker = refl;
}
worker-Moves s i exited off h n a = absurd (n refl)

-- The joining in `stop` ends, if each task and the function given to `setThreadInitCallback` do: in every run from where the
-- pool has been stopped its workers take together at most three times as many steps as there are workers, whatever else
-- happens, and as long as one has not exited there is a step that a worker can take: none sleeps until it is notified.
pub stop-ends :
    {n : ℕ} {before es : List Event} {s t : System}
    → Run n before s
    → s.pool.running ≡ false
    → 0 < length s.workers
    → Goes s es t
    → (worker_steps es ≤ 3 * length s.workers)
      × AreAwake t.workers
      × (HaveExited t.workers ⊎ ((u : System) × (e : Event) × Step t u e × (worker_steps_of e ≡ 1)))
stop-ends {n} {before} {es} {s} {t} run off some_there r =
    let h = Goes-Fewer r off some_there (Run-IsAwake run) in
    (
      omega (arith, h.3, at_most_three s.workers),
      h.2 h.0,
      elim (someone t.workers) [
        | inl all ↦ inl all
        | inr (i, w, there, n) ↦
            let m = worker-Moves t i w h.0 there n (h.2 h.0) in
            inr (m.after, m.event, m.step, m.is_worker)
      ],
    )
