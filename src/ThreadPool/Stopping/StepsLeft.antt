-- ===== src/ThreadPool/Stopping/StepsLeft.antt =====
-- How many steps the workers of a pool that has been stopped have left.
use multi_thread_log.Common.{
  ℕ, zero, suc, ◌+◌, ◌*◌, ◌≤◌, ◌<◌, ◌≡◌, refl, sym, ap, subst, ◌∙◌, false, some, List, [], ◌∷◌,
  length, arith, if◌then◌else◌,
}
use multi_thread_log.Common.Lists.{get_elem?, set, length-set}
use multi_thread_log.ThreadPool.{
  Worker, starting, testing, taking, sleeping, working, exited, Pool, System, Event, moves, takes,
  Step, do_start, do_stop, do_run_here, do_run, do_refuse, do_init, do_test, do_take,
  do_take_nothing, do_wait, do_wake, do_finish,
}
use multi_thread_log.ThreadPool.Stopping.Asleep.{
  AreAwake, IsAwake, get_elem?-AreAwake, notify_all-same, take_locked-running, take_locked-waits,
  Step-IsAwake,
}
use multi_thread_log.ThreadPool.Order.{run_locked-stopped}

-- Any steps from `s` on, the latest first.
pub data Goes (s : System) : List Event → System → Type 0 where
  stays : Goes s [] s
  goes : {es : List Event} {e : Event} {t u : System} → Goes s es t → Step t u e → Goes s (e ∷ es) u

-- How many steps a worker has left when the pool has been stopped; none sleeps then.
abbrev pub steps_left : Worker → ℕ
steps_left starting = 2
steps_left testing = 1
steps_left taking = 3
steps_left sleeping = 0
steps_left (working task) = 2
steps_left exited = 0

abbrev pub all_steps_left : List Worker → ℕ
all_steps_left [] = 0
all_steps_left (w ∷ ws) = steps_left w + all_steps_left ws

-- The steps of workers in a run.
abbrev pub worker_steps_of : Event → ℕ
worker_steps_of moves = 1
worker_steps_of (takes task) = 1
worker_steps_of _ = 0

abbrev pub worker_steps : List Event → ℕ
worker_steps [] = 0
worker_steps (e ∷ es) = worker_steps_of e + worker_steps es

all_steps_left-set :
    (ws : List Worker) (i : ℕ) (w v : Worker)
    → get_elem? ws i ≡ some w
    → all_steps_left (set ws i v) + steps_left w ≡ all_steps_left ws + steps_left v
all_steps_left-set [] i w v e = absurd (cc e)
all_steps_left-set (x ∷ ws) zero w v e =
    let same : x ≡ w = cc e in
    subst
      (λ y.
        (steps_left v + all_steps_left ws) + steps_left y
        ≡ (steps_left x + all_steps_left ws) + steps_left v)
      same (omega arith)
all_steps_left-set (x ∷ ws) (suc i) w v e = omega (arith, all_steps_left-set ws i w v e)

-- What a step leaves of it.
record Fewer (s t : System) (e : Event) : Type 0 where
  still_stopped : t.pool.running ≡ false
  same_workers : length t.workers ≡ length s.workers
  fewer : worker_steps_of e + all_steps_left t.workers ≤ all_steps_left s.workers

worker-Fewer :
    (s : System) (p : Pool) (e : Event) (i : ℕ) (w v : Worker)
    → p.running ≡ false
    → get_elem? s.workers i ≡ some w
    → worker_steps_of e + steps_left v ≤ steps_left w
    → Fewer s (record { pool = p; workers = set s.workers i v }) e
worker-Fewer s p e i w v off h less = record {
  still_stopped = off;
  same_workers = length-set s.workers i v;
  fewer = omega (arith, all_steps_left-set s.workers i w v h);
}

Step-Fewer :
    {s t : System} {e : Event}
    → Step s t e
    → s.pool.running ≡ false
    → 0 < length s.workers
    → AreAwake s.workers
    → Fewer s t e
Step-Fewer {s} {t} (do_start n none_there h) off some_there awake =
    absurd (omega (arith, ap length none_there))
Step-Fewer {s} {t} (do_stop h) off some_there awake =
    rw (h, notify_all-same s.workers awake)
      (record { still_stopped = refl; same_workers = refl; fewer = omega arith })
Step-Fewer {s} {t} (do_run_here task none_there h) off some_there awake =
    absurd (omega (arith, ap length none_there))
Step-Fewer {s} {t} (do_run task p ws w on r woken h) off some_there awake = absurd (cc (on, off))
Step-Fewer {s} {t} (do_refuse task p w k r h) off some_there awake =
    rw (h, run_locked-stopped s.pool p task k r)
      (record { still_stopped = off; same_workers = refl; fewer = omega arith })
Step-Fewer {s} {t} (do_init i w h) off some_there awake =
    rw h (worker-Fewer s s.pool moves i starting testing off w (omega arith))
Step-Fewer {s} {t} (do_wait i w r h) off some_there awake =
    absurd (cc (take_locked-waits s.pool r, off))
Step-Fewer {s} {t} (do_wake i w h) off some_there awake =
    absurd (get_elem?-AreAwake s.workers i awake w)
Step-Fewer {s} {t} (do_test i w h) off some_there awake =
    let left : t ≡ record s { workers = set s.workers i exited } =
      h ∙ ap (λ b. record s { workers = set s.workers i (if b then taking else exited) }) off in
    subst (λ x. Fewer s x moves) (sym left)
      (worker-Fewer s s.pool moves i testing exited off w (omega arith))
Step-Fewer {s} {t} (do_take i task p w r h) off some_there awake = rw h (
    worker-Fewer s p (takes task) i taking (working task) (take_locked-running s.pool p _ r ∙ off) w
      (omega arith))
Step-Fewer {s} {t} (do_take_nothing i p w r h) off some_there awake = rw h (
    worker-Fewer s p moves i taking testing (take_locked-running s.pool p _ r ∙ off) w
      (omega arith))
Step-Fewer {s} {t} (do_finish i task w h) off some_there awake =
    rw h (worker-Fewer s s.pool moves i (working task) testing off w (omega arith))

pub Goes-Fewer :
    {s t : System} {es : List Event}
    → Goes s es t
    → s.pool.running ≡ false
    → 0 < length s.workers
    → IsAwake s
    → (t.pool.running ≡ false)
      × (length t.workers ≡ length s.workers)
      × IsAwake t
      × (worker_steps es + all_steps_left t.workers ≤ all_steps_left s.workers)
Goes-Fewer stays off some_there awake = (off, refl, awake, omega arith)
Goes-Fewer (goes r st) off some_there awake =
    let h = Goes-Fewer r off some_there awake in
    let f = Step-Fewer st h.0 (omega (arith, h.1)) (h.2 h.0) in
    (f.still_stopped, f.same_workers ∙ h.1, Step-IsAwake st h.2, omega (arith, f.fewer, h.3))

pub at_most_three : (ws : List Worker) → all_steps_left ws ≤ 3 * length ws
at_most_three [] = omega arith
at_most_three (w ∷ ws) = omega (arith, at_most_three ws, at_most w)
  where
    at_most : (w : Worker) → steps_left w ≤ 3
    at_most starting = omega arith
    at_most testing = omega arith
    at_most taking = omega arith
    at_most sleeping = omega arith
    at_most (working task) = omega arith
    at_most exited = omega arith
