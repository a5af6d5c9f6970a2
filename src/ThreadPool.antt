-- ===== src/ThreadPool.antt =====
-- ThreadPool.h and ThreadPool.cc: the queue of tasks, and its callers and workers as steps. What stands under
-- the lock of `mutex_` is one step. A worker that has to wait sleeps until it is notified, or until its wait ends without a
-- cause; a call of `run` that has to wait takes no step here until its loop's test fails. A task is its number. The steps are those of a process that no exception of a task has ended.
pub mod Order
pub mod Stopping
pub mod Waking
mod Examples
use multi_thread_log.Common.{
  ℕ, ◌<◌, ◌≡◌, ◌≢◌, Bool, true, false, not, ◌&&◌, Option, none, some, List, [], ◌∷◌, ◌++◌, ltb, leb,
  if◌then◌else◌, length, replicate, codes,
}
use multi_thread_log.Common.Lists.{get_elem?, set}
use multi_thread_log.Exception.{Ending, After, after, report}

abbrev pub Task : Type 0
Task = ℕ

-- The members that the lock guards; a `max_queue_size` of 0 is no bound.
pub record Pool : Type 0 where
  pub running : Bool
  pub max_queue_size : ℕ
  pub queue : List Task

unfoldable pub make : ℕ → Pool
make max_queue_size = record { running = false; max_queue_size = max_queue_size; queue = [] }

abbrev pub is_full : Pool → Bool
is_full p = ltb 0 p.max_queue_size && leb p.max_queue_size (length p.queue)

-- `run` with the lock: `none` is to wait, and a pool that was stopped drops the task.
unfoldable pub run_locked : Pool → Task → Option Pool
run_locked p task =
    if p.running && is_full p
    then none
    else if not p.running
    then some p
    else some (record p { queue = p.queue ++ task ∷ [] })

abbrev pub is_empty : List Task → Bool
is_empty [] = true
is_empty (t ∷ ts) = false

-- `front` and `pop_front`, if there is a task.
unfoldable pub pop_front : Pool → List Task → Option Task × Pool
pop_front p [] = (none, p)
pop_front p (t ∷ ts) = (some t, record p { queue = ts })

-- `take` with the lock: `none` is to wait; a pool that was stopped may have no task to give.
unfoldable pub take_locked : Pool → Option (Option Task × Pool)
unfolding pop_front
take_locked p = if p.running && is_empty p.queue then none else some (pop_front p p.queue)

-- How `runInThread` ends where the function given to `setThreadInitCallback` or a task throws: what it prints to `stderr`, and
-- what becomes of the process.
unfoldable pub run_end : List ℕ → Ending → List ℕ × After
run_end name e = (report (codes "ThreadPool") name e, after e)

-- Where a thread stands in `runInThread`.
pub data Worker : Type 0 where
  starting : Worker  -- `threadInitCallback_()`, if it is set
  testing : Worker  -- `while (running_)`
  taking : Worker  -- in `take`, about to take the lock, at first or after the wait
  sleeping : Worker  -- in the wait of `notEmpty_`
  working : Task → Worker  -- `task()`
  exited : Worker

pub record System : Type 0 where
  pub pool : Pool
  pub workers : List Worker

-- `notEmpty_.notify()`: it wakes a worker that waits, if there is one.
pub data Notified (ws vs : List Worker) : Type 0 where
  wakes_one : (i : ℕ) → get_elem? ws i ≡ some sleeping → vs ≡ set ws i taking → Notified ws vs
  wakes_nobody : ((i : ℕ) → get_elem? ws i ≢ some sleeping) → vs ≡ ws → Notified ws vs

-- `notEmpty_.notifyAll()`
abbrev pub wake : Worker → Worker
wake sleeping = taking
wake w = w

unfoldable pub notify_all : List Worker → List Worker
notify_all [] = []
notify_all (w ∷ ws) = wake w ∷ notify_all ws

pub data Event : Type 0 where
  starts stops moves : Event
  accepts refuses runs_here takes : Task → Event

-- `start` wants a pool that has no threads; if it makes none it calls the function given to `setThreadInitCallback` itself,
-- which is no step here. A call of `run` without threads runs the task at once.
pub data Step (s t : System) : Event → Type 0 where
  do_start :
      (num_threads : ℕ)
      → s.workers ≡ []
      → t ≡ record {
        pool = record (s.pool) { running = true };
        workers = replicate num_threads starting;
      }
      → Step s t starts
  do_stop :
      t ≡ record { pool = record (s.pool) { running = false }; workers = notify_all s.workers }
      → Step s t stops
  do_run_here : (task : Task) → s.workers ≡ [] → t ≡ s → Step s t (runs_here task)
  do_run :
      (task : Task) (p : Pool) (ws : List Worker)
      → s.workers ≢ []
      → s.pool.running ≡ true
      → run_locked s.pool task ≡ some p
      → Notified s.workers ws
      → t ≡ record { pool = p; workers = ws }
      → Step s t (accepts task)
  do_refuse :
      (task : Task) (p : Pool)
      → s.workers ≢ []
      → s.pool.running ≡ false
      → run_locked s.pool task ≡ some p
      → t ≡ record s { pool = p }
      → Step s t (refuses task)
  do_init :
      (i : ℕ)
      → get_elem? s.workers i ≡ some starting
      → t ≡ record s { workers = set s.workers i testing }
      → Step s t moves
  do_test :
      (i : ℕ)
      → get_elem? s.workers i ≡ some testing
      → t ≡ record s { workers = set s.workers i (if s.pool.running then taking else exited) }
      → Step s t moves
  do_take :
      (i : ℕ) (task : Task) (p : Pool)
      → get_elem? s.workers i ≡ some taking
      → take_locked s.pool ≡ some (some task, p)
      → t ≡ record { pool = p; workers = set s.workers i (working task) }
      → Step s t (takes task)
  do_take_nothing :
      (i : ℕ) (p : Pool)
      → get_elem? s.workers i ≡ some taking
      → take_locked s.pool ≡ some (none, p)
      → t ≡ record { pool = p; workers = set s.workers i testing }
      → Step s t moves
  do_wait :
      (i : ℕ)
      → get_elem? s.workers i ≡ some taking
      → take_locked s.pool ≡ none
      → t ≡ record s { workers = set s.workers i sleeping }
      → Step s t moves
  do_wake :
      (i : ℕ)
      → get_elem? s.workers i ≡ some sleeping
      → t ≡ record s { workers = set s.workers i taking }
      → Step s t moves
  do_finish :
      (i : ℕ) (task : Task)
      → get_elem? s.workers i ≡ some (working task)
      → t ≡ record s { workers = set s.workers i testing }
      → Step s t moves

-- The events of a run, the latest first.
pub data Run (max_queue_size : ℕ) : List Event → System → Type 0 where
  begin : Run max_queue_size [] (record { pool = make max_queue_size; workers = [] })
  then_step :
      {es : List Event} {e : Event} {s t : System}
      → Run max_queue_size es s
      → Step s t e
      → Run max_queue_size (e ∷ es) t
