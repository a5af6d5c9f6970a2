-- ===== src/ThreadPool/Waking.antt =====
-- The two conditions of ThreadPool.cc: which of the threads that wait in `run` and `take` are notified, and when. Of
-- the conditions of the system, what is documented is used: a signal wakes a waiting thread, if there is one, and a wait may
-- end without a cause. A thread that has been woken still has to take the lock and test its loop again.
pub mod Awake
pub mod Calls
mod Examples
use multi_thread_log.Common.{
  ℕ, ◌+◌, ◌-◌, ◌<◌, ◌≡◌, Bool, true, false, Option, none, some, ltb, ◌==◌, if◌then◌else◌,
}
use multi_thread_log.ThreadPool.{Task, Pool, make, run_locked, take_locked}

-- How many threads are in the wait of a condition, before and after having been woken.
pub record Condition : Type 0 where
  pub sleeping : ℕ
  pub woken : ℕ

abbrev pub nobody : Condition
nobody = record { sleeping = 0; woken = 0 }

unfoldable pub sleep : Condition → Condition
sleep c = record c { sleeping = c.sleeping + 1 }

-- `notify`, also what a wait does that ends without a cause, and `notifyAll`.
unfoldable pub notify : Condition → Condition
notify c = if c.sleeping == 0 then c else record { sleeping = c.sleeping - 1; woken = c.woken + 1 }

unfoldable pub notify_all : Condition → Condition
notify_all c = record { sleeping = 0; woken = c.woken + c.sleeping }

-- A woken thread has the lock again.
unfoldable pub leave : Condition → Condition
leave c = record c { woken = c.woken - 1 }

pub record Monitor : Type 0 where
  pub pool : Pool
  pub not_empty : Condition
  pub not_full : Condition

-- `run`, from where the thread has the lock to where it gives it up, in a wait or at the end.
unfoldable pub run_ends : Monitor → Option Pool → Monitor
unfolding sleep notify
run_ends m none = record m { not_full = sleep m.not_full }
run_ends m (some p) =
    if m.pool.running then record m { pool = p; not_empty = notify m.not_empty } else m

unfoldable pub run : Task → Monitor → Monitor
unfolding run_ends
run task m = run_ends m (run_locked m.pool task)

-- `take`, likewise.
unfoldable pub take_ends : Monitor → Option (Option Task × Pool) → Monitor
unfolding sleep notify
take_ends m none = record m { not_empty = sleep m.not_empty }
take_ends m (some (none, p)) = record m { pool = p }
take_ends m (some (some task, p)) = record m {
  pool = p;
  not_full = if ltb 0 m.pool.max_queue_size then notify m.not_full else m.not_full;
}

unfoldable pub take : Monitor → Monitor
unfolding take_ends
take m = take_ends m (take_locked m.pool)

-- `start`, and `stop` up to the joining of the threads.
unfoldable pub start : Monitor → Monitor
start m = record m { pool = record (m.pool) { running = true } }

unfoldable pub stop : Monitor → Monitor
unfolding notify_all
stop m = record {
  pool = record (m.pool) { running = false };
  not_empty = notify_all m.not_empty;
  not_full = notify_all m.not_full;
}

-- The destructor.
unfoldable pub destroy : Monitor → Monitor
unfolding stop
destroy m = if m.pool.running then stop m else m

-- What any number of threads can come to with a pool whose bound is `n`: each begins a call of `run` or `take`, or goes on
-- after a wait, in any order.
pub data Reachable (n : ℕ) : Monitor → Type 0 where
  made : Reachable n (record { pool = make n; not_empty = nobody; not_full = nobody })
  starts : (m : Monitor) → Reachable n m → Reachable n (start m)
  stops : (m : Monitor) → Reachable n m → Reachable n (stop m)
  runs : (m : Monitor) (task : Task) → Reachable n m → Reachable n (run task m)
  runs_on :
      (m : Monitor) (task : Task)
      → Reachable n m
      → 0 < m.not_full.woken
      → Reachable n (run task (record m { not_full = leave m.not_full }))
  takes : (m : Monitor) → Reachable n m → Reachable n (take m)
  takes_on :
      (m : Monitor)
      → Reachable n m
      → 0 < m.not_empty.woken
      → Reachable n (take (record m { not_empty = leave m.not_empty }))
  wakes_empty :
      (m : Monitor) → Reachable n m → Reachable n (record m { not_empty = notify m.not_empty })
  wakes_full :
      (m : Monitor) → Reachable n m → Reachable n (record m { not_full = notify m.not_full })
