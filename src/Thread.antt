-- ===== src/Thread.antt =====
-- `Thread` of Thread.h and Thread.cc, and how its object is started and joined. `pthread_create` and the thread's function are
-- parameters: whether the one succeeds, and how the other ends.
pub mod Starting
mod Examples
use multi_thread_log.Common.{
  ℕ, zero, suc, ◌+◌, ◌<◌, ◌≡◌, Bool, true, false, not, ◌&&◌, Option, none, some, List, [], ◌∷◌,
  ◌++◌, ltb, ◌==◌, if◌then◌else◌, ◌>>=◌, codes,
}
use multi_thread_log.Common.Decimal.{decimal, snprintf}
use multi_thread_log.Common.Int.{pos}
use multi_thread_log.CountDownLatch
use multi_thread_log.CountDownLatch.{CountDownLatch, Waiter, away, returned, wait, count_down}
use multi_thread_log.CurrentThread
use multi_thread_log.Exception.{
  Ending, finished, exception, std_exception, unknown, After, after, report,
}
use multi_thread_log.CurrentThread.{CurrentThread}

-- The fields, with those of `ThreadData`; `pthread_id` is left out.
pub record Thread : Type 0 where
  pub started : Bool
  pub joined : Bool
  pub tid : ℕ
  pub name : List ℕ
  pub latch : CountDownLatch

abbrev pub is_empty : List ℕ → Bool
is_empty [] = true
is_empty (c ∷ s) = false

-- The constructor, with `setDefaultName`: the thread, and the number of threads made.
unfoldable pub make : ℕ → List ℕ → Thread × ℕ
make num_created n = (
  record {
    started = false;
    joined = false;
    tid = 0;
    name = if is_empty n then snprintf 32 (codes "Thread" ++ decimal (num_created + 1)) else n;
    latch = CountDownLatch.make (pos 1);
  },
  num_created + 1,
)

-- The destructor: whether the thread is detached.
unfoldable pub is_detached : Thread → Bool
is_detached th = th.started && not th.joined

-- `start` up to the wait for the latch, if the assertion holds; `created` says whether `pthread_create` succeeded. The
-- object is as before if it did not.
unfoldable pub start : Bool → Thread → Option Thread
start created th = if th.started then none else some (record th { started = created })

-- The wait for the latch by thread `t`, on entry and when the wait of its condition returns; then the second assertion.
unfoldable pub await : ℕ → Thread → Thread
await t th = record th { latch = wait t th.latch }

abbrev pub is_asserted : Thread → Bool
is_asserted th = ltb 0 th.tid

-- `join`
unfoldable pub join : Thread → Option Thread
join th = if th.started && not th.joined then some (record th { joined = true }) else none

-- The first statement of `runInThread`, in a thread of number `gettid`: it tells its number, under no lock.
unfoldable pub run_tid : ℕ → Thread × CurrentThread → Thread × CurrentThread
run_tid gettid (th, c) = let r = CurrentThread.tid gettid c in (record th { tid = r.1 }, r.0)

-- The second: it counts the latch down.
unfoldable pub run_count_down : Thread → Thread
run_count_down th = record th { latch = count_down th.latch }

-- Then it takes its name and calls the function.
unfoldable pub run_name : Thread → CurrentThread → CurrentThread
run_name th c = record c { thread_name = if is_empty th.name then codes "Thread" else th.name }

abbrev pub last_name : Ending → List ℕ
last_name finished = codes "finished"
last_name (exception ex) = codes "crashed"
last_name (std_exception text) = codes "crashed"
last_name unknown = codes "crashed"

-- How it ends: the thread's last name, and what becomes of the process.
unfoldable pub run_end : Ending → CurrentThread → CurrentThread × After
run_end e c = (record c { thread_name = last_name e }, after e)

-- What it prints to `stderr` then.
unfoldable pub run_report : Thread → Ending → List ℕ
run_report th e = report (codes "Thread") th.name e

-- Where a started thread is.
pub data Child : Type 0 where
  unborn : Child
  born : Child
  told : CurrentThread → Child  -- between the first two statements
  running : CurrentThread → Child
  ended : CurrentThread → After → Child

pub record State : Type 0 where
  pub thread : Thread
  pub child : Child

-- What the calls of the object and the steps of its thread, of number `n`, can come to, in any order that the code allows:
-- a thread waits for the latch only in a call of `start` that created the thread.
pub data Reachable (n : ℕ) : State → Type 0 where
  made :
      (num_created : ℕ) (name : List ℕ)
      → Reachable n (record { thread = (make num_created name).0; child = unborn })
  refused :
      (s : State) (th : Thread)
      → Reachable n s
      → start false s.thread ≡ some th
      → Reachable n (record s { thread = th })
  starts :
      (s : State) (th : Thread)
      → Reachable n s
      → start true s.thread ≡ some th
      → Reachable n (record { thread = th; child = born })
  awaits :
      (s : State) (t : ℕ)
      → Reachable n s
      → s.thread.started ≡ true
      → Reachable n (record s { thread = await t s.thread })
  tells :
      (s : State)
      → Reachable n s
      → s.child ≡ born
      → Reachable n (record {
        thread = (run_tid n (s.thread, CurrentThread.fresh)).0;
        child = told (run_tid n (s.thread, CurrentThread.fresh)).1;
      })
  counts_down :
      (s : State) (c : CurrentThread)
      → Reachable n s
      → s.child ≡ told c
      → Reachable n
          (record { thread = run_count_down s.thread; child = running (run_name s.thread c) })
  ends :
      (s : State) (c : CurrentThread) (e : Ending)
      → Reachable n s
      → s.child ≡ running c
      → Reachable n (record s { child = ended (run_end e c).0 (run_end e c).1 })
  joins :
      (s : State) (th : Thread)
      → Reachable n s
      → join s.thread ≡ some th
      → Reachable n (record s { thread = th })
