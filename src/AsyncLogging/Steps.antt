-- ===== src/AsyncLogging/Steps.antt =====
-- The interleavings of the front end and the logging thread: a step relation over both.
use multi_thread_log.Common.{ℕ, ◌≡◌, ◌≢◌, ◌≤◌, ◌<◌, true, false, some, List, [], ◌∷◌, ◌++◌, length}
use multi_thread_log.AsyncLogging.{
  Shared, Backend, flush, init, append, start_backend, exchange, process, too_many,
}
use multi_thread_log.LogStream.FixedBuffer.Append.{NoNul}

-- Where the logging thread stands.
pub data Pc : Type 0 where
  idle : Pc  -- not started
  entering : Pc  -- at the assertion of `threadFunc`
  testing : Pc  -- `while (running_)`
  locking : Pc  -- before the lock
  waiting : Pc  -- in `waitForSeconds`, without the lock
  writing : Pc  -- after the section under the lock
  done : Pc  -- returned

pub record System : Type 0 where
  pub shared : Shared
  pub backend : Backend
  pub pc : Pc

pub data Event : Type 0 where
  appends : List ℕ → Event
  starts enters stops tests locks wakes writes overruns : Event

-- `n` is the size of a buffer. A line stands in memory with its terminator, and bytes after it.
-- `start` has the thread made, which goes on only if its assertion holds: the abort of a process is no step. A wait may end at any time: by `notify`, by the time-out, or for no reason.
pub data Step (n : ℕ) (s t : System) : Event → Type 0 where
  do_append :
      (memory line rest : List ℕ) (sh : Shared)
      → length memory ≡ n
      → NoNul line
      → append s.shared memory (line ++ 0 ∷ rest) (length line) ≡ some sh
      → t ≡ record s { shared = sh }
      → Step n s t (appends line)
  do_start :
      s.pc ≡ idle
      → t ≡ record s { shared = record (s.shared) { running = true }; pc = entering }
      → Step n s t starts
  do_enter :
      s.pc ≡ entering
      → s.shared.running ≡ true
      → t ≡ record s { backend = start_backend n; pc = testing }
      → Step n s t enters
  do_stop : t ≡ record s { shared = record (s.shared) { running = false } } → Step n s t stops
  do_test :
      s.pc ≡ testing → s.shared.running ≡ true → t ≡ record s { pc = locking } → Step n s t tests
  do_leave :
      s.pc ≡ testing
      → s.shared.running ≡ false
      → t ≡ record s {
        backend = record (s.backend) { output = s.backend.output ++ flush ∷ [] };
        pc = done;
      }
      → Step n s t tests
  do_wait :
      s.pc ≡ locking → s.shared.buffers ≡ [] → t ≡ record s { pc = waiting } → Step n s t locks
  do_exchange :
      s.pc ≡ locking
      → s.shared.buffers ≢ []
      → t ≡ record {
        shared = (exchange s.shared s.backend).0;
        backend = (exchange s.shared s.backend).1;
        pc = writing;
      }
      → Step n s t locks
  do_wake :
      s.pc ≡ waiting
      → t ≡ record {
        shared = (exchange s.shared s.backend).0;
        backend = (exchange s.shared s.backend).1;
        pc = writing;
      }
      → Step n s t wakes
  do_write :
      (now : List ℕ) (b : Backend)
      → s.pc ≡ writing
      → length s.backend.buffers_to_write ≤ too_many
      → process now s.backend ≡ some b
      → t ≡ record s { backend = b; pc = testing }
      → Step n s t writes
  do_overrun :
      (now : List ℕ) (b : Backend)
      → s.pc ≡ writing
      → too_many < length s.backend.buffers_to_write
      → process now s.backend ≡ some b
      → t ≡ record s { backend = b; pc = testing }
      → Step n s t overruns

abbrev pub initial : ℕ → System
initial n = record { shared = init n; backend = start_backend n; pc = idle }

-- The events of a run, the latest first.
pub data Run (n : ℕ) : List Event → System → Type 0 where
  begin : Run n [] (initial n)
  then_step :
      {es : List Event} {e : Event} {s t : System} → Run n es s → Step n s t e → Run n (e ∷ es) t
