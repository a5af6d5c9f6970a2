-- ===== src/CurrentThread.antt =====
-- `CurrentThread` of CurrentThread.h, CurrentThread.cc and Thread.cc: what each thread keeps about itself. The
-- answers of `gettid` and `getpid` are parameters; `stackTrace` is left out.
pub mod StackTrace
pub mod Tid
use multi_thread_log.Common.{
  ℕ, zero, ◌*◌, ◌/◌, ◌%◌, ◌≡◌, Bool, List, [], ◌∷◌, ◌==◌, if◌then◌else◌, length, codes,
}
use multi_thread_log.Common.Decimal.{print_blank, snprintf}
use multi_thread_log.Common.Int.{ℤ, pos, ◌*ℤ◌, quot, rem}
use multi_thread_log.Timestamp.{k_micro_seconds_per_second}

-- The thread-local variables. `tid_string` is the array up to its terminator.
pub record CurrentThread : Type 0 where
  pub cached_tid : ℕ
  pub tid_string : List ℕ
  pub tid_string_length : ℕ
  pub thread_name : List ℕ

-- What a new thread begins with.
abbrev pub fresh : CurrentThread
fresh = record {
  cached_tid = 0;
  tid_string = [];
  tid_string_length = 6;
  thread_name = codes "unknown";
}

-- `cacheTid`
unfoldable pub cache_tid : ℕ → CurrentThread → CurrentThread
cache_tid gettid c =
    if c.cached_tid == 0
    then (let text = print_blank 5 (pos gettid) in
        record c {
          cached_tid = gettid;
          tid_string = snprintf 32 text;
          tid_string_length = length text;
        })
    else c

-- `tid`
unfoldable pub tid : ℕ → CurrentThread → CurrentThread × ℕ
unfolding cache_tid
tid gettid c = let c' = if c.cached_tid == 0 then cache_tid gettid c else c in (c', c'.cached_tid)

-- `isMainThread`
unfoldable pub is_main_thread : ℕ → ℕ → CurrentThread → CurrentThread × Bool
unfolding tid
is_main_thread gettid getpid c = ((tid gettid c).0, (tid gettid c).1 == getpid)

-- `afterFork`, and the constructor of `ThreadNameInitializer`, which does not forget the number.
unfoldable pub after_fork : ℕ → CurrentThread → CurrentThread
unfolding tid
after_fork gettid c = (tid gettid (record c { cached_tid = 0; thread_name = codes "main" })).0

unfoldable pub thread_name_initializer : ℕ → CurrentThread → CurrentThread
unfolding tid
thread_name_initializer gettid c = (tid gettid (record c { thread_name = codes "main" })).0

-- The `timespec` of `sleepUsec`: seconds and nanoseconds.
unfoldable pub sleep_time : ℤ → ℤ × ℤ
sleep_time usec =
    (quot usec k_micro_seconds_per_second, rem usec k_micro_seconds_per_second *ℤ pos 1000)
