-- ===== src/ProcessInfo/Examples.antt =====
-- A process with three threads and two open files.
use multi_thread_log.Common.{
  ℕ, ◌≡◌, refl, none, some, false, List, [], ◌∷◌, ◌++◌, arith, codes, length, if◌then◌else◌, ◌==◌,
}
use mathlib.Core.List.{Perm}
use multi_thread_log.Common.Decimal.{decimal, digits_before}
use multi_thread_log.Common.Int.{ℤ, pos, ◌+ℤ◌, quot}
use multi_thread_log.Common.Double.{whole_double}
use multi_thread_log.ProcessInfo.CpuTime.{cpu_time, total}
use multi_thread_log.FileUtil.ReadSmallFile.{count, opened, regular, known, System}
use multi_thread_log.StringPiece.{as_string}
use multi_thread_log.Common.Atoi.{atoi, signed_value, digits_value}
use multi_thread_log.ProcessInfo.{
  Process, clock_ticks_per_second, procname_of, threads, opened_files, scan_dir, task_dir_filter,
  insert, sort,
}
use multi_thread_log.ProcessInfo.Procname.{procname_of-IsFree}
use multi_thread_log.ProcessInfo.Threads.{
  nothing, number, other, IsSorted, pids_of, threads-IsSorted,
}

procname_of-IsFree_example :
    as_string (procname_of (codes "42 " ++ b'(' ∷ (codes "a (b)" ++ b')' ∷ codes " S 1 42")))
    ≡ some (codes "a (b)")
procname_of-IsFree_example =
    procname_of-IsFree (codes "42 ") (codes "a (b)") (codes " S 1 42") (omega arith) (omega arith)

abbrev some_system : System
some_system = record {
  open_file = λ name. opened [];
  fstat = λ file. known (record { st_mode = regular; st_size = 0; st_mtime = 0; st_ctime = 0 });
  pread = λ file n. count 0;
  read = λ file n. count 0;
}

abbrev tasks : List (List ℕ)
tasks = codes "." ∷ decimal 44 ∷ codes ".." ∷ decimal 42 ∷ decimal 43 ∷ []

abbrev descriptors : List (List ℕ)
descriptors = codes "." ∷ decimal 0 ∷ decimal 1 ∷ []

-- `/proc/self/task` is a longer name than `/proc/self/fd`.
abbrev some_process : Process
some_process = record {
  sys = some_system;
  getpid = 42;
  gettid = 43;
  getuid = 1000;
  geteuid = 1000;
  pw_name = λ uid. none;
  host = none;
  exe = none;
  directory = λ path. if length path == 15 then tasks else descriptors;
  rlim_cur = none;
  started = record { micro_seconds_since_epoch = pos 1621241265000000 };
  clk_tck = 100;
  page_bytes = 4096;
  ndebug = false;
  times = some (1200, 300);
}

threads-IsSorted_example :
    IsSorted (threads some_process)
    × Perm (threads some_process) (pids_of (44 ∷ 42 ∷ 43 ∷ []))
    × (opened_files some_process ≡ 2)
threads-IsSorted_example =
    threads-IsSorted some_process (44 ∷ 42 ∷ 43 ∷ []) (0 ∷ 1 ∷ [])
      (other (codes ".") _ _ refl
        (number 44 _ _ (other (codes "..") _ _ refl (number 42 _ _ (number 43 _ _ nothing)))))
      (other (codes ".") _ _ refl (number 0 _ _ (number 1 _ _ nothing)))

threads_runs : threads some_process ≡ pos 42 ∷ pos 43 ∷ pos 44 ∷ []
unfolding threads scan_dir task_dir_filter atoi signed_value digits_value sort insert decimal
    digits_before
threads_runs = refl

-- Twelve seconds and three seconds, computed in whole numbers.
cpu_time_runs : total (cpu_time {D = ℤ} some_process) ≡ pos 15
unfolding cpu_time total clock_ticks_per_second ◌+ℤ◌ quot
cpu_time_runs = refl
