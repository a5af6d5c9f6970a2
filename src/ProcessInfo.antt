-- ===== src/ProcessInfo.antt =====
-- ProcessInfo.cc: what a process can find out about itself. What the system answers is a parameter, as are the
-- operations on `double`.
pub mod CpuTime
pub mod Find
pub mod Procname
pub mod Threads
mod Examples
use multi_thread_log.Common.{
  ℕ, zero, suc, ◌+◌, ◌-◌, ◌*◌, ◌^◌, ◌%◌, ◌≤◌, ◌≡◌, Bool, true, false, not, ◌&&◌, ◌||◌, Option, none,
  some, List, [], ◌∷◌, ◌++◌, ltb, leb, ◌==◌, if◌then◌else◌, ◌>>=◌, length, take, drop, codes,
}
use multi_thread_log.Common.Atoi.{starts_with_digit, atoi}
use multi_thread_log.Common.Decimal.{decimal, print_zero, snprintf}
use multi_thread_log.Common.Int.{ℤ, pos, negsuc, ◌-ℤ◌, ltb_ℤ}
use multi_thread_log.CurrentThread.{CurrentThread, tid}
use multi_thread_log.FileUtil.ReadSmallFile.{System, Contents, Pointers, read_file}
use multi_thread_log.Timestamp.{Timestamp}
use multi_thread_log.StringPiece.{StringPiece, empty_piece, of_bytes, as_string}

-- What the system knows of the process: `gethostname` and `readlink` may fail, and there may be no entry in the list of
-- users. A directory is the list of its names, in any order.
pub record Process : Type 0 where
  pub sys : System
  pub getpid : ℕ
  pub gettid : ℕ
  pub getuid : ℕ
  pub geteuid : ℕ
  pub pw_name : ℕ → Option (List ℕ)
  pub host : Option (List ℕ)
  pub exe : Option (List ℕ)
  pub directory : List ℕ → List (List ℕ)
  pub rlim_cur : Option ℕ
  pub started : Timestamp
  pub clk_tck : ℕ
  pub page_bytes : ℕ
  pub ndebug : Bool
  pub times : Option (ℕ × ℕ)

-- `find` of a character and of a text, and `rfind`; `none` is `npos`.
unfoldable pub find_char : ℕ → List ℕ → Option ℕ
find_char c [] = none
find_char c (x ∷ s) =
    let rest = (find_char c s >>= λ i. some (suc i)) in if x == c then some 0 else rest

abbrev pub last_of : Option ℕ → Option ℕ → Option ℕ
last_of (some i) here = some (suc i)
last_of none here = here

unfoldable pub rfind_char : ℕ → List ℕ → Option ℕ
rfind_char c [] = none
rfind_char c (x ∷ s) = last_of (rfind_char c s) (if x == c then some 0 else none)

abbrev pub starts_with : List ℕ → List ℕ → Bool
starts_with [] s = true
starts_with (p ∷ ps) [] = false
starts_with (p ∷ ps) (c ∷ s) = (p == c) && starts_with ps s

unfoldable pub find_text : List ℕ → List ℕ → Option ℕ
find_text pattern_text [] = if starts_with pattern_text [] then some 0 else none
find_text pattern_text (c ∷ s) =
    let rest = (find_text pattern_text s >>= λ i. some (suc i)) in
    if starts_with pattern_text (c ∷ s) then some 0 else rest

-- `fdDirFilter` and `taskDirFilter`, which take no name into the result of `scandir`, and the calls of them.
unfoldable pub fd_dir_filter : ℕ → List ℕ → ℕ
fd_dir_filter num_opened_files name =
    if starts_with_digit name then num_opened_files + 1 else num_opened_files

unfoldable pub task_dir_filter : List ℤ → List ℕ → List ℤ
unfolding atoi
task_dir_filter pids name = if starts_with_digit name then pids ++ atoi name ∷ [] else pids

unfoldable pub scan_dir : {A : Type 0} → (A → List ℕ → A) → A → List (List ℕ) → A
scan_dir filter a [] = a
scan_dir filter a (name ∷ names) = scan_dir filter (filter a name) names

abbrev pub no_pointers : Pointers
no_pointers = record { file_size = false; modify_time = false; create_time = false }

abbrev pub no_contents : Contents
no_contents = record {
  error = 0;
  content = [];
  file_size = none;
  modify_time = none;
  create_time = none;
}

abbrev pub pid : Process → ℕ
pid p = p.getpid

unfoldable pub pid_string : Process → List ℕ
pid_string p = snprintf 32 (decimal (pid p))

abbrev pub uid : Process → ℕ
uid p = p.getuid

unfoldable pub username : Process → List ℕ
username p = elim (p.pw_name (uid p)) [ none ↦ codes "unknownuser" | some name ↦ name ]

abbrev pub euid : Process → ℕ
euid p = p.geteuid

-- The variables that are set when the program starts.
abbrev pub start_time : Process → Timestamp
start_time p = p.started

-- A conversion to `int`.
abbrev pub to_int : ℕ → ℤ
to_int n = let m = n % 2 ^ 32 in if ltb m (2 ^ 31) then pos m else pos m -ℤ pos (2 ^ 32)

unfoldable pub clock_ticks_per_second : Process → ℤ
clock_ticks_per_second p = to_int p.clk_tck

unfoldable pub page_size : Process → ℤ
page_size p = to_int p.page_bytes

unfoldable pub is_debug_build : Process → Bool
is_debug_build p = if p.ndebug then false else true

unfoldable pub hostname : Process → List ℕ
hostname p = elim p.host [ none ↦ codes "unknownhost" | some name ↦ take 255 name ]

-- The program's name, between the first `(` and the last `)`.
unfoldable pub between : List ℕ → Option ℕ → Option ℕ → StringPiece
between stat (some lp) (some rp) =
    if ltb lp rp then of_bytes (drop (lp + 1) stat) (pos (rp - lp - 1)) else empty_piece
between stat _ _ = empty_piece

unfoldable pub procname_of : List ℕ → StringPiece
unfolding between find_char rfind_char
procname_of stat = between stat (find_char b'(' stat) (rfind_char b')' stat)

unfoldable pub proc_status : Process → Option (List ℕ)
proc_status p = read_file p.sys no_pointers (codes "/proc/self/status") 65536 no_contents >>= λ c.
    some c.content

unfoldable pub proc_stat : Process → Option (List ℕ)
proc_stat p =
    read_file p.sys no_pointers (codes "/proc/self/stat") 65536 no_contents >>= λ c. some c.content

unfoldable pub procname : Process → Option (List ℕ)
unfolding proc_stat procname_of
procname p = proc_stat p >>= λ stat. as_string (procname_of stat)

unfoldable pub thread_stat : Process → CurrentThread → Option (CurrentThread × List ℕ)
thread_stat p c =
    let path = codes "/proc/self/task/" ++ (decimal (tid p.gettid c).1 ++ codes "/stat") in
    (read_file p.sys no_pointers (snprintf 64 path) 65536 no_contents >>= λ r.
    some ((tid p.gettid c).0, r.content))

unfoldable pub exe_path : Process → List ℕ
exe_path p = elim p.exe [ none ↦ [] | some path ↦ take 1024 path ]

unfoldable pub opened_files : Process → ℕ
unfolding scan_dir fd_dir_filter
opened_files p = scan_dir fd_dir_filter 0 (p.directory (codes "/proc/self/fd"))

unfoldable pub max_open_files : Process → ℤ
unfolding opened_files
max_open_files p = elim p.rlim_cur [ none ↦ pos (opened_files p) | some n ↦ to_int n ]

unfoldable pub threads_line : List ℕ → Option ℕ → ℤ
unfolding atoi
threads_line status none = pos 0
threads_line status (some at) = atoi (drop (at + 8) status)

unfoldable pub num_threads_of : List ℕ → ℤ
unfolding threads_line find_text
num_threads_of status = threads_line status (find_text (codes "Threads:") status)

unfoldable pub num_threads : Process → Option ℤ
unfolding proc_status num_threads_of
num_threads p = proc_status p >>= λ status. some (num_threads_of status)

-- `std::sort`
unfoldable pub insert : ℤ → List ℤ → List ℤ
insert x [] = x ∷ []
insert x (y ∷ ys) = let rest = insert x ys in if ltb_ℤ y x then y ∷ rest else x ∷ (y ∷ ys)

unfoldable pub sort : List ℤ → List ℤ
unfolding insert
sort [] = []
sort (x ∷ xs) = insert x (sort xs)

unfoldable pub threads : Process → List ℤ
unfolding scan_dir task_dir_filter sort
threads p = sort (scan_dir task_dir_filter [] (p.directory (codes "/proc/self/task")))
