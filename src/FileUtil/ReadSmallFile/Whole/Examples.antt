-- ===== src/FileUtil/ReadSmallFile/Whole/Examples.antt =====
-- A file of 26 bytes, of which the system returns at most 4 at a time.
use multi_thread_log.Common.{
  ℕ, ◌≡◌, ◌⊎◌, refl, ap, subst, min, true, none, some, List, [], arith, codes, length,
}
use multi_thread_log.FileUtil.ReadSmallFile.{
  Answer, failed, count, opened, regular, known, System, Contents, Pointers, read_file, read_loop,
}
use multi_thread_log.FileUtil.ReadSmallFile.Loop.{IsRead}
use multi_thread_log.FileUtil.ReadSmallFile.Whole.{Outcome, read_file-Outcome}

abbrev four_at_most : List ℕ → ℕ → Answer
four_at_most rest n = count (min 4 (min n (length rest)))

abbrev some_system : System
some_system = record {
  open_file = λ name. opened (codes "abcdefghijklmnopqrstuvwxyz");
  fstat = λ file. known (record { st_mode = regular; st_size = 26; st_mtime = 1; st_ctime = 2 });
  pread = four_at_most;
  read = four_at_most;
}

count_of : Answer → ℕ
count_of (failed e) = 0
count_of (count n) = n

IsCount : Answer → Type 0
IsCount (failed e) = ⊥
IsCount (count n) = Unit

four_at_most-IsRead : IsRead four_at_most
unfolding count_of IsCount
four_at_most-IsRead = record {
  bounded = λ rest n k e.
      let m : min 4 (min n (length rest)) ≡ k = ap count_of e in
      (omega (arith, m), omega (arith, m));
  ends = λ rest n e. none_left n (length rest) (ap count_of e);
  errors = λ rest n k e. absurd (subst IsCount e tt);
}
  where
    none_left : (n m : ℕ) → min 4 (min n m) ≡ 0 → (n ≡ 0) ⊎ (m ≡ 0)
    none_left n m h = grind arith

abbrev all_pointers : Pointers
all_pointers = record { file_size = true; modify_time = true; create_time = true }

abbrev nothing : Contents
nothing = record {
  error = 0;
  content = [];
  file_size = none;
  modify_time = none;
  create_time = none;
}

read_file-Outcome_example :
    Outcome some_system all_pointers 10 nothing
      (some_system.open_file (codes "f"))
      (read_file some_system all_pointers (codes "f") 10 nothing)
read_file-Outcome_example =
    read_file-Outcome some_system all_pointers (codes "f") 10 nothing four_at_most-IsRead refl

read_file_runs :
    read_file some_system all_pointers (codes "f") 10 nothing
    ≡ some (record {
      error = 0;
      content = codes "abcdefghij";
      file_size = some 26;
      modify_time = some 1;
      create_time = some 2;
    })
unfolding read_file read_loop
read_file_runs = refl
