-- ===== src/LogFile/Size/Examples.antt =====
-- The second of two lines makes a file longer than the limit, and the file is replaced.
use multi_thread_log.Common.{◌≤◌, ◌≡◌, refl, some, [], ◌∷◌, length, arith, codes}
use multi_thread_log.FileUtil.AppendFile
use multi_thread_log.FileUtil.AppendFile.{AppendFile}
use multi_thread_log.LogFile.{
  Config, LogFile, Moment, make, append, append_unlock, is_need_roll_file, roll_file,
}
use multi_thread_log.LogFile.Names.{Reachable, made, appends}
use multi_thread_log.LogFile.Size.{Reachable-append_within}

abbrev config : Config
config = record {
  basename = codes "log";
  roll_size = 4;
  flush_interval = 3;
  check_every_n = 9;
  hostname = codes "host";
  pid = 42;
  strftime = λ now. now ∷ [];
}

abbrev now : Moment
now = record {
  answers = record { count = 9; error = 0 } ∷ [];
  check_time = 90009;
  roll_time = 90009;
}

abbrev three_bytes : AppendFile
three_bytes = record { file = codes "one"; writen_bytes = 3; flushes = 0 }

abbrev six_bytes : AppendFile
six_bytes = record { file = codes "onetwo"; writen_bytes = 6; flushes = 0 }

one_line : (l : LogFile) × Reachable config l × (l.file ≡ some three_bytes) × (l.last_roll ≡ 90000)
unfolding make append append_unlock is_need_roll_file roll_file AppendFile.append
    AppendFile.append_loop AppendFile.write
one_line = (_, appends _ _ (codes "one") now (made 90000 (omega arith)) refl, refl, refl)

writes_two : AppendFile.append three_bytes (codes "two") now.answers ≡ some six_bytes
unfolding AppendFile.append AppendFile.append_loop AppendFile.write
writes_two = refl

Reachable-append_within_example :
    (l' : LogFile) × (h : AppendFile) × (append one_line.0 (codes "two") now ≡ some l')
    × (l'.file ≡ some h)
    × (length h.file ≤ one_line.0.roll_size)
Reachable-append_within_example =
    Reachable-append_within one_line.1 three_bytes six_bytes (codes "two") now one_line.2 writes_two
      (omega (arith, one_line.3))
