-- ===== src/LogFile/Examples.antt =====
-- Calls of `LogFile::append` at concrete states.
use multi_thread_log.Common.{ℕ, ◌≡◌, refl, some, List, [], ◌∷◌, ◌++◌, take, arith, codes}
use multi_thread_log.Common.Decimal.{decimal}
use multi_thread_log.FileUtil.AppendFile
use multi_thread_log.FileUtil.AppendFile.{Answer, AppendFile}
use multi_thread_log.FileUtil.AppendFile.Looping.{AllGood}
use multi_thread_log.LogFile.{
  Config, LogFile, Moment, append, append_unlock, is_need_roll_file, roll_file, get_log_file_name,
}
use multi_thread_log.LogFile.Stored.{stored, IsOpen, append-stored, append-stored_prefix}
use multi_thread_log.LogFile.Timed.{IsTimed}

abbrev config : Config
config = record {
  basename = codes "log";
  roll_size = 6;
  flush_interval = 3;
  check_every_n = 2;
  hostname = codes "host";
  pid = 42;
  strftime = λ now. codes "time";
}

-- A file with four bytes, opened in the first second of the second day.
abbrev four_bytes : AppendFile
four_bytes = record { file = codes "one."; writen_bytes = 4; flushes = 0 }

abbrev second_day : LogFile
second_day = record {
  config = config;
  count = 0;
  start_of_period = 86400;
  last_roll = 86400;
  last_flush = 86400;
  file = some four_bytes;
  name = codes "first";
  closed = [];
}

second_day-IsTimed : IsTimed second_day
second_day-IsTimed = record { period = refl; flushed = omega arith; counted = omega arith }

abbrev line : List ℕ
line = codes "two."

abbrev answers : List Answer
answers =
    record { count = 9; error = 0 }
    ∷ record { count = 9; error = 0 }
    ∷ record { count = 9; error = 0 }
    ∷ record { count = 9; error = 0 }
    ∷ []

answers-AllGood : AllGood answers
answers-AllGood =
    (omega arith, refl, (omega arith, refl, (omega arith, refl, (omega arith, refl, tt))))

-- The call comes ten seconds later, or still in the second of the roll.
abbrev later : Moment
later = record { answers = answers; check_time = 86410; roll_time = 86410 }

abbrev at_once : Moment
at_once = record { answers = answers; check_time = 86400; roll_time = 86400 }

abbrev eight_bytes : AppendFile
eight_bytes = record { file = codes "one.two."; writen_bytes = 8; flushes = 0 }

writes_line : AppendFile.append four_bytes line answers ≡ some eight_bytes
unfolding AppendFile.append AppendFile.append_loop AppendFile.write
writes_line = refl

append-stored_example :
    (l' : LogFile) × (append second_day line later ≡ some l')
    × (stored l' ≡ stored second_day ++ line)
    × IsOpen l'
append-stored_example =
    append-stored second_day line later (four_bytes, refl) answers-AllGood (omega arith)

-- The state that the call ten seconds later leaves.
abbrev rolled : LogFile
rolled = record {
  config = config;
  count = 0;
  start_of_period = 86400;
  last_roll = 86410;
  last_flush = 86410;
  file = some AppendFile.make;
  name = codes "logtimehost.42.log";
  closed = (codes "first", eight_bytes) ∷ [];
}

append-later : append second_day line later ≡ some rolled
unfolding append append_unlock roll_file is_need_roll_file get_log_file_name AppendFile.append
    AppendFile.append_loop AppendFile.write decimal
append-later = refl

append-stored_prefix_example :
    (n : ℕ) × (stored rolled ≡ stored second_day ++ take n line) × IsOpen rolled
append-stored_prefix_example = append-stored_prefix second_day rolled line later append-later
