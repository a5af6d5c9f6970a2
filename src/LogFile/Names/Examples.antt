-- ===== src/LogFile/Names/Examples.antt =====
-- A file is replaced, and the new one has another name.
use multi_thread_log.Common.{◌≡◌, refl, [], ◌∷◌, arith, codes}
use multi_thread_log.FileUtil.AppendFile
use multi_thread_log.LogFile.{
  Config, LogFile, Moment, make, append, append_unlock, is_need_roll_file, roll_file,
  get_log_file_name,
}
use multi_thread_log.LogFile.Names.{
  Reachable, made, appends, opened_names, IsInjective, AreDistinct, Reachable-AreDistinct,
}

-- The time is printed as one character.
abbrev config : Config
config = record {
  basename = codes "log";
  roll_size = 2;
  flush_interval = 3;
  check_every_n = 2;
  hostname = codes "host";
  pid = 42;
  strftime = λ now. now ∷ [];
}

abbrev now : Moment
now = record {
  answers = record { count = 9; error = 0 } ∷ [];
  check_time = 90009;
  roll_time = 90009;
}

rolled :
    (l : LogFile) × Reachable config l
    × (opened_names l ≡ get_log_file_name config 90009 ∷ get_log_file_name config 90000 ∷ [])
unfolding make append append_unlock is_need_roll_file roll_file AppendFile.append
    AppendFile.append_loop AppendFile.write
rolled = (_, appends _ _ (codes "one") now (made 90000 (omega arith)) refl, refl)

config-IsInjective : IsInjective config
config-IsInjective s t e = cc e

Reachable-AreDistinct_example : AreDistinct (opened_names rolled.0)
Reachable-AreDistinct_example = Reachable-AreDistinct rolled.1 config-IsInjective
