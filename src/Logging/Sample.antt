-- ===== src/Logging/Sample.antt =====
-- A statement, at a time, in a thread, that the examples use.
use multi_thread_log.Common.{refl, false, [], ◌∷◌, arith, codes}
use multi_thread_log.Common.Int.{pos, +ℤ_pos}
use multi_thread_log.CurrentThread.{fresh}
use multi_thread_log.TimeZone.{Tm, zero_tm}
use multi_thread_log.Logging.{LogCall, traced, World}
use multi_thread_log.Logging.Source.{SourceFile}
use multi_thread_log.Logging.Level.{trace, Globals, start_globals}
use multi_thread_log.Logging.Impl.{Env, ThreadState}
use multi_thread_log.Logging.Texts.{IsShort}
use multi_thread_log.Logging.Statement.{IsPrintable}

-- 2021-12-17 08:05:09
abbrev pub some_tm : Tm
some_tm = record zero_tm {
  tm_sec = pos 9;
  tm_min = pos 5;
  tm_hour = pos 8;
  tm_mday = pos 17;
  tm_mon = pos 11;
  tm_year = pos 121;
}

pub some_tm-IsShort : IsShort some_tm
some_tm-IsShort = record {
  year = 2021;
  month = 12;
  day = 17;
  hour = 8;
  minute = 5;
  second = 9;
  year_is = +ℤ_pos 121 1900;
  month_is = +ℤ_pos 11 1;
  day_is = refl;
  hour_is = refl;
  minute_is = refl;
  second_is = refl;
  year_short = omega arith;
  month_short = omega arith;
  day_short = omega arith;
  hour_short = omega arith;
  minute_short = omega arith;
  second_short = omega arith;
}

-- A program in which zero bytes are close, at 0 seconds after the epoch.
abbrev pub some_env : Env
some_env = record {
  gmtime = λ s. some_tm;
  strerror = λ e. codes "No such file";
  gettid = 4711;
  behind = λ c. 0 ∷ [];
}

abbrev pub some_globals : Globals
some_globals = record start_globals { log_level = trace }

abbrev pub some_call : LogCall
some_call = traced trace (codes "main")

abbrev pub some_file : SourceFile
some_file = record { chars = codes "a.cc"; size = 4 }

abbrev pub some_thread : ThreadState
some_thread = record { time_text = []; last_second = pos 0; current = fresh }

abbrev pub some_world : World
some_world = record { emitted = []; flushed = []; aborted = false }

pub some_call-IsPrintable : IsPrintable 32 some_env some_call some_file 42
some_call-IsPrintable = record {
  error_text = omega arith;
  error_small = omega arith;
  func = omega arith;
  file_text = omega arith;
  file_size = refl;
  line_small = omega arith;
  near_blank = ([], [], refl, tt, omega arith);
  near_colon = ([], [], refl, tt, omega arith);
  near_newline = ([], [], refl, tt, omega arith);
}
