-- ===== src/LogFile.antt =====
-- `LogFile` of LogFile.h and LogFile.cc. A call is one step: the lock of `mutex_`, if there is one,
-- is held throughout. What the system answers during a call is in its `Moment`.
pub mod Stored
pub mod Timed
pub mod Rolling
pub mod Names
pub mod Size
mod Examples
use multi_thread_log.Common.{
  ℕ, ◌+◌, ◌-◌, ◌*◌, ◌/◌, ◌≤◌, ◌<◌, ◌≡◌, Bool, true, false, Option, none, some, List, [], ◌∷◌, ◌++◌,
  ltb, leb, ◌==◌, not, if◌then◌else◌, ◌>>=◌, codes,
}
use multi_thread_log.Common.Decimal.{decimal, snprintf}
use multi_thread_log.FileUtil.AppendFile
use multi_thread_log.FileUtil.AppendFile.{AppendFile, Answer}

abbrev pub k_roll_per_seconds : ℕ
k_roll_per_seconds = 60 * 60 * 24

-- The members that do not change, and what the process is: its host, its number and how `gmtime_r`
-- and `strftime` print a time with the format `"%Y%m%d-%H%M%S."`.
pub record Config : Type 0 where
  pub basename : List ℕ
  pub roll_size : ℕ
  pub flush_interval : ℕ
  pub check_every_n : ℕ
  pub hostname : List ℕ
  pub pid : ℕ
  pub strftime : ℕ → List ℕ

-- `file` is `none` until the first roll. `closed` lists the files that were replaced, the latest
-- first, with their names.
pub record LogFile : Type 0 where
  pub config : Config
  pub open config use *
  pub count : ℕ
  pub start_of_period : ℕ
  pub last_roll : ℕ
  pub last_flush : ℕ
  pub file : Option AppendFile
  pub name : List ℕ
  pub closed : List (List ℕ × AppendFile)

-- The answers of `fwrite` in a call, and those of `time(NULL)` in `isNeedRollFile` and `rollFile`.
pub record Moment : Type 0 where
  pub answers : List Answer
  pub check_time : ℕ
  pub roll_time : ℕ

-- `getLogFileName`; both buffers have 32 bytes.
unfoldable pub get_log_file_name : Config → ℕ → List ℕ
get_log_file_name c now =
    c.basename
    ++ (snprintf 32 (c.strftime now)
        ++ (c.hostname ++ (snprintf 32 (b'.' ∷ decimal c.pid) ++ codes ".log")))

close : List ℕ → Option AppendFile → List (List ℕ × AppendFile) → List (List ℕ × AppendFile)
close name none closed = closed
close name (some f) closed = (name, f) ∷ closed

-- The new `AppendFile` replaces the old one.
unfoldable pub roll_file : LogFile → ℕ → LogFile × Bool
unfolding close
roll_file l now =
    let start = now / k_roll_per_seconds * k_roll_per_seconds in
    if ltb l.last_roll now
    then (
      record l {
        last_roll = now;
        last_flush = now;
        start_of_period = start;
        file = some AppendFile.make;
        name = get_log_file_name l.config now;
        closed = close l.name l.file l.closed;
      },
      true,
    )
    else (l, false)

-- The constructor.
unfoldable pub make : Config → ℕ → LogFile
unfolding roll_file
make c now =
    (roll_file
      (record {
        config = c;
        count = 0;
        start_of_period = 0;
        last_roll = 0;
        last_flush = 0;
        file = none;
        name = [];
        closed = [];
      })
      now).0

-- `now - last_flush > flush_interval` is tested with nothing subtracted: `time_t` is signed.
unfoldable pub is_need_roll_file : LogFile → AppendFile → ℕ → LogFile × Bool
unfolding AppendFile.flush
is_need_roll_file l f now =
    if ltb l.roll_size f.writen_bytes
    then (l, true)
    else if leb l.check_every_n (l.count + 1)
    then (if not (now / k_roll_per_seconds * k_roll_per_seconds == l.start_of_period)
        then (record l { count = 0 }, true)
        else if ltb (l.last_flush + l.flush_interval) now
        then (record l { count = 0; last_flush = now; file = some (AppendFile.flush f) }, false)
        else (record l { count = 0 }, false))
    else (record l { count = l.count + 1 }, false)

-- `append_unlock`. Without a file, or if `fwrite` never stops, there is no result.
unfoldable pub append_unlock : LogFile → List ℕ → Moment → Option LogFile
unfolding is_need_roll_file roll_file
append_unlock l logline m = do
  f ← l.file
  g ← AppendFile.append f logline m.answers
  let r = is_need_roll_file (record l { file = some g }) g m.check_time
  some (if r.1 then (roll_file r.0 m.roll_time).0 else r.0)

-- `append` takes the lock, if the object has one, around `append_unlock`.
unfoldable pub append : LogFile → List ℕ → Moment → Option LogFile
unfolding append_unlock
append l logline m = append_unlock l logline m

unfoldable pub flush : LogFile → Option LogFile
unfolding AppendFile.flush
flush l = do f ← l.file; some (record l { file = some (AppendFile.flush f) })
