-- ===== src/Logging/Impl.antt =====
-- `Logger::Impl`: the head of a line and its end. `gmtime_r`, `strerror_r`, `gettid` and what lies in memory
-- behind a character on the stack are in an `Env`.
use multi_thread_log.Common.{
  ℕ, Option, some, List, [], ◌∷◌, ◌++◌, length, if◌then◌else◌, ◌>>=◌, codes,
}
use multi_thread_log.Common.Decimal.{print_zero, snprintf}
use multi_thread_log.Common.Int.{ℤ, pos, quot, rem, eqb_ℤ}
use multi_thread_log.CurrentThread.{CurrentThread, tid}
use multi_thread_log.LogStream
use multi_thread_log.LogStream.{make_fmt}
use multi_thread_log.LogStream.FixedBuffer
use multi_thread_log.LogStream.FixedBuffer.{FixedBuffer, to_string}
use multi_thread_log.TimeZone.{Tm}
use multi_thread_log.TimeZone.Zone.{TimeZone, valid, to_local_time}
use multi_thread_log.Timestamp.{Timestamp, print_tm, k_micro_seconds_per_second}
use multi_thread_log.Logging.Source.{SourceFile}
use multi_thread_log.Logging.Level.{LogLevel, log_level_name}

pub record Env : Type 0 where
  pub gmtime : ℤ → Tm
  pub strerror : ℤ → List ℕ
  pub gettid : ℕ
  pub behind : ℕ → List ℕ

-- The thread-local variables; `time_text` is `t_time` up to its terminator.
pub record ThreadState : Type 0 where
  pub time_text : List ℕ
  pub last_second : ℤ
  pub current : CurrentThread

-- `formatTime` first brings `t_time` up to date.
unfoldable pub refresh_time : Env → TimeZone → ℤ → ThreadState → Option ThreadState
refresh_time env tz seconds th = if eqb_ℤ seconds th.last_second then some th else (do
  tm ← if valid tz then to_local_time env.gmtime tz seconds else some (env.gmtime seconds)
  some (record th { last_second = seconds; time_text = snprintf 64 (print_tm tm) }))

-- Then it puts the first 17 characters, the microseconds, and `Z` unless there is a zone.
unfoldable pub put_time : TimeZone → ThreadState → ℤ → FixedBuffer → Option FixedBuffer
put_time tz th microseconds b = do
  b ← LogStream.put_piece b (th.time_text ++ 0 ∷ []) 17
  us ← make_fmt (b'.' ∷ (print_zero 6 microseconds ++ (if valid tz then codes " " else codes "Z ")))
  LogStream.put_piece b (us.text ++ 0 ∷ []) (length us.text)

-- The text of an error, if there is one.
unfoldable pub put_errno : Env → ℤ → FixedBuffer → Option FixedBuffer
put_errno env saved_errno b = if eqb_ℤ saved_errno (pos 0) then some b else (do
  b ← LogStream.put_c_string b (some (env.strerror saved_errno ++ 0 ∷ []))
  b ← LogStream.put_c_string b (some (codes " (errno=" ++ 0 ∷ []))
  b ← LogStream.put_int b saved_errno
  LogStream.put_c_string b (some (codes ") " ++ 0 ∷ [])))

-- `Impl`
pub record Impl : Type 0 where
  pub time : Timestamp
  pub stream : FixedBuffer
  pub level : LogLevel
  pub line : ℕ
  pub basename : SourceFile

-- What the constructor of `Impl` puts, the thread's state being up to date.
unfoldable pub put_head :
    Env → TimeZone → ThreadState → ℤ → LogLevel → ℤ → FixedBuffer → Option FixedBuffer
unfolding put_time put_errno
put_head env tz th microseconds level saved_errno b = do
  b ← put_time tz th microseconds b
  b ← LogStream.put_piece b (th.current.tid_string ++ 0 ∷ []) th.current.tid_string_length
  b ← LogStream.put_c_string b (some (codes " " ++ 0 ∷ []))
  b ← LogStream.put_piece b (log_level_name level ++ 0 ∷ []) 6
  put_errno env saved_errno b

-- The constructor of `Impl`, at the time `now`; `memory` is what the stream's array holds.
unfoldable pub make_impl :
    Env
    → TimeZone
    → Timestamp
    → List ℕ
    → LogLevel
    → ℤ
    → SourceFile
    → ℕ
    → ThreadState
    → Option (ThreadState × Impl)
unfolding refresh_time put_head
make_impl env tz now memory level saved_errno file line th = do
  th ← refresh_time env tz (quot now.micro_seconds_since_epoch k_micro_seconds_per_second) th
  let th' = record th { current = (tid env.gettid th.current).0 }
  b ←
      put_head env tz th' (rem now.micro_seconds_since_epoch k_micro_seconds_per_second) level
        saved_errno (FixedBuffer.make memory)
  some (th', record { time = now; stream = b; level = level; line = line; basename = file })

-- What `finish` puts: ` - `, the file's name, a colon, the line and a newline.
unfoldable pub put_finish : Env → SourceFile → ℕ → FixedBuffer → Option FixedBuffer
put_finish env file line b = do
  b ← LogStream.put_c_string b (some (codes " - " ++ 0 ∷ []))
  b ← LogStream.put_piece b (file.chars ++ 0 ∷ []) file.size
  b ← LogStream.put_char b b':' (env.behind b':')
  b ← LogStream.put_int b (pos line)
  LogStream.put_char b 10 (env.behind 10)

unfoldable pub finish : Env → Impl → Option Impl
unfolding put_finish
finish env l = do b ← put_finish env l.basename l.line l.stream; some (record l { stream = b })
