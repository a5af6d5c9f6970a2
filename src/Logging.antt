-- ===== src/Logging.antt =====
-- Logging.h and Logging.cc: a `Logger` puts one line together and hands it to an output function. `none` is
-- undefined behaviour, or a failed assertion.
pub mod Level
pub mod Source
pub mod Impl
pub mod Puts
pub mod Texts
pub mod Clock
pub mod Pieces
pub mod Line
pub mod Statement
pub mod Logged
pub mod Sample
mod Examples
use multi_thread_log.Common.{
  ℕ, Bool, true, false, Option, none, some, List, [], ◌∷◌, ◌++◌, leb, length, ◌==◌, if◌then◌else◌,
  ◌>>=◌, codes,
}
use multi_thread_log.Common.Decimal.{print_zero, snprintf}
use multi_thread_log.Common.Int.{ℤ, pos, quot, rem, eqb_ℤ}
use multi_thread_log.CurrentThread.{CurrentThread, tid}
use multi_thread_log.LogStream
use multi_thread_log.LogStream.{make_fmt}
use multi_thread_log.LogStream.FixedBuffer
use multi_thread_log.LogStream.FixedBuffer.{FixedBuffer, to_string}
use multi_thread_log.TimeZone.{Tm}
use multi_thread_log.TimeZone.Zone.{TimeZone, valid, to_local_time}
use multi_thread_log.Timestamp.{Timestamp, print_tm, k_micro_seconds_per_second}
use Source.{SourceFile}
use Level.{LogLevel, info, error, fatal, level_number, Handler, Globals}
use Impl.{Env, ThreadState, Impl as LogImpl, make_impl, finish}

-- The constructors of `Logger`, each with its level and error number; `func` is put with a blank behind it.
pub data LogCall : Type 0 where
  plain : LogCall
  leveled : LogLevel → LogCall
  traced : LogLevel → List ℕ → LogCall
  sys_error : Bool → ℤ → LogCall

abbrev pub level_of : LogCall → LogLevel
level_of plain = info
level_of (leveled level) = level
level_of (traced level func) = level
level_of (sys_error to_abort errno) = if to_abort then fatal else error

abbrev pub errno_of : LogCall → ℤ
errno_of (sys_error to_abort errno) = errno
errno_of _ = pos 0

unfoldable pub put_func : Env → LogCall → FixedBuffer → Option FixedBuffer
put_func env (traced level func) b = LogStream.put_c_string b (some (func ++ 0 ∷ [])) >>= λ b'.
    LogStream.put_char b' b' ' (env.behind b' ')
put_func env _ b = some b

unfoldable pub make_logger :
    Env
    → TimeZone
    → Timestamp
    → List ℕ
    → LogCall
    → SourceFile
    → ℕ
    → ThreadState
    → Option (ThreadState × LogImpl)
unfolding make_impl put_func
make_logger env tz now memory call file line th = do
  r ← make_impl env tz now memory (level_of call) (errno_of call) file line th
  b ← put_func env call r.1.stream
  some (r.0, record (r.1) { stream = b })

-- What the program's output functions were given, the latest last, and whether the process was ended.
pub record World : Type 0 where
  pub emitted : List (Handler × List ℕ)
  pub flushed : List Handler
  pub aborted : Bool

-- The destructor.
unfoldable pub destroy_logger : Env → Globals → LogImpl → World → Option World
unfolding finish to_string
destroy_logger env g l w = do
  l ← finish env l
  let w' = record w { emitted = w.emitted ++ (g.output, to_string l.stream) ∷ [] }
  some (
      if level_number l.level == 5
      then record w' { flushed = w'.flushed ++ g.flush ∷ []; aborted = true }
      else w')

-- The macros `LOG_TRACE`, `LOG_DEBUG` and `LOG_INFO` test the level; the others do not.
unfoldable pub is_logged : Globals → LogCall → Bool
is_logged g (traced level func) = leb (level_number g.log_level) (level_number level)
is_logged g plain = leb (level_number g.log_level) (level_number info)
is_logged g _ = true

-- A statement such as `LOG_INFO << ...`; `body` is what the program inserts.
unfoldable pub log_statement :
    Env
    → Globals
    → Timestamp
    → List ℕ
    → LogCall
    → SourceFile
    → ℕ
    → (FixedBuffer → Option FixedBuffer)
    → ThreadState × World
    → Option (ThreadState × World)
unfolding make_logger destroy_logger
log_statement env g now memory call file line body (th, w) =
    if is_logged g call
    then (make_logger env g.log_time_zone now memory call file line th >>= λ r.
        body r.1.stream >>= λ b.
        destroy_logger env g (record (r.1) { stream = b }) w >>= λ w'. some (r.0, w'))
    else some (th, w)
