-- ===== src/Logging/Statement.antt =====
-- A statement is one chain of inserters and then the destructor.
use multi_thread_log.Common.{
  ℕ, ◌/◌, ◌%◌, ◌^◌, ◌<◌, ◌≡◌, inl, inr, refl, sym, Bool, true, ◌||◌, Option, some, none, List, [],
  ◌∷◌, ◌++◌, ◌==◌, if◌then◌else◌, ◌>>=◌, length, append-nil, Bool-cases,
}
use multi_thread_log.Common.Int.{pos, magnitude, quot, rem}
use multi_thread_log.LogStream.FixedBuffer
use multi_thread_log.LogStream.FixedBuffer.{FixedBuffer, to_string}
use multi_thread_log.LogStream.FixedBuffer.Append.{NoNul}
use multi_thread_log.LogStream.Convert.{max_digits}
use multi_thread_log.CurrentThread.{tid}
use multi_thread_log.TimeZone.Zone.{TimeZone}
use multi_thread_log.Logging.{
  LogCall, level_of, errno_of, put_func, World, is_logged, make_logger, destroy_logger,
  log_statement,
}
use multi_thread_log.Logging.Source.{SourceFile}
use multi_thread_log.Logging.Level.{LogLevel, Globals, level_number}
use multi_thread_log.Logging.Impl.{
  Env, ThreadState, make_impl, finish, put_head, put_finish, refresh_time,
}
use multi_thread_log.Logging.Line.{IsNear}
use multi_thread_log.Logging.Pieces.{func_text}

-- No text that is put has a zero byte, the numbers have at most 20 digits, and behind each single character a zero
-- byte is near.
pub record IsPrintable (room : ℕ) (env : Env) (call : LogCall) (file : SourceFile) (line : ℕ)
    : Type 0 where
  pub error_text : NoNul (env.strerror (errno_of call))
  pub error_small : magnitude (errno_of call) < 10 ^ max_digits
  pub func : NoNul (func_text call)
  pub file_text : NoNul file.chars
  pub file_size : file.size ≡ length file.chars
  pub line_small : magnitude (pos line) < 10 ^ max_digits
  pub near_blank : IsNear room (env.behind b' ')
  pub near_colon : IsNear room (env.behind b':')
  pub near_newline : IsNear room (env.behind 10)

abbrev pub is_fatal : LogLevel → Bool
is_fatal level = level_number level == 5

-- The whole of what a statement puts, in one go.
unfoldable pub put_line :
    Env
    → TimeZone
    → ThreadState
    → ℕ
    → LogCall
    → SourceFile
    → ℕ
    → (FixedBuffer → Option FixedBuffer)
    → FixedBuffer
    → Option FixedBuffer
put_line env tz th us call file line body b =
    put_head env tz th (pos us) (level_of call) (errno_of call) b >>= λ b.
    put_func env call b >>= λ b. body b >>= λ b. put_finish env file line b

pub >>=_assoc :
    {A B C : Type 0} (m : Option A) (f : A → Option B) (g : B → Option C)
    → (m >>= f >>= g) ≡ (m >>= λ a. f a >>= g)
>>=_assoc none f g = refl
>>=_assoc (some a) f g = refl

-- The world after the line `text` has been handed over.
unfoldable pub emit : Globals → LogLevel → World → List ℕ → World
emit g level w text =
    let w' = record w { emitted = w.emitted ++ (g.output, text) ∷ [] } in
    if is_fatal level
    then record w' { flushed = w'.flushed ++ g.flush ∷ []; aborted = true }
    else w'

pub log_statement-put_line :
    (env : Env) (g : Globals) (t : ℕ) (memory : List ℕ) (call : LogCall) (file : SourceFile)
    (line : ℕ) (body : FixedBuffer → Option FixedBuffer) (th th' : ThreadState) (w : World)
    → is_logged g call ≡ true
    → refresh_time env g.log_time_zone (pos (t / 1000000)) th ≡ some th'
    → log_statement env g
        (record { micro_seconds_since_epoch = pos t })
        memory
        call
        file
        line
        body
        (th, w)
      ≡ (put_line env g.log_time_zone
            (record th' { current = (tid env.gettid th'.current).0 })
            (t % 1000000)
            call
            file
            line
            body
            (FixedBuffer.make memory)
          >>= λ b. some (
            record th' { current = (tid env.gettid th'.current).0 },
            emit g (level_of call) w (to_string b),
          ))
unfolding log_statement make_logger make_impl destroy_logger finish put_line emit quot rem
log_statement-put_line env g t memory call file line body th th' w logged fresh =
    rw (logged, fresh) (simp >>=_assoc)

pub emit_lem :
    (g : Globals) (level : LogLevel) (w : World) (text : List ℕ)
    → ((emit g level w text).emitted ≡ w.emitted ++ (g.output, text) ∷ [])
      × ((emit g level w text).flushed ≡ w.flushed ++ (if is_fatal level then g.flush ∷ [] else []))
      × ((emit g level w text).aborted ≡ (is_fatal level || w.aborted))
unfolding emit
emit_lem g level w text = elim (Bool-cases (is_fatal level)) [
  | inl e ↦ rw e (refl, refl, refl)
  | inr e ↦ rw e (refl, sym (append-nil w.flushed), refl)
]
