-- ===== src/Logging/Logged.antt =====
-- What a statement such as `LOG_INFO << ...` logs.
use multi_thread_log.Common.{
  ℕ, ◌+◌, ◌/◌, ◌%◌, ◌^◌, ◌≤◌, ◌<◌, ◌≡◌, ◌⊎◌, refl, sym, ap, ◌∙◌, true, false, ◌||◌, Option, some,
  List, [], ◌∷◌, ◌++◌, if◌then◌else◌, ◌>>=◌, arith, length, length-append, take-all,
}
use multi_thread_log.Common.Decimal.{snprintf}
use multi_thread_log.Common.Int.{ℤ, pos, eqb_ℤ}
use multi_thread_log.LogStream.FixedBuffer
use multi_thread_log.LogStream.FixedBuffer.{FixedBuffer, to_string}
use multi_thread_log.LogStream.FixedBuffer.Append.{NoNul}
use multi_thread_log.LogStream.Convert.Decimal.{IsDecimal, convert-Converted}
use multi_thread_log.CurrentThread.{tid}
use multi_thread_log.CurrentThread.Tid.{IsCached, IsOwn, tid-IsCached}
use multi_thread_log.TimeZone.{Tm}
use multi_thread_log.TimeZone.Zone.{TimeZone}
use multi_thread_log.Timestamp.{print_tm}
use multi_thread_log.Logging.{
  LogCall, level_of, errno_of, put_func, World, is_logged, log_statement,
}
use multi_thread_log.Logging.Source.{SourceFile}
use multi_thread_log.Logging.Level.{LogLevel, Globals}
use multi_thread_log.Logging.Impl.{Env, ThreadState, put_head, refresh_time}
use multi_thread_log.Logging.Puts.{Puts, Puts-then}
use multi_thread_log.Logging.Texts.{IsShort, NoNul-print_tm, length-print_tm}
use multi_thread_log.Logging.Clock.{clock_time, IsShown, refresh_time-IsShown}
use multi_thread_log.Logging.Line.{Puts-head, Puts-func, Puts-finish}
use multi_thread_log.Logging.Pieces.{
  head_text, func_text, finish_text, length-head_text, length-finish_text,
}
use multi_thread_log.Logging.Statement.{
  IsPrintable, is_fatal, put_line, emit, log_statement-put_line, emit_lem,
}

-- The line of the statement at `t` microseconds after the epoch.
abbrev pub line_text :
    Env → TimeZone → Tm → ℕ → LogCall → SourceFile → List ℕ → List ℕ → List ℕ → List ℕ
line_text env tz tm t call file errno_digits line_digits body =
    head_text env tz (print_tm tm) (t % 1000000) env.gettid (level_of call) (errno_of call)
      errno_digits
    ++ (func_text call ++ (body ++ finish_text file.chars line_digits))

-- The statement returned, having handed the line `text`, shorter than the stream's memory, to the output function, and the text of the time is right for
-- the next one. After a fatal one the output was flushed and the process is ended.
pub record HasLogged (env : Env) (g : Globals) (memory : List ℕ) (level : LogLevel) (w : World)
    (text : List ℕ) (s : ℤ) (r : Option (ThreadState × World)) : Type 0 where
  pub thread : ThreadState
  pub world : World
  pub returns : r ≡ some (thread, world)
  pub emitted : world.emitted ≡ w.emitted ++ (g.output, text) ∷ []
  pub shorter : length text < length memory
  pub flushed : world.flushed ≡ w.flushed ++ (if is_fatal level then g.flush ∷ [] else [])
  pub aborted : world.aborted ≡ (is_fatal level || w.aborted)
  pub second : thread.last_second ≡ s
  pub shown : IsShown env g.log_time_zone thread
  pub cached : IsCached env.gettid thread.current

module _ (room : ℕ) (spare : 32 ≤ room) where
  Puts-line :
      (env : Env) (tz : TimeZone) (th : ThreadState) (us : ℕ) (call : LogCall) (file : SourceFile)
      (line : ℕ) (body : FixedBuffer → Option FixedBuffer) (text : List ℕ)
      (p : IsPrintable room env call file line)
      → length th.time_text ≡ 17
      → NoNul th.time_text
      → us < 1000000
      → IsCached env.gettid th.current
      → env.gettid < 10 ^ 10
      → Puts room text body
      → Puts room
          (head_text env tz th.time_text us env.gettid
              (level_of call)
              (errno_of call)
              (convert-Converted (errno_of call) p.error_small).text
            ++ (func_text call
                ++ (text
                    ++ finish_text file.chars (convert-Converted (pos line) p.line_small).text)))
          (put_line env tz th us call file line body)
  unfolding put_line
  Puts-line env tz th us call file line body text p long nn us_small c small puts =
      Puts-then room _ _ (put_head env tz th (pos us) (level_of call) (errno_of call)) _
        (Puts-head room spare env tz th us env.gettid (level_of call) (errno_of call) p.error_small
          long nn us_small c small p.error_text)
        (Puts-then room (func_text call) _ (put_func env call) _
          (Puts-func room spare env call p.func p.near_blank)
          (Puts-then room text _ body _ puts (
            Puts-finish room spare env file line p.line_small p.file_text p.file_size p.near_colon
              p.near_newline)))

-- A line takes at most 128 bytes and the texts of the program.
length-line_text :
    (env : Env) (tz : TimeZone) (tm : Tm) (t : ℕ) (call : LogCall) (file : SourceFile)
    (e d body : List ℕ)
    → IsShort tm
    → env.gettid < 10 ^ 10
    → length e ≤ 21
    → length d ≤ 21
    → length (line_text env tz tm t call file e d body)
      ≤ length (env.strerror (errno_of call))
        + length (func_text call)
        + length body
        + length file.chars
        + 128
length-line_text env tz tm t call file e d body short small he hd = omega (
  arith,
  length-append
      (head_text env tz (print_tm tm) (t % 1000000) env.gettid (level_of call) (errno_of call) e)
      (func_text call ++ (body ++ finish_text file.chars d)),
  length-head_text env tz (print_tm tm) (t % 1000000) env.gettid (level_of call) (errno_of call) e
      (length-print_tm tm short) (omega arith) small he,
  length-append (func_text call) (body ++ finish_text file.chars d),
  length-append body (finish_text file.chars d),
  length-finish_text file.chars d hd,
)

-- A statement whose level is enabled, at a time from the epoch on, in a thread whose number is at
-- least 1, below 10^10, and known, if cached, and whose text of the time, if it is of the same second,
-- is of the same zone. If the date has as many digits as the format asks for, no text has a zero byte,
-- the numbers have at most 20 digits, the program's inserters put `text` wherever `room` bytes, at
-- least 32, are to spare, behind each single character a zero byte is nearer than `room`, and the
-- texts, `room` and 128 more bytes fit in the stream, then it returns. It hands one line to the output
-- function, shorter than the stream: the time, the number of the thread, the level, the error if any, the function if any,
-- `text`, the file and the line. A fatal one also flushes the output and ends the process. What the
-- thread keeps is right again for the next statement.
pub log_statement-HasLogged :
    (env : Env) (g : Globals) (t : ℕ) (memory : List ℕ) (call : LogCall) (file : SourceFile)
    (line : ℕ) (body : FixedBuffer → Option FixedBuffer) (text : List ℕ) (room : ℕ)
    (th : ThreadState) (w : World) (tm : Tm)
    → is_logged g call ≡ true
    → clock_time env g.log_time_zone (pos (t / 1000000)) ≡ some tm
    → IsShort tm
    → IsShown env g.log_time_zone th ⊎ (eqb_ℤ (pos (t / 1000000)) th.last_second ≡ false)
    → 0 < env.gettid
    → env.gettid < 10 ^ 10
    → IsOwn env.gettid th.current
    → IsPrintable room env call file line
    → Puts room text body
    → 32 ≤ room
    → length (env.strerror (errno_of call))
        + length (func_text call)
        + length text
        + length file.chars
        + 128
        + room
      ≤ length memory
    → (e d : List ℕ) × IsDecimal (errno_of call) e
      × IsDecimal (pos line) d
      × HasLogged env g memory
          (level_of call)
          w
          (line_text env g.log_time_zone tm t call file e d text)
          (pos (t / 1000000))
          (log_statement env g
            (record { micro_seconds_since_epoch = pos t })
            memory
            call
            file
            line
            body
            (th, w))
unfolding FixedBuffer.make to_string
log_statement-HasLogged env g t memory call file line body text room th w tm logged clock short
      shown own_pos small own p puts spare fits =
    let s = pos (t / 1000000) in
    let whole : snprintf 64 (print_tm tm) ≡ print_tm tm =
      take-all 63 (print_tm tm) (omega (arith, length-print_tm tm short)) in
    let th' = record th { last_second = s; time_text = print_tm tm } in
    let cached = (tid-IsCached env.gettid th.current th.current own_pos own).1 in
    let after = record th' { current = (tid env.gettid th.current).0 } in
    let error_digits = convert-Converted (errno_of call) p.error_small in
    let line_digits = convert-Converted (pos line) p.line_small in
    let fresh : refresh_time env g.log_time_zone s th ≡ some th' =
      refresh_time-IsShown env g.log_time_zone s th tm clock shown
      ∙ ap (λ x. some (record th { last_second = s; time_text = x })) whole in
    let put =
      Puts-line room spare env g.log_time_zone after (t % 1000000) call file line body text p
        (length-print_tm tm short) (NoNul-print_tm tm) (omega arith) cached small puts
        (FixedBuffer.make memory) (omega arith)
        (omega (
          arith,
          length-line_text env g.log_time_zone tm t call file error_digits.text line_digits.text
              text short small (omega (arith, error_digits.short))
              (omega (arith, line_digits.short)),
        )) in
    let out = emit_lem g (level_of call) w (to_string put.after) in
    (
      error_digits.text,
      line_digits.text,
      error_digits.decimal,
      line_digits.decimal,
      record {
        thread = after;
        world = emit g (level_of call) w (to_string put.after);
        returns =
            log_statement-put_line env g t memory call file line body th th' w logged fresh
            ∙ ap (λ r. r >>= λ b. some (after, emit g (level_of call) w (to_string b))) put.returns;
        emitted = out.0 ∙ ap (λ x. w.emitted ++ (g.output, x) ∷ []) put.content;
        shorter = omega (
          arith,
          fits,
          spare,
          length-line_text env g.log_time_zone tm t call file error_digits.text line_digits.text
              text short small (omega (arith, error_digits.short))
              (omega (arith, line_digits.short)),
        );
        flushed = out.1;
        aborted = out.2;
        second = refl;
        shown = (tm, clock, sym whole);
        cached = cached;
      },
    )
