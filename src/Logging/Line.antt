-- ===== src/Logging/Line.antt =====
-- The line that a statement logs, piece by piece.
use multi_thread_log.Common.{
  ℕ, ◌^◌, ◌≤◌, ◌<◌, ◌≡◌, ◌≢◌, inl, inr, subst, some, List, [], ◌∷◌, ◌++◌, ◌>>=◌, arith, codes,
  length, Bool-cases, take-all,
}
use multi_thread_log.Common.Decimal.{print_blank}
use multi_thread_log.Common.Int.{ℤ, pos, magnitude, eqb_ℤ}
use multi_thread_log.LogStream
use multi_thread_log.LogStream.{make_fmt}
use multi_thread_log.LogStream.FixedBuffer.Append.{NoNul}
use multi_thread_log.LogStream.Convert.{max_digits}
use multi_thread_log.LogStream.Convert.Decimal.{convert-Converted}
use multi_thread_log.CurrentThread.Tid.{IsCached}
use multi_thread_log.TimeZone.Zone.{TimeZone}
use multi_thread_log.Logging.{LogCall, plain, leveled, traced, sys_error, put_func}
use multi_thread_log.Logging.Source.{SourceFile}
use multi_thread_log.Logging.Level.{LogLevel, log_level_name}
use multi_thread_log.Logging.Impl.{Env, ThreadState, put_time, put_errno, put_head, put_finish}
use multi_thread_log.Logging.Puts.{
  Puts, Puts-then, Puts-nothing, Puts-piece, Puts-c_string, Puts-char, Puts-int,
}
use multi_thread_log.Logging.Texts.{NoNul-print_blank}
use multi_thread_log.Logging.Pieces.{
  micros, NoNul-prefix, micros-NoNul, make_fmt-micros, NoNul-level, length-level, length-tid,
  errno_text, head_text, func_text, finish_text,
}

-- There is a zero byte in `mem`, with fewer than `room` bytes before it.
abbrev pub IsNear : ℕ → List ℕ → Type 0
IsNear room mem =
    (garbage rest : List ℕ) × (mem ≡ garbage ++ 0 ∷ rest) × NoNul garbage × (length garbage < room)

module _ (room : ℕ) (spare : 32 ≤ room) where
  Puts-time :
      (tz : TimeZone) (th : ThreadState) (us : ℕ)
      → length th.time_text ≡ 17
      → NoNul th.time_text
      → us < 1000000
      → Puts room (th.time_text ++ micros tz (pos us)) (put_time tz th (pos us))
  unfolding put_time
  Puts-time tz th us long nn small = rw (make_fmt-micros tz us small) (
      Puts-then room th.time_text (micros tz (pos us)) _
        (λ b. LogStream.put_piece b (micros tz (pos us) ++ 0 ∷ []) (length (micros tz (pos us))))
        (subst (λ n. Puts room th.time_text (λ b. LogStream.put_piece b (th.time_text ++ 0 ∷ []) n))
          long (Puts-piece room th.time_text nn (omega arith)))
        (Puts-piece room (micros tz (pos us)) (micros-NoNul tz (pos us)) (omega arith)))

  -- A thread's number in decimal, with at least five characters.
  Puts-tid :
      (n : ℕ) (th : ThreadState)
      → IsCached n th.current
      → n < 10 ^ 10
      → Puts room (print_blank 5 (pos n)) (λ b.
        LogStream.put_piece b (th.current.tid_string ++ 0 ∷ []) th.current.tid_string_length)
  Puts-tid n th c small =
      let fits : length (print_blank 5 (pos n)) ≤ 31 = omega (arith, length-tid n small) in
      rw (c.text, c.size, take-all 31 (print_blank 5 (pos n)) fits)
        (Puts-piece room (print_blank 5 (pos n)) (NoNul-print_blank 5 (pos n)) (omega arith))

  Puts-level :
      (l : LogLevel)
      → Puts room (log_level_name l) (λ b. LogStream.put_piece b (log_level_name l ++ 0 ∷ []) 6)
  Puts-level l =
      subst
        (λ n.
          Puts room (log_level_name l) (λ b. LogStream.put_piece b (log_level_name l ++ 0 ∷ []) n))
        (length-level l) (Puts-piece room (log_level_name l) (NoNul-level l) (omega arith))

  -- The text of an error and its number in brackets, or nothing.
  Puts-error :
      (env : Env) (errno : ℤ) (small : magnitude errno < 10 ^ max_digits)
      → NoNul (env.strerror errno)
      → Puts room
          (env.strerror errno
            ++ (codes " (errno=" ++ ((convert-Converted errno small).text ++ codes ") ")))
          (λ b. LogStream.put_c_string b (some (env.strerror errno ++ 0 ∷ [])) >>= λ b.
            LogStream.put_c_string b (some (codes " (errno=" ++ 0 ∷ [])) >>= λ b.
            LogStream.put_int b errno >>= λ b.
            LogStream.put_c_string b (some (codes ") " ++ 0 ∷ [])))
  Puts-error env errno small nn =
      Puts-then room (env.strerror errno) _
        (λ b. LogStream.put_c_string b (some (env.strerror errno ++ 0 ∷ []))) _
        (Puts-c_string room (env.strerror errno) nn (omega arith))
        (Puts-then room (codes " (errno=") _
          (λ b. LogStream.put_c_string b (some (codes " (errno=" ++ 0 ∷ []))) _
          (Puts-c_string room (codes " (errno=") (omega arith) (omega arith))
          (Puts-then room (convert-Converted errno small).text (codes ") ")
            (λ b. LogStream.put_int b errno) _ (Puts-int room errno small spare)
            (Puts-c_string room (codes ") ") (omega arith) (omega arith))))

  Puts-errno :
      (env : Env) (errno : ℤ) (small : magnitude errno < 10 ^ max_digits)
      → NoNul (env.strerror errno)
      → Puts room (errno_text env errno (convert-Converted errno small).text) (put_errno env errno)
  unfolding put_errno
  Puts-errno env errno small nn = elim (Bool-cases (eqb_ℤ errno (pos 0))) [
    | inl e ↦ rw e (Puts-nothing room)
    | inr e ↦ rw e (Puts-error env errno small nn)
  ]

  pub Puts-head :
      (env : Env) (tz : TimeZone) (th : ThreadState) (us n : ℕ) (level : LogLevel) (errno : ℤ)
      (small : magnitude errno < 10 ^ max_digits)
      → length th.time_text ≡ 17
      → NoNul th.time_text
      → us < 1000000
      → IsCached n th.current
      → n < 10 ^ 10
      → NoNul (env.strerror errno)
      → Puts room
          (head_text env tz th.time_text us n level errno (convert-Converted errno small).text)
          (put_head env tz th (pos us) level errno)
  unfolding put_head
  Puts-head env tz th us n level errno small long nn us_small c n_small errno_nn =
      Puts-then room (th.time_text ++ micros tz (pos us)) _ (put_time tz th (pos us)) _
        (Puts-time tz th us long nn us_small)
        (Puts-then room (print_blank 5 (pos n)) _
          (λ b.
            LogStream.put_piece b (th.current.tid_string ++ 0 ∷ []) th.current.tid_string_length)
          _ (Puts-tid n th c n_small)
          (Puts-then room (codes " ") _ (λ b. LogStream.put_c_string b (some (codes " " ++ 0 ∷ [])))
            _ (Puts-c_string room (codes " ") (omega arith) (omega arith))
            (Puts-then room (log_level_name level) _
              (λ b. LogStream.put_piece b (log_level_name level ++ 0 ∷ []) 6) _ (Puts-level level)
              (Puts-errno env errno small errno_nn))))

  Puts-near :
      (ch : ℕ) (mem : List ℕ)
      → ch ≢ 0
      → IsNear room mem
      → Puts room (ch ∷ []) (λ b. LogStream.put_char b ch mem)
  Puts-near ch mem h (garbage, rest, e, nn, near) = rw e (Puts-char room ch garbage rest h nn near)

  pub Puts-func :
      (env : Env) (call : LogCall)
      → NoNul (func_text call)
      → IsNear room (env.behind b' ')
      → Puts room (func_text call) (put_func env call)
  unfolding put_func
  Puts-func env plain nn near = Puts-nothing room
  Puts-func env (leveled level) nn near = Puts-nothing room
  Puts-func env (sys_error to_abort errno) nn near = Puts-nothing room
  Puts-func env (traced level func) nn near =
      Puts-then room func (codes " ") (λ b. LogStream.put_c_string b (some (func ++ 0 ∷ []))) _
        (Puts-c_string room func (NoNul-prefix func (codes " ") nn) (omega arith))
        (Puts-near b' ' (env.behind b' ') (omega arith) near)

  pub Puts-finish :
      (env : Env) (file : SourceFile) (line : ℕ) (small : magnitude (pos line) < 10 ^ max_digits)
      → NoNul file.chars
      → file.size ≡ length file.chars
      → IsNear room (env.behind b':')
      → IsNear room (env.behind 10)
      → Puts room
          (finish_text file.chars (convert-Converted (pos line) small).text)
          (put_finish env file line)
  unfolding put_finish
  Puts-finish env file line small nn size colon newline =
      Puts-then room (codes " - ") _ (λ b. LogStream.put_c_string b (some (codes " - " ++ 0 ∷ [])))
        _ (Puts-c_string room (codes " - ") (omega arith) (omega arith))
        (Puts-then room file.chars _ (λ b. LogStream.put_piece b (file.chars ++ 0 ∷ []) file.size) _
          (rw size (Puts-piece room file.chars nn (omega arith)))
          (Puts-then room (codes ":") _ (λ b. LogStream.put_char b b':' (env.behind b':')) _
            (Puts-near b':' (env.behind b':') (omega arith) colon)
            (Puts-then room (convert-Converted (pos line) small).text (codes "\n")
              (λ b. LogStream.put_int b (pos line)) _ (Puts-int room (pos line) small spare)
              (Puts-near 10 (env.behind 10) (omega arith) newline))))
