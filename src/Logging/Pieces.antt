-- ===== src/Logging/Pieces.antt =====
-- The texts that a line is put together from, and how long they are.
use multi_thread_log.Common.{
  ℕ, ◌+◌, ◌^◌, ◌≤◌, ◌<◌, ◌≡◌, inl, inr, refl, Bool, true, false, some, List, [], ◌∷◌, ◌++◌,
  if◌then◌else◌, arith, codes, length, length-append, lt→ltb, Bool-cases, take-all,
}
use multi_thread_log.Common.Decimal.{print_blank, print_zero}
use multi_thread_log.Common.Int.{ℤ, pos, eqb_ℤ}
use multi_thread_log.LogStream.{make_fmt}
use multi_thread_log.LogStream.FixedBuffer.Append.{NoNul}
use multi_thread_log.TimeZone.Zone.{TimeZone, valid}
use multi_thread_log.Logging.{LogCall, traced}
use multi_thread_log.Logging.Level.{
  LogLevel, trace, debug, info, warn, error, fatal, log_level_name,
}
use multi_thread_log.Logging.Impl.{Env}
use multi_thread_log.Logging.Texts.{NoNul-append, NoNul-print_zero, length-print_blank, length_zero}

-- The microseconds of a line, with `Z` for UTC.
abbrev pub micros : TimeZone → ℤ → List ℕ
micros tz us = b'.' ∷ (print_zero 6 us ++ (if valid tz then codes " " else codes "Z "))

pub NoNul-prefix : (s t : List ℕ) → NoNul (s ++ t) → NoNul s
NoNul-prefix [] t h = tt
NoNul-prefix (c ∷ s) t h = (h.0, NoNul-prefix s t h.1)

pub micros-NoNul : (tz : TimeZone) (us : ℤ) → NoNul (micros tz us)
micros-NoNul tz us =
    (omega arith, NoNul-append (print_zero 6 us) _ (NoNul-print_zero 6 us) (blank (valid tz)))
  where
    blank : (z : Bool) → NoNul (if z then codes " " else codes "Z ")
    blank true = omega arith
    blank false = omega arith

pub length-micros : (tz : TimeZone) (us : ℕ) → us < 1000000 → length (micros tz (pos us)) ≤ 9
length-micros tz us h = omega (
  arith,
  length-append (print_zero 6 (pos us)) (if valid tz then codes " " else codes "Z "),
  length_zero 5 us (pos us) refl h,
  blank (valid tz),
)
  where
    blank : (z : Bool) → length (if z then codes " " else codes "Z ") ≤ 2
    blank true = omega arith
    blank false = omega arith

pub make_fmt-micros :
    (tz : TimeZone) (us : ℕ)
    → us < 1000000
    → make_fmt (micros tz (pos us)) ≡ some (record { text = micros tz (pos us) })
unfolding make_fmt
make_fmt-micros tz us h =
    let short : length (micros tz (pos us)) ≤ 31 = omega (arith, length-micros tz us h) in
    rw
      (
        lt→ltb (length (micros tz (pos us))) 32 (omega arith),
        take-all 31 (micros tz (pos us)) short,
      )
      refl

pub NoNul-level : (l : LogLevel) → NoNul (log_level_name l)
NoNul-level trace = omega arith
NoNul-level debug = omega arith
NoNul-level info = omega arith
NoNul-level warn = omega arith
NoNul-level error = omega arith
NoNul-level fatal = omega arith

pub length-level : (l : LogLevel) → length (log_level_name l) ≡ 6
length-level trace = refl
length-level debug = refl
length-level info = refl
length-level warn = refl
length-level error = refl
length-level fatal = refl

pub length-tid : (n : ℕ) → n < 10 ^ 10 → length (print_blank 5 (pos n)) ≤ 10
length-tid n h = length-print_blank 5 9 n (omega arith) h

-- What is said of an error: nothing, if there is none.
abbrev pub errno_text : Env → ℤ → List ℕ → List ℕ
errno_text env errno digits =
    if eqb_ℤ errno (pos 0)
    then []
    else env.strerror errno ++ (codes " (errno=" ++ (digits ++ codes ") "))

-- The head of a line, once the time and the number of the thread are known.
abbrev pub head_text : Env → TimeZone → List ℕ → ℕ → ℕ → LogLevel → ℤ → List ℕ → List ℕ
head_text env tz time us tid level errno digits =
    (time ++ micros tz (pos us))
    ++ (print_blank 5 (pos tid)
        ++ (codes " " ++ (log_level_name level ++ errno_text env errno digits)))

-- The name of the function, and the end of a line.
abbrev pub func_text : LogCall → List ℕ
func_text (traced level func) = func ++ codes " "
func_text _ = []

abbrev pub finish_text : List ℕ → List ℕ → List ℕ
finish_text file digits = codes " - " ++ (file ++ (codes ":" ++ (digits ++ codes "\n")))

pub length-errno_text :
    (env : Env) (errno : ℤ) (e : List ℕ)
    → length e ≤ 21
    → length (errno_text env errno e) ≤ length (env.strerror errno) + 31
length-errno_text env errno e h = elim (Bool-cases (eqb_ℤ errno (pos 0))) [
  | inl none_set ↦ rw none_set (omega arith)
  | inr set ↦ rw set (
      omega (
        arith,
        length-append (env.strerror errno) (codes " (errno=" ++ (e ++ codes ") ")),
        length-append e (codes ") "),
      ))
]

pub length-head_text :
    (env : Env) (tz : TimeZone) (time : List ℕ) (us tid : ℕ) (level : LogLevel) (errno : ℤ)
    (e : List ℕ)
    → length time ≡ 17
    → us < 1000000
    → tid < 10 ^ 10
    → length e ≤ 21
    → length (head_text env tz time us tid level errno e) ≤ length (env.strerror errno) + 74
length-head_text env tz time us tid level errno e long us_small tid_small he = omega (
  arith,
  length-append (time ++ micros tz (pos us))
      (print_blank 5 (pos tid) ++ (codes " " ++ (log_level_name level ++ errno_text env errno e))),
  length-append time (micros tz (pos us)),
  length-micros tz us us_small,
  length-append (print_blank 5 (pos tid))
      (codes " " ++ (log_level_name level ++ errno_text env errno e)),
  length-tid tid tid_small,
  length-append (log_level_name level) (errno_text env errno e),
  length-level level,
  length-errno_text env errno e he,
)

pub length-finish_text :
    (file d : List ℕ) → length d ≤ 21 → length (finish_text file d) ≤ length file + 26
length-finish_text file d h =
    omega (arith, length-append file (codes ":" ++ (d ++ codes "\n")), length-append d (codes "\n"))
