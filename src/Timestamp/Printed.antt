-- ===== src/Timestamp/Printed.antt =====
-- The text of a time is read back.
use multi_thread_log.Common.{
  ℕ, zero, suc, ◌+◌, ◌-◌, ◌*◌, ◌/◌, ◌%◌, ◌^◌, ◌≤◌, ◌<◌, ◌≡◌, refl, sym, ap, ap₂, ◌∙◌, List, [], ◌∷◌,
  ◌++◌, ◌==◌, if◌then◌else◌, arith, inl, inr, length, length-append, replicate, take-all,
  Bool-cases, ne→==, append-nil,
}
use multi_thread_log.Common.Decimal.{digits_before, decimal, padded, print_blank, print_zero}
use multi_thread_log.Common.Int.{pos, quot, rem}
use multi_thread_log.Common.Atoi.{digits_value}
use multi_thread_log.Common.Atoi.Numbers.{digits_before-append, digits_value-decimal}
use multi_thread_log.Logging.Texts.{length-padded, length-print_blank}
use multi_thread_log.Timestamp.{to_string}

-- What stands behind the first `.`.
abbrev pub behind_dot : List ℕ → List ℕ
behind_dot [] = []
behind_dot (c ∷ s) = if c == b'.' then s else behind_dot s

-- The millionths that the digits behind the point of a decimal fraction stand for.
abbrev pub millionths : List ℕ → ℕ
millionths s = digits_value 0 s * 10 ^ 6 / 10 ^ length s

-- The microseconds that a decimal fraction of seconds stands for.
abbrev pub read_back : List ℕ → ℕ
read_back s = digits_value 0 s * 10 ^ 6 + millionths (behind_dot s)

behind_dot-digits_before :
    (fuel n : ℕ) (out : List ℕ) → behind_dot (digits_before fuel n out) ≡ behind_dot out
unfolding digits_before
behind_dot-digits_before zero n out = refl
behind_dot-digits_before (suc fuel) n out =
    let digit = ne→== (b'0' + n % 10) b'.' (omega arith) in
    elim (Bool-cases (n / 10 == 0)) [
      | inl e ↦ rw (e, digit) refl
      | inr e ↦
          rw e (behind_dot-digits_before fuel (n / 10) ((b'0' + n % 10) ∷ out) ∙ rw digit refl)
    ]

behind_dot-decimal : (n : ℕ) (rest : List ℕ) → behind_dot (decimal n ++ b'.' ∷ rest) ≡ rest
unfolding decimal
behind_dot-decimal n rest =
    ap behind_dot (digits_before-append (suc n) n [] (b'.' ∷ rest))
    ∙ behind_dot-digits_before (suc n) n (b'.' ∷ rest)

digits_value-zeros :
    (k : ℕ) (s : List ℕ) → digits_value 0 (replicate k b'0' ++ s) ≡ digits_value 0 s
unfolding digits_value
digits_value-zeros zero s = refl
digits_value-zeros (suc k) s = digits_value-zeros k s

digits_value-padded : (w n : ℕ) → digits_value 0 (padded b'0' w n) ≡ n
unfolding padded
digits_value-padded w n =
    digits_value-zeros (w - length (decimal n)) (decimal n)
    ∙ ap (digits_value 0) (sym (append-nil (decimal n)))
    ∙ digits_value-decimal n [] refl

millionths-padded : (n : ℕ) → n < 10 ^ 6 → millionths (padded b'0' 6 n) ≡ n
millionths-padded n h =
    ap₂ (λ v k. v * 10 ^ 6 / 10 ^ k) (digits_value-padded 6 n) (length-padded b'0' 5 n h)
    ∙ omega arith

print_blank_narrow : (n : ℕ) → print_blank 0 (pos n) ≡ decimal n
unfolding print_blank padded
print_blank_narrow n =
    let no_pad : 0 - length (decimal n) ≡ 0 = omega arith in
    ap (λ k. replicate k b' ' ++ decimal n) no_pad

to_string_lem :
    (n : ℕ)
    → n < 10 ^ 26
    → to_string (record { micro_seconds_since_epoch = pos n })
      ≡ decimal (n / 1000000) ++ b'.' ∷ padded b'0' 6 (n % 1000000)
unfolding to_string quot rem print_zero
to_string_lem n h =
    let seconds = n / 1000000 in
    let micros = n % 1000000 in
    let short : length (print_blank 0 (pos seconds) ++ b'.' ∷ padded b'0' 6 micros) ≤ 31 = omega (
      arith,
      length-append (print_blank 0 (pos seconds)) (b'.' ∷ padded b'0' 6 micros),
      length-print_blank 0 19 seconds (omega arith) (omega arith),
      length-padded b'0' 5 micros (omega arith),
    ) in
    take-all 31 (print_blank 0 (pos seconds) ++ b'.' ∷ padded b'0' 6 micros) short
    ∙ ap (λ s. s ++ b'.' ∷ padded b'0' 6 micros) (print_blank_narrow seconds)

-- The text that `toString` prints of a time from the epoch on, of fewer than 10^26 microseconds, is, read as a decimal fraction of
-- seconds, the time: the zeros behind the point count.
pub read_back-to_string :
    (n : ℕ) → n < 10 ^ 26 → read_back (to_string (record { micro_seconds_since_epoch = pos n })) ≡ n
read_back-to_string n h =
    let micros = padded b'0' 6 (n % 1000000) in
    ap read_back (to_string_lem n h)
    ∙ ap₂ (λ s u. s * 10 ^ 6 + u) (digits_value-decimal (n / 1000000) (b'.' ∷ micros) refl)
        (ap millionths (behind_dot-decimal (n / 1000000) micros)
          ∙ millionths-padded (n % 1000000) (omega arith))
    ∙ omega arith
