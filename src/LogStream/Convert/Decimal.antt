-- ===== src/LogStream/Convert/Decimal.antt =====
-- What `convert` writes: the decimal notation of its value.
use native.Mathlib.Nat.{pow-suc, mod-eq_of_lt}
use multi_thread_log.Common.{
  ℕ, zero, suc, ◌+◌, ◌-◌, ◌/◌, ◌%◌, ◌^◌, ◌≤◌, ◌<◌, ◌≡◌, inl, inr, refl, ap, subst, ◌∙◌, Bool, true,
  false, ◌&&◌, Option, some, List, [], ◌∷◌, ◌++◌, ◌==◌, if◌then◌else◌, arith, length, length-append,
  append_assoc, Bool-cases,
}
use multi_thread_log.Common.Int.{ℤ, pos, negsuc, magnitude, sub_ℕ, ltb_ℤ, eqb_ℤ, quot, rem}
use multi_thread_log.LogStream.Convert.{digit_at, convert_loop, convert, max_digits}
use multi_thread_log.LogStream.Convert.Numeral.{Notation, IsNumeral, IsNumeral-one, IsNumeral-snoc}
use mathlib.Core.List.{reverse, reverse-cons, reverse-append}

quot-magnitude : (i : ℤ) → magnitude (quot i 10) ≡ magnitude i / 10
unfolding quot
quot-magnitude (pos n) = omega arith
quot-magnitude (negsuc n) = ground arith

-- A test that every entry of a table passes, up to a bound.
unfoldable pub passes_to : (ℕ → Bool) → ℕ → Bool
passes_to test zero = true
passes_to test (suc bound) = passes_to test bound && test bound

pub passes_to-below :
    (test : ℕ → Bool) (index bound : ℕ)
    → index < bound
    → passes_to test bound ≡ true
    → test index ≡ true
unfolding passes_to
passes_to-below test index zero below passed = absurd (omega arith)
passes_to-below test index (suc bound) below passed =
    ground (arith, passes_to-below test index bound)

digit_check : ℕ → Bool
digit_check n = (digit_at (pos n) == b'0' + n) && (digit_at (sub_ℕ 0 n) == b'0' + n)

digit_table : passes_to digit_check 10 ≡ true
unfolding passes_to digit_check digit_at
digit_table = refl

-- The table holds the digit of each remainder, whatever its sign.
digit_at-abs : (n : ℕ) → n < 10 → (digit_at (pos n) ≡ b'0' + n) × (digit_at (sub_ℕ 0 n) ≡ b'0' + n)
unfolding digit_check
digit_at-abs n h = ground (arith, passes_to-below digit_check n 10 h digit_table)

digit_at-rem : (i : ℤ) → digit_at (rem i 10) ≡ b'0' + magnitude i % 10
unfolding rem
digit_at-rem (pos n) = (digit_at-abs (n % 10) (omega arith)).0 ∙ omega arith
digit_at-rem (negsuc n) = (digit_at-abs (suc n % 10) (omega arith)).1 ∙ omega arith

abbrev pub decimal_notation : Notation
decimal_notation = record {
  radix = 10;
  char = λ k. b'0' + k;
  digit = λ c. c - b'0';
  radix_pos = omega arith;
  digit-char = λ k h. omega arith;
}

-- What the loop adds to `out`: the digits of the magnitude, the last one first.
record Emitted (n : ℕ) (out : List ℕ) (fuel : ℕ) (r : Option (List ℕ)) : Type 0 where
  digits_of : List ℕ
  returns : r ≡ some (out ++ digits_of)
  numeral : IsNumeral decimal_notation n (reverse digits_of)
  few : length digits_of ≤ fuel

quot-zero : (i : ℤ) → magnitude i < 10 → quot i 10 ≡ pos 0
unfolding quot
quot-zero i h = ground arith

zero_of_test : (i : ℤ) → eqb_ℤ i (pos 0) ≡ true → i ≡ pos 0
zero_of_test i h = ground arith

pos_of_test : (i : ℤ) → eqb_ℤ i (pos 0) ≡ false → 0 < magnitude i
pos_of_test i h = ground arith

last_digit :
    (m q d : ℕ) (s : List ℕ)
    → q ≡ m / 10
    → 0 < q
    → d ≡ b'0' + m % 10
    → IsNumeral decimal_notation q (reverse s)
    → IsNumeral decimal_notation m (reverse (d ∷ s))
last_digit m q d s e h f v =
    rw (reverse-cons d s, f)
      (subst (λ n. IsNumeral decimal_notation n (reverse s ++ (b'0' + m % 10) ∷ [])) (omega arith)
        (IsNumeral-snoc decimal_notation q (m % 10) (reverse s) h (omega arith) v))

convert_loop-done :
    (fuel : ℕ) (i : ℤ) (out : List ℕ)
    → quot i 10 ≡ pos 0
    → magnitude i < 10
    → Emitted (magnitude i) out (suc fuel) (convert_loop (suc fuel) i out)
unfolding convert_loop
convert_loop-done fuel i out e small = record {
  digits_of = digit_at (rem i 10) ∷ [];
  returns = rw e;
  numeral =
      rw (digit_at-rem i, mod-eq_of_lt small) (IsNumeral-one decimal_notation (magnitude i) small);
  few = omega arith;
}

convert_loop-Emitted :
    (fuel : ℕ) (i : ℤ) (out : List ℕ)
    → magnitude i < 10 ^ suc fuel
    → Emitted (magnitude i) out (suc fuel) (convert_loop (suc fuel) i out)
unfolding convert_loop
convert_loop-Emitted zero i out h = convert_loop-done zero i out (quot-zero i h) (omega arith)
convert_loop-Emitted (suc fuel) i out h = elim (Bool-cases (eqb_ℤ (quot i 10) (pos 0))) [
  | inl e ↦
      convert_loop-done (suc fuel) i out (zero_of_test (quot i 10) e)
        (omega (arith, quot-magnitude i, ap magnitude (zero_of_test (quot i 10) e)))
  | inr e ↦
      let out' = out ++ digit_at (rem i 10) ∷ [] in
      let w =
        convert_loop-Emitted fuel (quot i 10) out'
          (omega (arith, quot-magnitude i, pow-suc 10 (suc fuel))) in
      record {
        digits_of = digit_at (rem i 10) ∷ w.digits_of;
        returns = rw (e, w.returns, append_assoc out (digit_at (rem i 10) ∷ []) w.digits_of);
        numeral =
            last_digit (magnitude i) (magnitude (quot i 10)) (digit_at (rem i 10)) w.digits_of
              (quot-magnitude i) (pos_of_test (quot i 10) e) (digit_at-rem i) w.numeral;
        few = omega (arith, w.few);
      }
]

-- The notation of an integer: that of its magnitude, behind a `-` if it is negative.
pub record IsDecimal (v : ℤ) (s : List ℕ) : Type 0 where
  pub digits_of : List ℕ
  pub numeral : IsNumeral decimal_notation (magnitude v) digits_of
  pub signed : s ≡ (if ltb_ℤ v (pos 0) then b'-' ∷ digits_of else digits_of)

pub record Converted (v : ℤ) (r : Option (List ℕ)) : Type 0 where
  pub text : List ℕ
  pub returns : r ≡ some text
  pub decimal : IsDecimal v text
  pub short : length text ≤ max_digits + 1

pub length-reverse : (s : List ℕ) → length (reverse s) ≡ length s
length-reverse [] = refl
length-reverse (c ∷ s) =
    rw (reverse-cons c s) (omega (arith, length-append (reverse s) (c ∷ []), length-reverse s))

-- `convert` ends and writes the decimal notation of any value of at most 20 digits, those of
-- every integer type of 64 bits or fewer among them, in at most 21 characters.
pub convert-Converted : (v : ℤ) → magnitude v < 10 ^ max_digits → Converted v (convert v)
unfolding convert
convert-Converted v h = elim (Bool-cases (ltb_ℤ v (pos 0))) [
  | inl e ↦ record {
    text = b'-' ∷ reverse w.digits_of;
    returns = rw (w.returns, e) (ap some (reverse-append w.digits_of (b'-' ∷ [])));
    decimal = record { digits_of = reverse w.digits_of; numeral = w.numeral; signed = rw e };
    short = omega (arith, w.few, length-reverse w.digits_of);
  }
  | inr e ↦ record {
    text = reverse w.digits_of;
    returns = rw (w.returns, e);
    decimal = record { digits_of = reverse w.digits_of; numeral = w.numeral; signed = rw e };
    short = omega (arith, w.few, length-reverse w.digits_of);
  }
]
  where
    w : Emitted (magnitude v) [] 20 (convert_loop 20 v [])
    w = convert_loop-Emitted 19 v [] h
