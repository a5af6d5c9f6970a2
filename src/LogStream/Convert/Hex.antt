-- ===== src/LogStream/Convert/Hex.antt =====
-- What `convertHex` writes: the hexadecimal notation of its value, in upper case.
use native.Mathlib.Nat.{pow-suc, mod-eq_of_lt}
use multi_thread_log.Common.{
  ℕ, zero, suc, ◌+◌, ◌-◌, ◌/◌, ◌%◌, ◌^◌, ◌≤◌, ◌<◌, ◌≡◌, inl, inr, refl, subst, Bool, true, Option,
  some, List, [], ◌∷◌, ◌++◌, ◌==◌, if◌then◌else◌, arith, length, append_assoc, ltb, get_or,
  Bool-cases, ==_iff,
}
use multi_thread_log.LogStream.Convert.{digits_hex, convert_hex_loop, convert_hex, max_hex_digits}
use multi_thread_log.LogStream.Convert.Numeral.{Notation, IsNumeral, IsNumeral-one, IsNumeral-snoc}
use multi_thread_log.LogStream.Convert.Decimal.{length-reverse, passes_to, passes_to-below}
use mathlib.Core.List.{reverse, reverse-cons}

-- `0` to `9`, then `A` to `F`.
abbrev pub hex_char : ℕ → ℕ
hex_char k = if ltb k 10 then b'0' + k else b'A' + (k - 10)

abbrev pub hex_digit : ℕ → ℕ
hex_digit c = if ltb c b'A' then c - b'0' else c - b'A' + 10

pub hex_digit-char : (k : ℕ) → k < 16 → hex_digit (hex_char k) ≡ k
hex_digit-char k h = ground arith

abbrev pub hex_notation : Notation
hex_notation = record {
  radix = 16;
  char = hex_char;
  digit = hex_digit;
  radix_pos = omega arith;
  digit-char = hex_digit-char;
}

hex_check : ℕ → Bool
hex_check n = get_or digits_hex n 0 == hex_char n

hex_table : passes_to hex_check 16 ≡ true
unfolding passes_to hex_check
hex_table = refl

digits_hex-char : (n : ℕ) → n < 16 → get_or digits_hex n 0 ≡ hex_char n
unfolding hex_check
digits_hex-char n h =
    (==_iff (get_or digits_hex n 0) (hex_char n)).0 (passes_to-below hex_check n 16 h hex_table)

-- What the loop adds to `out`: the digits of the value, the last one first.
record Emitted (n : ℕ) (out : List ℕ) (fuel : ℕ) (r : Option (List ℕ)) : Type 0 where
  digits_of : List ℕ
  returns : r ≡ some (out ++ digits_of)
  numeral : IsNumeral hex_notation n (reverse digits_of)
  few : length digits_of ≤ fuel

loop-done :
    (fuel i : ℕ) (out : List ℕ)
    → i < 16
    → Emitted i out (suc fuel) (convert_hex_loop (suc fuel) i out)
unfolding convert_hex_loop
loop-done fuel i out small =
    let e : i / 16 ≡ 0 = omega arith in
    let t : get_or digits_hex (i % 16) 0 ≡ hex_char i =
      rw (mod-eq_of_lt small) (digits_hex-char i small) in
    record {
      digits_of = get_or digits_hex (i % 16) 0 ∷ [];
      returns = rw e;
      numeral = rw t (IsNumeral-one hex_notation i small);
      few = omega arith;
    }

last_digit :
    (m : ℕ) (s : List ℕ)
    → 0 < m / 16
    → IsNumeral hex_notation (m / 16) (reverse s)
    → IsNumeral hex_notation m (reverse (get_or digits_hex (m % 16) 0 ∷ s))
last_digit m s h v =
    rw (reverse-cons (get_or digits_hex (m % 16) 0) s, digits_hex-char (m % 16) (omega arith))
      (subst (λ n. IsNumeral hex_notation n (reverse s ++ hex_char (m % 16) ∷ [])) (omega arith)
        (IsNumeral-snoc hex_notation (m / 16) (m % 16) (reverse s) h (omega arith) v))

loop-Emitted :
    (fuel i : ℕ) (out : List ℕ)
    → i < 16 ^ suc fuel
    → Emitted i out (suc fuel) (convert_hex_loop (suc fuel) i out)
unfolding convert_hex_loop
loop-Emitted zero i out h = loop-done zero i out (omega arith)
loop-Emitted (suc fuel) i out h = elim (Bool-cases (i / 16 == 0)) [
  | inl e ↦ loop-done (suc fuel) i out (ground arith)
  | inr e ↦
      let w =
        loop-Emitted fuel (i / 16) (out ++ get_or digits_hex (i % 16) 0 ∷ [])
          (omega (arith, pow-suc 16 (suc fuel))) in
      record {
        digits_of = get_or digits_hex (i % 16) 0 ∷ w.digits_of;
        returns =
            rw (e, w.returns, append_assoc out (get_or digits_hex (i % 16) 0 ∷ []) w.digits_of);
        numeral = last_digit i w.digits_of (ground arith) w.numeral;
        few = omega (arith, w.few);
      }
]

pub record ConvertedHex (v : ℕ) (r : Option (List ℕ)) : Type 0 where
  pub text : List ℕ
  pub returns : r ≡ some text
  pub numeral : IsNumeral hex_notation v text
  pub short : length text ≤ max_hex_digits

-- `convertHex` ends and writes the hexadecimal notation of any pointer of 64 bits, in at most 16
-- digits.
pub convert_hex-ConvertedHex : (v : ℕ) → v < 16 ^ max_hex_digits → ConvertedHex v (convert_hex v)
unfolding convert_hex
convert_hex-ConvertedHex v h = record {
  text = reverse w.digits_of;
  returns = rw w.returns;
  numeral = w.numeral;
  short = omega (arith, w.few, length-reverse w.digits_of);
}
  where
    w : Emitted v [] 16 (convert_hex_loop 16 v [])
    w = loop-Emitted 15 v [] h
