-- ===== src/Common/Atoi/Numbers.antt =====
-- Numbers in decimal are read back.
use multi_thread_log.Common.{
  ℕ, zero, suc, ◌+◌, ◌/◌, ◌%◌, ◌≤◌, ◌<◌, ◌≡◌, ◌⊎◌, inl, inr, refl, ap, ◌∙◌, true, false, List, [],
  ◌∷◌, ◌++◌, ◌==◌, arith, Bool-cases, ==_iff, ne→==, le→leb, lt→leb,
}
use multi_thread_log.Common.Decimal.{digits_before, decimal}
use multi_thread_log.Common.Int.{pos}
use multi_thread_log.Common.Atoi.{
  is_digit, is_blank, starts_with_digit, digits_value, signed_value, atoi,
}

pub is_digit_lem : (d : ℕ) → d < 10 → is_digit (b'0' + d) ≡ true
is_digit_lem d h =
    rw (le→leb b'0' (b'0' + d) (omega arith), le→leb (b'0' + d) b'9' (omega arith)) refl

digits_value-digits_before :
    (fuel n : ℕ) (out : List ℕ)
    → n < fuel
    → digits_value 0 (digits_before fuel n out) ≡ digits_value n out
unfolding digits_before digits_value
digits_value-digits_before zero n out h = absurd (omega arith)
digits_value-digits_before (suc fuel) n out h = elim (Bool-cases (n / 10 == 0)) [
  | inl e ↦
      rw (e, is_digit_lem (n % 10) (omega arith))
        (ap (λ m. digits_value m out) (omega (arith, (==_iff (n / 10) 0).0 e)))
  | inr e ↦ rw e (
      digits_value-digits_before fuel (n / 10) ((b'0' + n % 10) ∷ out) (smaller e)
      ∙ rw (is_digit_lem (n % 10) (omega arith)) (ap (λ m. digits_value m out) (omega arith)))
]
  where
    smaller : (n / 10 == 0) ≡ false → n / 10 < fuel
    smaller e = ground arith

-- No digit comes next.
abbrev pub IsEnd : List ℕ → Type 0
IsEnd s = starts_with_digit s ≡ false

digits_value-IsEnd : (n : ℕ) (s : List ℕ) → IsEnd s → digits_value n s ≡ n
unfolding digits_value
digits_value-IsEnd n [] h = refl
digits_value-IsEnd n (c ∷ s) h = rw h refl

pub digits_before-append :
    (fuel n : ℕ) (out rest : List ℕ)
    → digits_before fuel n out ++ rest ≡ digits_before fuel n (out ++ rest)
unfolding digits_before
digits_before-append zero n out rest = refl
digits_before-append (suc fuel) n out rest = elim (Bool-cases (n / 10 == 0)) [
  | inl e ↦ rw e refl
  | inr e ↦ rw e (digits_before-append fuel (n / 10) ((b'0' + n % 10) ∷ out) rest)
]

pub digits_value-decimal :
    (n : ℕ) (rest : List ℕ) → IsEnd rest → digits_value 0 (decimal n ++ rest) ≡ n
unfolding decimal
digits_value-decimal n rest h =
    ap (digits_value 0) (digits_before-append (suc n) n [] rest)
    ∙ digits_value-digits_before (suc n) n rest (omega arith)
    ∙ digits_value-IsEnd n rest h

-- The notation begins with a digit.
pub starts_with_digit-digits_before :
    (fuel n : ℕ) (out : List ℕ)
    → starts_with_digit out ≡ true
    → starts_with_digit (digits_before fuel n out) ≡ true
unfolding digits_before
starts_with_digit-digits_before zero n out h = h
starts_with_digit-digits_before (suc fuel) n out h = elim (Bool-cases (n / 10 == 0)) [
  | inl e ↦ rw e (is_digit_lem (n % 10) (omega arith))
  | inr e ↦ rw e (
      starts_with_digit-digits_before fuel (n / 10) ((b'0' + n % 10) ∷ out)
        (is_digit_lem (n % 10) (omega arith)))
]

pub starts_with_digit-decimal :
    (n : ℕ) (rest : List ℕ) → starts_with_digit (decimal n ++ rest) ≡ true
unfolding decimal digits_before
starts_with_digit-decimal n rest =
    ap starts_with_digit (digits_before-append (suc n) n [] rest) ∙ first (Bool-cases (n / 10 == 0))
  where
    first :
        ((n / 10 == 0) ≡ true) ⊎ ((n / 10 == 0) ≡ false)
        → starts_with_digit (digits_before (suc n) n rest) ≡ true
    first (inl e) = rw e (is_digit_lem (n % 10) (omega arith))
    first (inr e) = rw e (
        starts_with_digit-digits_before n (n / 10) ((b'0' + n % 10) ∷ rest)
          (is_digit_lem (n % 10) (omega arith)))

-- Only blanks.
abbrev pub IsBlank : List ℕ → Type 0
IsBlank [] = Unit
IsBlank (c ∷ s) = (is_blank c ≡ true) × IsBlank s

digit-not_blank :
    (c : ℕ)
    → is_digit c ≡ true
    → (is_blank c ≡ false) × ((c == b'-') ≡ false) × ((c == b'+') ≡ false)
digit-not_blank c h =
    let big : 48 ≤ c = ground arith in
    (
      rw (ne→== c 32 (omega arith), le→leb 9 c (omega arith), lt→leb c 13 (omega arith)) refl,
      ne→== c b'-' (omega arith),
      ne→== c b'+' (omega arith),
    )

atoi-digit : (s : List ℕ) → starts_with_digit s ≡ true → atoi s ≡ pos (digits_value 0 s)
unfolding atoi signed_value
atoi-digit [] h = absurd (ground arith)
atoi-digit (c ∷ s) h = let w = digit-not_blank c h in rw (w.0, w.1, w.2) refl

-- The decimal notation of a number, with blanks before it and no digit behind it, is read as that number.
pub atoi-decimal :
    (blanks : List ℕ) (n : ℕ) (rest : List ℕ)
    → IsBlank blanks
    → IsEnd rest
    → atoi (blanks ++ (decimal n ++ rest)) ≡ pos n
unfolding atoi
atoi-decimal [] n rest b h =
    atoi-digit (decimal n ++ rest) (starts_with_digit-decimal n rest)
    ∙ ap pos (digits_value-decimal n rest h)
atoi-decimal (c ∷ blanks) n rest (b, bs) h = rw b (atoi-decimal blanks n rest bs h)
