-- ===== src/Common/Double.antt =====
-- What the code does with a `double`, as a record of operations, and what is documented of it and used: on whole numbers
-- the operations are exact as far as 2^53.
use multi_thread_log.Common.{ℕ, zero, suc, ◌-◌, ◌*◌, ◌^◌, ◌≤◌, ◌<◌, ◌≡◌, refl, ap, arith}
use native.Mathlib.Nat.{mul-div_cancel}
use multi_thread_log.Common.Int.{ℤ, pos, negsuc, ◌+ℤ◌, ◌*ℤ◌, pos_part, magnitude, quot, *ℤ_pos}

pub record Double {ℓ} (D : Type ℓ) : Type ℓ where
  pub of_int : ℤ → D  -- the conversion from a whole number
  pub plus : D → D → D
  pub times : D → D → D
  pub over : D → D → D
  pub trunc : D → ℤ  -- the conversion to a whole number, towards zero

pub record IsExact {ℓ} (D : Type ℓ) ⦃d : Double D⦄ : Type ℓ where
  pub times_whole :
      (a : ℤ) (b : ℕ)
      → 0 < b
      → magnitude (a *ℤ pos b) ≤ 2 ^ 53
      → d.times (d.of_int a) (d.of_int (pos b)) ≡ d.of_int (a *ℤ pos b)
  pub over_whole :
      (a : ℤ) (b : ℕ)
      → 0 < b
      → magnitude (a *ℤ pos b) ≤ 2 ^ 53
      → d.over (d.of_int (a *ℤ pos b)) (d.of_int (pos b)) ≡ d.of_int a
  pub trunc_whole : (a : ℤ) → magnitude a ≤ 2 ^ 53 → d.trunc (d.of_int a) ≡ a

-- The laws can be met: whole numbers.
instance abbrev pub whole_double : Double ℤ
whole_double = record {
  of_int = λ a. a;
  plus = λ a b. a +ℤ b;
  times = λ a b. a *ℤ b;
  over = λ a b. quot a (pos_part b);
  trunc = λ a. a;
}

negsuc-times : (n k : ℕ) → negsuc n *ℤ pos (suc k) ≡ negsuc (suc n * suc k - 1)
unfolding ◌*ℤ◌
negsuc-times n k = ground arith

quot-times : (a : ℤ) (b : ℕ) → 0 < b → quot (a *ℤ pos b) b ≡ a
unfolding quot
quot-times (pos n) b h = rw (*ℤ_pos n b) (ap pos (mul-div_cancel n h))
quot-times (negsuc n) zero h = absurd (omega arith)
quot-times (negsuc n) (suc k) h =
    let wide : suc (suc n * suc k - 1) ≡ suc n * suc k = ground arith in
    rw (negsuc-times n k, wide, mul-div_cancel (suc n) h) (ground arith)

pub whole-IsExact : IsExact ℤ
whole-IsExact = record {
  times_whole = λ a b h k. refl;
  over_whole = λ a b h k. quot-times a b h;
  trunc_whole = λ a h. refl;
}
