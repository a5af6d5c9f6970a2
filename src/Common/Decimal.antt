-- ===== src/Common/Decimal.antt =====
-- The parts of the C library's formatted output that the code uses: `%d`, `%0Nd` and `%Nd` of a
-- number, and the truncation of `snprintf`.
use multi_thread_log.Common.{
  ℕ, zero, suc, ◌+◌, ◌-◌, ◌/◌, ◌%◌, ◌≡◌, refl, List, [], ◌∷◌, ◌++◌, ◌==◌, if◌then◌else◌, length,
  take, replicate, codes,
}
use multi_thread_log.Common.Int.{ℤ, pos, negsuc}

-- The digits of `n` before `out`. The fuel bounds the number of digits.
unfoldable pub digits_before : ℕ → ℕ → List ℕ → List ℕ
digits_before zero n out = out
digits_before (suc fuel) n out =
    let rest = digits_before fuel (n / 10) ((b'0' + n % 10) ∷ out) in
    if n / 10 == 0 then (b'0' + n % 10) ∷ out else rest

-- `%d` of a number that is not negative.
unfoldable pub decimal : ℕ → List ℕ
unfolding digits_before
decimal n = digits_before (suc n) n []

-- `%0wd`, and `%wd` with the pad `b' '`.
unfoldable pub padded : ℕ → ℕ → ℕ → List ℕ
unfolding decimal
padded pad w n = replicate (w - length (decimal n)) pad ++ decimal n

-- `%wd` and `%0wd` of an `int`: a sign stands behind blanks and before zeros.
unfoldable pub print_blank : ℕ → ℤ → List ℕ
unfolding padded
print_blank w (pos n) = padded b' ' w n
print_blank w (negsuc n) =
    replicate (w - length (b'-' ∷ decimal (n + 1))) b' ' ++ b'-' ∷ decimal (n + 1)

unfoldable pub print_zero : ℕ → ℤ → List ℕ
unfolding padded
print_zero w (pos n) = padded b'0' w n
print_zero w (negsuc n) = b'-' ∷ padded b'0' (w - 1) (n + 1)

-- What `snprintf(buf, size, ...)` leaves in `buf` before its terminator.
abbrev pub snprintf : ℕ → List ℕ → List ℕ
snprintf size s = take (size - 1) s

decimal_runs : (decimal 0 ≡ codes "0") × (decimal 2147483647 ≡ codes "2147483647")
unfolding decimal
decimal_runs = (refl, refl)

padded_runs : (padded b'0' 6 42 ≡ codes "000042") × (padded b' ' 5 12345678 ≡ codes "12345678")
unfolding padded
padded_runs = (refl, refl)
