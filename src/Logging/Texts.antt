-- ===== src/Logging/Texts.antt =====
-- The texts that a line is made of: no zero byte in them, and how long they are.
use multi_thread_log.Common.{
  ℕ, zero, suc, ◌+◌, ◌-◌, ◌/◌, ◌%◌, ◌^◌, ◌≤◌, ◌<◌, ◌≡◌, ◌≢◌, List, [], ◌∷◌, ◌++◌, arith, ◌==◌, inl,
  inr, length, length-append, length-replicate, replicate, Bool-cases, ==_iff,
}
use native.Mathlib.Nat.{pow-suc}
use multi_thread_log.Common.Decimal.{digits_before, decimal, padded, print_blank, print_zero}
use multi_thread_log.Common.Int.{ℤ, pos, negsuc, ◌+ℤ◌}
use multi_thread_log.LogStream.FixedBuffer.Append.{NoNul}
use multi_thread_log.TimeZone.{Tm}
use multi_thread_log.Timestamp.{print_tm}

pub NoNul-append : (s t : List ℕ) → NoNul s → NoNul t → NoNul (s ++ t)
NoNul-append [] t h k = k
NoNul-append (c ∷ s) t h k = (h.0, NoNul-append s t h.1 k)

NoNul-replicate : (n c : ℕ) → c ≢ 0 → NoNul (replicate n c)
NoNul-replicate zero c h = tt
NoNul-replicate (suc n) c h = (h, NoNul-replicate n c h)

NoNul-digits_before : (fuel n : ℕ) (out : List ℕ) → NoNul out → NoNul (digits_before fuel n out)
unfolding digits_before
NoNul-digits_before zero n out h = h
NoNul-digits_before (suc fuel) n out h = elim (Bool-cases (n / 10 == 0)) [
  | inl e ↦ rw e (omega arith, h)
  | inr e ↦ rw e (NoNul-digits_before fuel (n / 10) _ (omega arith, h))
]

NoNul-padded : (pad w n : ℕ) → pad ≢ 0 → NoNul (padded pad w n)
unfolding padded decimal
NoNul-padded pad w n h =
    NoNul-append _ _ (NoNul-replicate _ pad h) (NoNul-digits_before (suc n) n [] tt)

pub NoNul-print_blank : (w : ℕ) (v : ℤ) → NoNul (print_blank w v)
unfolding print_blank decimal
NoNul-print_blank w (pos n) = NoNul-padded b' ' w n (omega arith)
NoNul-print_blank w (negsuc n) =
    NoNul-append (replicate (w - length (b'-' ∷ decimal (n + 1))) b' ') (b'-' ∷ decimal (n + 1))
      (NoNul-replicate _ b' ' (omega arith))
      (omega arith, NoNul-digits_before (suc (n + 1)) (n + 1) [] tt)

pub NoNul-print_zero : (w : ℕ) (v : ℤ) → NoNul (print_zero w v)
unfolding print_zero
NoNul-print_zero w (pos n) = NoNul-padded b'0' w n (omega arith)
NoNul-print_zero w (negsuc n) = (omega arith, NoNul-padded b'0' (w - 1) (n + 1) (omega arith))

pub NoNul-print_tm : (tm : Tm) → NoNul (print_tm tm)
unfolding print_tm
NoNul-print_tm tm =
    NoNul-append (print_blank 4 (tm.tm_year +ℤ pos 1900)) _ (NoNul-print_blank 4 _) (
      NoNul-append (print_zero 2 (tm.tm_mon +ℤ pos 1)) _ (NoNul-print_zero 2 _) (
        NoNul-append (print_zero 2 tm.tm_mday) (b' ' ∷ _) (NoNul-print_zero 2 _) (
          omega arith,
          NoNul-append (print_zero 2 tm.tm_hour) (b':' ∷ _) (NoNul-print_zero 2 _) (
            omega arith,
            NoNul-append (print_zero 2 tm.tm_min) (b':' ∷ _) (NoNul-print_zero 2 _)
                (omega arith, NoNul-print_zero 2 tm.tm_sec),
          ),
        )))

length-digits_before :
    (fuel n k : ℕ) (out : List ℕ)
    → n < 10 ^ suc k
    → length (digits_before fuel n out) ≤ suc k + length out
unfolding digits_before
length-digits_before zero n k out h = omega arith
length-digits_before (suc fuel) n zero out h =
    rw ((==_iff (n / 10) 0).1 (omega arith)) (omega arith)
length-digits_before (suc fuel) n (suc k) out h = elim (Bool-cases (n / 10 == 0)) [
  | inl e ↦ rw e (omega arith)
  | inr e ↦ rw e (
      omega (
        arith,
        length-digits_before fuel (n / 10) k ((b'0' + n % 10) ∷ out)
            (omega (arith, pow-suc 10 (suc k))),
      ))
]

pub length-padded : (pad w n : ℕ) → n < 10 ^ suc w → length (padded pad (suc w) n) ≡ suc w
unfolding padded decimal
length-padded pad w n h = omega (
  arith,
  length-append (replicate (suc w - length (decimal n)) pad) (decimal n),
  length-replicate (suc w - length (decimal n)) pad,
  length-digits_before (suc n) n w [] h,
)

pub length-print_blank :
    (w k n : ℕ) → w ≤ suc k → n < 10 ^ suc k → length (print_blank w (pos n)) ≤ suc k
unfolding print_blank padded decimal
length-print_blank w k n wide h = omega (
  arith,
  length-append (replicate (w - length (decimal n)) b' ') (decimal n),
  length-replicate {A = ℕ} (w - length (decimal n)) b' ',
  length-digits_before (suc n) n k [] h,
)

-- The fields have as many digits as the format asks for.
pub record IsShort (tm : Tm) : Type 0 where
  pub year : ℕ
  pub month : ℕ
  pub day : ℕ
  pub hour : ℕ
  pub minute : ℕ
  pub second : ℕ
  pub year_is : tm.tm_year +ℤ pos 1900 ≡ pos year
  pub month_is : tm.tm_mon +ℤ pos 1 ≡ pos month
  pub day_is : tm.tm_mday ≡ pos day
  pub hour_is : tm.tm_hour ≡ pos hour
  pub minute_is : tm.tm_min ≡ pos minute
  pub second_is : tm.tm_sec ≡ pos second
  pub year_short : year < 10000
  pub month_short : month < 100
  pub day_short : day < 100
  pub hour_short : hour < 100
  pub minute_short : minute < 100
  pub second_short : second < 100

length_blank :
    (w n : ℕ) (v : ℤ) → v ≡ pos n → n < 10 ^ suc w → length (print_blank (suc w) v) ≡ suc w
unfolding print_blank
length_blank w n v e h = rw e (length-padded b' ' w n h)

pub length_zero :
    (w n : ℕ) (v : ℤ) → v ≡ pos n → n < 10 ^ suc w → length (print_zero (suc w) v) ≡ suc w
unfolding print_zero
length_zero w n v e h = rw e (length-padded b'0' w n h)

-- Then the date and the time of day are 17 characters.
pub length-print_tm : (tm : Tm) → IsShort tm → length (print_tm tm) ≡ 17
unfolding print_tm
length-print_tm tm h =
    let y = length_blank 3 h.year _ h.year_is (omega (arith, h.year_short)) in
    let m = length_zero 1 h.month _ h.month_is (omega (arith, h.month_short)) in
    let d = length_zero 1 h.day _ h.day_is (omega (arith, h.day_short)) in
    let o = length_zero 1 h.hour _ h.hour_is (omega (arith, h.hour_short)) in
    let i = length_zero 1 h.minute _ h.minute_is (omega (arith, h.minute_short)) in
    let s = length_zero 1 h.second _ h.second_is (omega (arith, h.second_short)) in
    simp (length-append, y, m, d, o, i, s)
