-- ===== src/Mutex/Deadline/Reached.antt =====
-- The wait ends as late as it was asked to.
use multi_thread_log.Common.{ℕ, ◌+◌, ◌*◌, ◌/◌, ◌%◌, ◌<◌, ◌≡◌, suc, arith}
use multi_thread_log.Common.Double.{Double}
use multi_thread_log.Common.Int.{
  ℤ, pos, negsuc, ◌+ℤ◌, ◌*ℤ◌, ◌≤ℤ◌, quot, rem, sub_ℕ, int_laws, *ℤ_parts, pos_part, neg_part,
}
use multi_thread_log.Mutex.Deadline.{Timespec, k_nano_seconds_per_second, nanoseconds, deadline}

abbrev pub total : Timespec → ℤ
total t = t.tv_sec *ℤ pos k_nano_seconds_per_second +ℤ t.tv_nsec

sub_parts : (a b : ℕ) → pos_part (sub_ℕ a b) + b ≡ neg_part (sub_ℕ a b) + a
sub_parts a b = ground arith

-- The quotient and the remainder make the number again, whatever its sign.
quot-rem :
    (a : ℤ)
    → (pos_part (quot a 1000000000) * 1000000000 + pos_part (rem a 1000000000) + neg_part a
        ≡ neg_part (quot a 1000000000) * 1000000000 + neg_part (rem a 1000000000) + pos_part a)
unfolding quot rem
quot-rem (pos n) = omega arith
quot-rem (negsuc n) =
    omega (arith, sub_parts 0 (suc n / 1000000000), sub_parts 0 (suc n % 1000000000))

rem-normal :
    (a : ℤ) → pos 0 ≤ℤ a → (pos 0 ≤ℤ rem a 1000000000) × (pos_part (rem a 1000000000) < 1000000000)
unfolding rem
rem-normal (pos n) h = (omega arith, omega arith)
rem-normal (negsuc n) h = absurd (omega arith)

-- `abstime` is as many nanoseconds after the present time as `seconds` come to, and is normal, its nanoseconds from 0 to
-- less than one second, if those of the present time and those that `seconds` come to are not negative.
pub deadline-total {ℓ} :
    {D : Type ℓ} ⦃d : Double D⦄ (now : Timespec) (seconds : D)
    → pos 0 ≤ℤ now.tv_nsec
    → pos 0 ≤ℤ nanoseconds seconds
    → (total (deadline now seconds) ≡ total now +ℤ nanoseconds seconds)
      × (pos 0 ≤ℤ (deadline now seconds).tv_nsec)
      × (pos_part (deadline now seconds).tv_nsec < k_nano_seconds_per_second)
unfolding deadline
deadline-total now seconds h k =
    let late = now.tv_nsec +ℤ nanoseconds seconds in
    let normal = rem-normal late (omega (int_laws, h, k)) in
    (omega (int_laws, *ℤ_parts, quot-rem late), normal.0, normal.1)
