-- ===== src/Timestamp.antt =====
-- Timestamp.h and Timestamp.cc: a time in microseconds since the epoch. `gmtime_r` and `gettimeofday` are
-- parameters, as are the operations on `double`.
pub mod Printed
pub mod Seconds
mod Examples
use multi_thread_log.Common.{ℕ, ◌*◌, ◌≡◌, Bool, true, false, List, [], ◌∷◌, ◌++◌, if◌then◌else◌}
use multi_thread_log.Common.Decimal.{print_blank, print_zero, snprintf}
use multi_thread_log.Common.Double.{Double}
use multi_thread_log.Common.Int.{ℤ, pos, ◌+ℤ◌, ◌-ℤ◌, ◌*ℤ◌, quot, rem, ltb_ℤ, eqb_ℤ}
use multi_thread_log.TimeZone.{Tm}

abbrev pub k_micro_seconds_per_second : ℕ
k_micro_seconds_per_second = 1000 * 1000

pub record Timestamp : Type 0 where
  pub micro_seconds_since_epoch : ℤ

abbrev pub invalid : Timestamp
invalid = record { micro_seconds_since_epoch = pos 0 }

unfoldable pub valid : Timestamp → Bool
valid t = ltb_ℤ (pos 0) t.micro_seconds_since_epoch

unfoldable pub seconds_since_epoch : Timestamp → ℤ
seconds_since_epoch t = quot t.micro_seconds_since_epoch k_micro_seconds_per_second

-- `fromUnixTime`
unfoldable pub from_unix_time : ℤ → ℤ → Timestamp
from_unix_time t microseconds = record {
  micro_seconds_since_epoch = t *ℤ pos k_micro_seconds_per_second +ℤ microseconds;
}

-- `now`, at what `gettimeofday` answers.
unfoldable pub now : ℤ → ℤ → Timestamp
now tv_sec tv_usec = record {
  micro_seconds_since_epoch = tv_sec *ℤ pos k_micro_seconds_per_second +ℤ tv_usec;
}

-- `toString`
unfoldable pub to_string : Timestamp → List ℕ
to_string t =
    let seconds = quot t.micro_seconds_since_epoch k_micro_seconds_per_second in
    let microseconds = rem t.micro_seconds_since_epoch k_micro_seconds_per_second in
    snprintf 32 (print_blank 0 seconds ++ b'.' ∷ print_zero 6 microseconds)

-- `%4d%02d%02d %02d:%02d:%02d`
unfoldable pub print_tm : Tm → List ℕ
print_tm tm =
    print_blank 4 (tm.tm_year +ℤ pos 1900)
    ++ (print_zero 2 (tm.tm_mon +ℤ pos 1)
        ++ (print_zero 2 tm.tm_mday
            ++ (b' '
                ∷ (print_zero 2 tm.tm_hour
                    ++ (b':' ∷ (print_zero 2 tm.tm_min ++ (b':' ∷ print_zero 2 tm.tm_sec)))))))

-- `toFormattedString`
unfoldable pub to_formatted_string : (ℤ → Tm) → Timestamp → Bool → List ℕ
unfolding print_tm
to_formatted_string gmtime t show_microseconds =
    let tm_time = gmtime (quot t.micro_seconds_since_epoch k_micro_seconds_per_second) in
    let microseconds = rem t.micro_seconds_since_epoch k_micro_seconds_per_second in
    snprintf 64 (
      if show_microseconds
      then print_tm tm_time ++ b'.' ∷ print_zero 6 microseconds
      else print_tm tm_time)

-- `operator<` and `operator==`
unfoldable pub before : Timestamp → Timestamp → Bool
before lhs rhs = ltb_ℤ lhs.micro_seconds_since_epoch rhs.micro_seconds_since_epoch

unfoldable pub same_time : Timestamp → Timestamp → Bool
same_time lhs rhs = eqb_ℤ lhs.micro_seconds_since_epoch rhs.micro_seconds_since_epoch

-- `swap`: the two times, exchanged.
unfoldable pub swap : Timestamp × Timestamp → Timestamp × Timestamp
swap (this, that) = (
  record this { micro_seconds_since_epoch = that.micro_seconds_since_epoch },
  record that { micro_seconds_since_epoch = this.micro_seconds_since_epoch },
)

-- `timeDifference`, in seconds, and `addTime`.
unfoldable pub time_difference {ℓ} : {D : Type ℓ} ⦃d : Double D⦄ → Timestamp → Timestamp → D
time_difference ⦃d⦄ high low =
    let diff = high.micro_seconds_since_epoch -ℤ low.micro_seconds_since_epoch in
    d.over (d.of_int diff) (d.of_int (pos k_micro_seconds_per_second))

unfoldable pub add_time {ℓ} : {D : Type ℓ} ⦃d : Double D⦄ → Timestamp → D → Timestamp
add_time ⦃d⦄ timestamp seconds =
    let delta = d.trunc (d.times seconds (d.of_int (pos k_micro_seconds_per_second))) in
    record { micro_seconds_since_epoch = timestamp.micro_seconds_since_epoch +ℤ delta }
