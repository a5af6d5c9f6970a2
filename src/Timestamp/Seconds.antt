-- ===== src/Timestamp/Seconds.antt =====
-- Differences of times, in seconds.
use multi_thread_log.Common.{◌^◌, ◌≤◌, ◌≡◌, sym, ap, ◌∙◌, arith}
use multi_thread_log.Common.Double.{Double, IsExact}
use multi_thread_log.Common.Int.{ℤ, pos, ◌+ℤ◌, ◌-ℤ◌, ◌*ℤ◌, magnitude, +ℤ_comm, +ℤ_cancel}
use multi_thread_log.Timestamp.{Timestamp, k_micro_seconds_per_second, time_difference, add_time}

-- Of two times that are `k` seconds apart, fewer than 2^53 microseconds, the difference is `k`, also if the second one is the
-- later, and it takes the second to the first.
pub add_time-time_difference {ℓ} :
    {D : Type ℓ} ⦃d : Double D⦄ (exact : IsExact D) (high low : Timestamp) (k : ℤ)
    → high.micro_seconds_since_epoch
      ≡ low.micro_seconds_since_epoch +ℤ k *ℤ pos k_micro_seconds_per_second
    → magnitude (k *ℤ pos k_micro_seconds_per_second) ≤ 2 ^ 53
    → (time_difference high low ≡ d.of_int k)
      × (add_time low (time_difference {D = D} high low) ≡ high)
unfolding time_difference add_time
add_time-time_difference ⦃d⦄ exact high low k apart small =
    let million = pos k_micro_seconds_per_second in
    let diff : high.micro_seconds_since_epoch -ℤ low.micro_seconds_since_epoch ≡ k *ℤ million =
      ap (λ a. a -ℤ low.micro_seconds_since_epoch)
        (apart ∙ +ℤ_comm low.micro_seconds_since_epoch (k *ℤ million))
      ∙ +ℤ_cancel (k *ℤ million) low.micro_seconds_since_epoch in
    let seconds : time_difference high low ≡ d.of_int k =
      ap (λ a. d.over (d.of_int a) (d.of_int million)) diff
      ∙ exact.over_whole k k_micro_seconds_per_second (omega arith) small in
    let delta : d.trunc (d.times (time_difference high low) (d.of_int million)) ≡ k *ℤ million =
      ap (λ s. d.trunc (d.times s (d.of_int million))) seconds
      ∙ ap d.trunc (exact.times_whole k k_micro_seconds_per_second (omega arith) small)
      ∙ exact.trunc_whole (k *ℤ million) small in
    (
      seconds,
      ap (λ a. record { micro_seconds_since_epoch = low.micro_seconds_since_epoch +ℤ a }) delta
          ∙ ap (λ a. record { micro_seconds_since_epoch = a }) (sym apart),
    )
