-- ===== src/ProcessInfo/CpuTime.antt =====
-- `CpuTime` of ProcessInfo.h and `cpuTime` of ProcessInfo.cc.
use multi_thread_log.Common.{ℕ, Option, none, some}
use multi_thread_log.Common.Double.{Double}
use multi_thread_log.Common.Int.{pos}
use multi_thread_log.ProcessInfo.{Process, clock_ticks_per_second}

pub record CpuTime {ℓ} (D : Type ℓ) : Type ℓ where
  pub user_seconds : D
  pub system_seconds : D

-- The constructor
unfoldable pub no_time {ℓ} : {D : Type ℓ} ⦃d : Double D⦄ → CpuTime D
no_time ⦃d⦄ = record { user_seconds = d.of_int (pos 0); system_seconds = d.of_int (pos 0) }

unfoldable pub total {ℓ} : {D : Type ℓ} ⦃d : Double D⦄ → CpuTime D → D
total ⦃d⦄ t = d.plus t.user_seconds t.system_seconds

unfoldable pub seconds_of {ℓ} : {D : Type ℓ} ⦃d : Double D⦄ → D → Option (ℕ × ℕ) → CpuTime D
unfolding no_time
seconds_of hz none = no_time
seconds_of ⦃d⦄ hz (some (utime, stime)) = record {
  user_seconds = d.over (d.of_int (pos utime)) hz;
  system_seconds = d.over (d.of_int (pos stime)) hz;
}

unfoldable pub cpu_time {ℓ} : {D : Type ℓ} ⦃d : Double D⦄ → Process → CpuTime D
unfolding seconds_of
cpu_time ⦃d⦄ p = seconds_of (d.of_int (clock_ticks_per_second p)) p.times
