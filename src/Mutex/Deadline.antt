-- ===== src/Mutex/Deadline.antt =====
-- `Condition::waitForSeconds` of Condition.cc: the time at which the wait ends. Its other steps are those of `wait`.
pub mod Reached
mod Examples
use multi_thread_log.Common.{ℕ, ◌≡◌, Bool, ◌==◌}
use multi_thread_log.Common.Double.{Double}
use multi_thread_log.Common.Int.{ℤ, pos, ◌+ℤ◌, ◌*ℤ◌, quot, rem}

abbrev pub k_nano_seconds_per_second : ℕ
k_nano_seconds_per_second = 1000000000

pub record Timespec : Type 0 where
  pub tv_sec : ℤ
  pub tv_nsec : ℤ

unfoldable pub nanoseconds {ℓ} : {D : Type ℓ} ⦃d : Double D⦄ → D → ℤ
nanoseconds ⦃d⦄ seconds = d.trunc (d.times seconds (d.of_int (pos k_nano_seconds_per_second)))

-- `abstime`, from what `clock_gettime` answers.
unfoldable pub deadline {ℓ} : {D : Type ℓ} ⦃d : Double D⦄ → Timespec → D → Timespec
unfolding nanoseconds
deadline now seconds =
    let late = now.tv_nsec +ℤ nanoseconds seconds in
    record {
      tv_sec = now.tv_sec +ℤ quot late k_nano_seconds_per_second;
      tv_nsec = rem late k_nano_seconds_per_second;
    }

-- What is returned, by what `pthread_cond_timedwait` answers.
abbrev pub etimedout : ℕ
etimedout = 110

unfoldable pub wait_result : ℕ → Bool
wait_result answer = etimedout == answer
