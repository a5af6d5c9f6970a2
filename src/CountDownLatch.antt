-- ===== src/CountDownLatch.antt =====
-- CountDownLatch.h and CountDownLatch.cc. What a thread does with the mutex held is one step; `Condition::wait` ends such a
-- step and begins another, after a notification or without a cause.
pub mod Waiting
mod Examples
use multi_thread_log.Common.{ℕ, zero, suc, ◌≡◌, Bool, true, false, ◌==◌, if◌then◌else◌}
use multi_thread_log.Common.Int.{ℤ, pos, ◌-ℤ◌, ltb_ℤ, eqb_ℤ}

-- Where a thread is: not in `wait`, in the wait of the condition, notified there, or returned from `wait`.
pub data Waiter : Type 0 where
  away blocked notified returned : Waiter

-- `count` is `count_`.
pub record CountDownLatch : Type 0 where
  pub count : ℤ
  pub waiter : ℕ → Waiter

abbrev pub make : ℤ → CountDownLatch
make count = record { count = count; waiter = λ t. away }

unfoldable pub set_waiter : ℕ → Waiter → (ℕ → Waiter) → ℕ → Waiter
set_waiter t new waiter u = if u == t then new else waiter u

-- `notifyAll`
abbrev pub notify : Waiter → Waiter
notify away = away
notify blocked = notified
notify notified = notified
notify returned = returned

-- The test of the loop in `wait`, on entry and when the wait of the condition returns.
unfoldable pub wait : ℕ → CountDownLatch → CountDownLatch
wait t l = record l {
  waiter = set_waiter t (if ltb_ℤ (pos 0) l.count then blocked else returned) l.waiter;
}

-- `countDown`
unfoldable pub count_down : CountDownLatch → CountDownLatch
count_down l =
    let l' = record l { count = l.count -ℤ pos 1 } in
    if eqb_ℤ l'.count (pos 0) then record l' { waiter = λ t. notify (l.waiter t) } else l'

unfoldable pub get_count : CountDownLatch → ℤ
get_count l = l.count

-- What the threads can come to, from a latch made with `n`, after `k` calls of `countDown`.
pub data Reachable (n : ℕ) : ℕ → CountDownLatch → Type 0 where
  made : Reachable n 0 (make (pos n))
  waits : (t k : ℕ) (l : CountDownLatch) → Reachable n k l → Reachable n k (wait t l)
  counts : (k : ℕ) (l : CountDownLatch) → Reachable n k l → Reachable n (suc k) (count_down l)
