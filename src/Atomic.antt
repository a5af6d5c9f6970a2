-- ===== src/Atomic.antt =====
-- `AtomicIntegerT` of Atomic.h, for integers of `w` bits. Each builtin is one step; it wraps around, while `+` on the type itself
-- may not leave its range, which is `none`.
pub mod Counting
use multi_thread_log.Common.{
  ℕ, ◌+◌, ◌-◌, ◌^◌, ◌%◌, Bool, true, false, ◌&&◌, Option, none, some, ltb, leb, if◌then◌else◌, not,
  ◌>>=◌,
}
use multi_thread_log.Common.Int.{ℤ, pos, negsuc, ◌+ℤ◌, ◌-ℤ◌, ltb_ℤ, eqb_ℤ}

-- `value_`
pub record AtomicInteger : Type 0 where
  pub value : ℤ

abbrev pub make : AtomicInteger
make = record { value = pos 0 }

-- Two's complement.
abbrev pub of_bits : ℕ → ℕ → ℤ
of_bits w n = if ltb n (2 ^ (w - 1)) then pos n else pos n -ℤ pos (2 ^ w)

unfoldable pub wrap : ℕ → ℤ → ℤ
wrap w (pos n) = of_bits w (n % 2 ^ w)
wrap w (negsuc n) = of_bits w (2 ^ w - 1 - n % 2 ^ w)

abbrev pub in_range : ℕ → ℤ → Bool
in_range w (pos n) = ltb n (2 ^ (w - 1))
in_range w (negsuc n) = ltb n (2 ^ (w - 1))

abbrev pub plus : ℕ → ℤ → ℤ → Option ℤ
plus w a b = if in_range w (a +ℤ b) then some (a +ℤ b) else none

-- `__sync_val_compare_and_swap`, `__sync_fetch_and_add` and `__sync_lock_test_and_set`: the new object and the old value.
abbrev pub compare_and_swap : ℤ → ℤ → AtomicInteger → AtomicInteger × ℤ
compare_and_swap old new a = (if eqb_ℤ a.value old then record { value = new } else a, a.value)

unfoldable pub get : AtomicInteger → AtomicInteger × ℤ
get a = compare_and_swap (pos 0) (pos 0) a

unfoldable pub get_and_add : ℕ → ℤ → AtomicInteger → AtomicInteger × ℤ
unfolding wrap
get_and_add w x a = (record { value = wrap w (a.value +ℤ x) }, a.value)

unfoldable pub add_and_get : ℕ → ℤ → AtomicInteger → AtomicInteger × Option ℤ
unfolding get_and_add
add_and_get w x a = ((get_and_add w x a).0, plus w (get_and_add w x a).1 x)

unfoldable pub increment_and_get : ℕ → AtomicInteger → AtomicInteger × Option ℤ
unfolding add_and_get
increment_and_get w a = add_and_get w (pos 1) a

unfoldable pub decrement_and_get : ℕ → AtomicInteger → AtomicInteger × Option ℤ
unfolding add_and_get
decrement_and_get w a = add_and_get w (negsuc 0) a

unfoldable pub get_and_set : ℤ → AtomicInteger → AtomicInteger × ℤ
get_and_set new_value a = (record { value = new_value }, a.value)

-- `add`, `increment` and `decrement` drop the value; the sum that the last two drop may still be undefined.
unfoldable pub add : ℕ → ℤ → AtomicInteger → AtomicInteger
unfolding get_and_add
add w x a = (get_and_add w x a).0

unfoldable pub increment : ℕ → AtomicInteger → Option AtomicInteger
unfolding increment_and_get
increment w a = (increment_and_get w a).1 >>= λ n. some (increment_and_get w a).0

unfoldable pub decrement : ℕ → AtomicInteger → Option AtomicInteger
unfolding decrement_and_get
decrement w a = (decrement_and_get w a).1 >>= λ n. some (decrement_and_get w a).0
