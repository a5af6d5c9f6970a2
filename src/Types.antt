-- ===== src/Types.antt =====
-- Types.h: setting memory to zero, and the casts, whose result is the same object. An object is a number, and what
-- `dynamic_cast` finds out of it is a parameter.
use multi_thread_log.Common.{
  ℕ, Bool, Option, none, some, List, ◌++◌, leb, if◌then◌else◌, length, drop, replicate,
}

-- `memZero`, of `n` bytes from the pointer on; `none` is a write past the end of the array.
unfoldable pub mem_zero : List ℕ → ℕ → Option (List ℕ)
mem_zero p n = if leb n (length p) then some (replicate n 0 ++ drop n p) else none

unfoldable pub implicit_cast : {To From : Type 0} → (From → To) → From → To
implicit_cast convert f = convert f

-- With the assertions of a debug build: `none` if the object is not of the type.
unfoldable pub down_cast : (ℕ → Bool) → Option ℕ → Option (Option ℕ)
down_cast is_to none = some none
down_cast is_to (some object) = if is_to object then some (some object) else none
