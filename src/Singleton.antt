-- ===== src/Singleton.antt =====
-- `Singleton` of Singleton.h. An object is a number, new with each `new`; `none` is a failed assertion. `pthread_once` lets
-- one call of `init` run, before any call of it returns, so that a call of `instance` is one step.
pub mod Once
use multi_thread_log.Common.{ℕ, ◌+◌, Bool, true, false, Option, none, some, if◌then◌else◌, ◌>>=◌}

-- `ponce_`, `value_`, how many objects have been made, and how often `destory` is registered for the exit.
pub record Singleton : Type 0 where
  pub once : Bool
  pub value : Option ℕ
  pub made : ℕ
  pub at_exit : ℕ

abbrev pub start : Singleton
start = record { once = false; value = none; made = 0; at_exit = 0 }

abbrev pub is_null : Option ℕ → Bool
is_null none = true
is_null (some object) = false

unfoldable pub init : Singleton → Option Singleton
init s =
    if is_null s.value
    then some (record s { value = some s.made; made = s.made + 1; at_exit = s.at_exit + 1 })
    else none

unfoldable pub instance_of : Singleton → Option (Singleton × ℕ)
unfolding init
instance_of s = do
  s' ← if s.once then some s else init (record s { once = true })
  object ← s'.value
  some (s', object)

-- `destory`
unfoldable pub destroy : Singleton → Singleton
destroy s = record s { value = none }
