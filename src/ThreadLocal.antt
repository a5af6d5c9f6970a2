-- ===== src/ThreadLocal.antt =====
-- `ThreadLocal` of ThreadLocal.h and `ThreadLocalSingleton` of ThreadLocalSingleton.h. An object is a number, new with each `new`;
-- a key of the system has a value for each thread, the null pointer at first.
pub mod Own
use multi_thread_log.Common.{ℕ, ◌+◌, Bool, true, false, Option, none, some, if◌then◌else◌, ◌==◌}

-- What the key holds for each thread, and how many objects have been made.
pub record ThreadLocal : Type 0 where
  pub specific : ℕ → Option ℕ
  pub made : ℕ

abbrev pub make : ThreadLocal
make = record { specific = λ t. none; made = 0 }

abbrev pub set_specific : ℕ → Option ℕ → (ℕ → Option ℕ) → ℕ → Option ℕ
set_specific t object specific u = if u == t then object else specific u

-- `value`, in thread `t`.
unfoldable pub value_or_new : ℕ → Option ℕ → ThreadLocal → ThreadLocal × ℕ
value_or_new t (some object) l = (l, object)
value_or_new t none l =
    (record { specific = set_specific t (some l.made) l.specific; made = l.made + 1 }, l.made)

unfoldable pub value : ℕ → ThreadLocal → ThreadLocal × ℕ
unfolding value_or_new
value t l = value_or_new t (l.specific t) l

-- The destructor of the key, which the system calls at the end of the thread with the object, having set the key's value to the
-- null pointer.
unfoldable pub destroy : ℕ → ThreadLocal → ThreadLocal
destroy t l = record l { specific = set_specific t none l.specific }

-- `t_value_` of each thread beside the key of the `Deleter`; `none` is a failed assertion.
pub record ThreadLocalSingleton : Type 0 where
  pub t_value : ℕ → Option ℕ
  pub specific : ℕ → Option ℕ
  pub made : ℕ

abbrev pub start : ThreadLocalSingleton
start = record { t_value = λ t. none; specific = λ t. none; made = 0 }

-- `instance`, with `Deleter::set`, for what the thread has in `t_value_` and in the key.
unfoldable pub instance_at :
    ℕ → Option ℕ → Option ℕ → ThreadLocalSingleton → Option (ThreadLocalSingleton × ℕ)
instance_at t (some object) held l = some (l, object)
instance_at t none (some old) l = none
instance_at t none none l = some (
  record {
    t_value = set_specific t (some l.made) l.t_value;
    specific = set_specific t (some l.made) l.specific;
    made = l.made + 1;
  },
  l.made,
)

unfoldable pub instance_of : ℕ → ThreadLocalSingleton → Option (ThreadLocalSingleton × ℕ)
unfolding instance_at
instance_of t l = instance_at t (l.t_value t) (l.specific t) l

-- `pointer`
unfoldable pub pointer : ℕ → ThreadLocalSingleton → Option ℕ
pointer t l = l.t_value t

-- `destructor`, which the system calls at the end of the thread with what the key holds, if that is an object.
unfoldable pub destructor_at :
    ℕ → Option ℕ → Option ℕ → ThreadLocalSingleton → Option ThreadLocalSingleton
destructor_at t none mine l = some l
destructor_at t (some object) none l = none
destructor_at t (some object) (some mine) l =
    if object == mine
    then some (record l {
      t_value = set_specific t none l.t_value;
      specific = set_specific t none l.specific;
    })
    else none

unfoldable pub destructor : ℕ → ThreadLocalSingleton → Option ThreadLocalSingleton
unfolding destructor_at
destructor t l = destructor_at t (l.specific t) (l.t_value t) l
