-- ===== src/Mutex.antt =====
-- `MutexLock`, `MutexLockGuard` and `Condition` of Mutex.h and Condition.h, as the steps of the threads that use one mutex.
-- Of the mutex of the system, what is documented is used: it has at most one owner, a call of `pthread_mutex_lock` returns
-- when there is none, and `pthread_cond_wait` gives the mutex up in one step and takes it again before it returns, which it
-- may do without a cause.
pub mod Places
pub mod Deadline
pub mod Consistent
pub mod Holder
mod Examples
use multi_thread_log.Common.{
  ℕ, ◌<◌, ◌≡◌, Bool, true, false, Option, none, some, List, [], ◌∷◌, ◌==◌, if◌then◌else◌, ◌>>=◌,
}

-- Where a thread is: outside; in `lock`, with the system's mutex taken but the holder not assigned; holding; in `unlock`, the
-- holder unassigned; in `wait`, the holder unassigned, and then without the mutex.
pub data Place : Type 0 where
  outside locking holding unlocking to_wait waiting : Place

-- `owner` has the system's mutex; `holder` is `holder_`.
pub record MutexLock : Type 0 where
  pub owner : Option ℕ
  pub holder : ℕ
  pub place : ℕ → Place

abbrev pub start : MutexLock
start = record { owner = none; holder = 0; place = λ t. outside }

unfoldable pub set_place : ℕ → Place → (ℕ → Place) → ℕ → Place
set_place t new place u = if u == t then new else place u

-- `assignHolder` and `unassignHolder`, the destructor and the constructor of `UnassignGuard`.
unfoldable pub assign_holder : ℕ → MutexLock → MutexLock
assign_holder t m = record m { holder = t }

unfoldable pub unassign_holder : MutexLock → MutexLock
unassign_holder m = record m { holder = 0 }

unfoldable pub is_locked_by_this_thread : ℕ → MutexLock → Bool
is_locked_by_this_thread t m = m.holder == t

-- `assertLocked`, and the assertion of the destructor: `none` if it fails.
unfoldable pub assert_locked : ℕ → MutexLock → Option MutexLock
unfolding is_locked_by_this_thread
assert_locked t m = if is_locked_by_this_thread t m then some m else none

unfoldable pub destroy : MutexLock → Option MutexLock
destroy m = if m.holder == 0 then some m else none

-- The mutex of the system.
abbrev pub if_free : Option ℕ → MutexLock → Option MutexLock
if_free none m = some m
if_free (some u) m = none

abbrev pub take_mutex : ℕ → MutexLock → Option MutexLock
take_mutex t m = if_free m.owner (record m { owner = some t })

abbrev pub give_mutex : MutexLock → MutexLock
give_mutex m = record m { owner = none }

-- The steps of `lock`, `unlock` and `Condition::wait`.
pub data Step : Type 0 where
  take_lock assign_lock unassign_lock give_lock begin_wait release_wait return_wait : Step

-- From where a step starts.
abbrev pub begins : Step → Place
begins take_lock = outside
begins assign_lock = locking
begins unassign_lock = holding
begins give_lock = unlocking
begins begin_wait = holding
begins release_wait = to_wait
begins return_wait = waiting

-- Where it leads, and what it does to the mutex.
abbrev pub ends : Step → Place
ends take_lock = locking
ends assign_lock = holding
ends unassign_lock = unlocking
ends give_lock = outside
ends begin_wait = to_wait
ends release_wait = waiting
ends return_wait = locking

unfoldable pub step : Step → ℕ → MutexLock → Option MutexLock
unfolding assign_holder unassign_holder
step take_lock t m = take_mutex t m
step assign_lock t m = some (assign_holder t m)
step unassign_lock t m = some (unassign_holder m)
step give_lock t m = some (give_mutex m)
step begin_wait t m = some (unassign_holder m)
step release_wait t m = some (give_mutex m)
step return_wait t m = take_mutex t m

-- One step of thread `t`, which can be taken where the thread is at its beginning.
pub data Steps : MutexLock → MutexLock → Type 0 where
  taken :
      (s : Step) (t : ℕ) (m m' : MutexLock)
      → m.place t ≡ begins s
      → 0 < t
      → step s t m ≡ some m'
      → Steps m (record m' { place = set_place t (ends s) m.place })

-- What the threads can come to.
pub data Reachable : MutexLock → Type 0 where
  at_start : Reachable start
  next : (m m' : MutexLock) → Reachable m → Steps m m' → Reachable m'
