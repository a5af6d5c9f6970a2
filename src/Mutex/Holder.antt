-- ===== src/Mutex/Holder.antt =====
-- At most one thread holds the mutex, and only that one sees itself as the holder.
use multi_thread_log.Common.{ℕ, ◌<◌, ◌≡◌, ◌↔◌, refl, ap, true, arith, ==_iff}
use multi_thread_log.Mutex.{
  Place, outside, locking, holding, unlocking, to_wait, waiting, MutexLock,
  is_locked_by_this_thread, taken, Reachable, at_start, next,
}
use multi_thread_log.Mutex.Places.{owns, holds}
use multi_thread_log.Mutex.Consistent.{IsConsistent, owner_unique, step-IsConsistent}

Reachable-IsConsistent : (m : MutexLock) → Reachable m → IsConsistent m
Reachable-IsConsistent m at_start = record {
  owner_owns = λ t h. absurd (ground arith);
  holder_is = λ t h. absurd (ground arith);
  holder_holds = λ t h e. absurd (omega arith);
}
Reachable-IsConsistent m (next before m' r (taken s t before' after e h w)) =
    step-IsConsistent before (Reachable-IsConsistent before r) t s after e w

-- In whatever order the threads take the steps of `lock`, `unlock` and `wait`: `isLockedByThisThread` is true in a thread, whose
-- number is not 0, if and only if it holds the mutex, and of two threads that have taken it both are the same.
pub Reachable-holder :
    (m : MutexLock)
    → Reachable m
    → (t u : ℕ) → 0 < t
    → ((is_locked_by_this_thread t m ≡ true) ↔ (m.place t ≡ holding))
      × (owns (m.place t) ≡ true → owns (m.place u) ≡ true → t ≡ u)
unfolding is_locked_by_this_thread
Reachable-holder m r t u h =
    let v = Reachable-IsConsistent m r in
    (
      (
        λ e. holds_holding (m.place t) (v.holder_holds t h ((==_iff m.holder t).0 e)),
        λ e. (==_iff m.holder t).1 (v.holder_is t (ap holds e)),
      ),
      λ k l. owner_unique m v u t l k,
    )
  where
    holds_holding : (p : Place) → holds p ≡ true → p ≡ holding
    holds_holding holding e = refl
    holds_holding outside e = absurd (ground arith)
    holds_holding locking e = absurd (ground arith)
    holds_holding unlocking e = absurd (ground arith)
    holds_holding to_wait e = absurd (ground arith)
    holds_holding waiting e = absurd (ground arith)
