-- ===== src/Mutex/Places.antt =====
-- Where a thread has the mutex of the system, and where a step leaves the threads.
use multi_thread_log.Common.{
  ℕ, ◌≡◌, ◌≢◌, ◌⊎◌, inl, inr, refl, Bool, true, false, ◌==◌, arith, ==_iff, Bool-cases,
}
use multi_thread_log.Mutex.{Place, outside, locking, holding, unlocking, to_wait, waiting}

-- The thread has the mutex of the system there.
abbrev pub owns : Place → Bool
owns outside = false
owns locking = true
owns holding = true
owns unlocking = true
owns to_wait = true
owns waiting = false

abbrev pub holds : Place → Bool
holds holding = true
holds _ = false

pub holds-owns : (p : Place) → holds p ≡ true → owns p ≡ true
holds-owns outside h = absurd (ground arith)
holds-owns locking h = refl
holds-owns holding h = refl
holds-owns unlocking h = refl
holds-owns to_wait h = refl
holds-owns waiting h = absurd (ground arith)

pub not_both : (a : Bool) → a ≡ true → a ≡ false → ⊥
not_both a h k = absurd (ground arith)

pub same_or_not : (u t : ℕ) → (u ≡ t) ⊎ (u ≢ t)
same_or_not u t = elim (Bool-cases (u == t)) [
  | inl e ↦ inl ((==_iff u t).0 e)
  | inr e ↦ inr (ground arith)
]
