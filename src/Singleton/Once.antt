-- ===== src/Singleton/Once.antt =====
-- There is one object.
use multi_thread_log.Common.{ℕ, zero, suc, ◌≡◌, refl, true, Option, none, some, ◌>>=◌}
use multi_thread_log.Singleton.{Singleton, start, init, instance_of, destroy}

-- The state after the first call.
abbrev pub once_made : Singleton
once_made = record { once = true; value = some 0; made = 1; at_exit = 1 }

-- The object after `k` more calls.
abbrev pub after_calls : ℕ → Singleton → Option (Singleton × ℕ)
after_calls zero s = instance_of s
after_calls (suc k) s = instance_of s >>= λ r. after_calls k r.0

-- Every call returns the first object made, and no second one is made. After the exit functions have run a call fails its
-- assertion.
pub instance_of_lem :
    (k : ℕ) → (after_calls k start ≡ some (once_made, 0)) × (instance_of (destroy once_made) ≡ none)
unfolding instance_of init destroy
instance_of_lem k = (from_start k, refl)
  where
    again : (k : ℕ) → after_calls k once_made ≡ some (once_made, 0)
    again zero = refl
    again (suc k) = again k

    from_start : (k : ℕ) → after_calls k start ≡ some (once_made, 0)
    from_start zero = refl
    from_start (suc k) = again k
