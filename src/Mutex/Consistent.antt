-- ===== src/Mutex/Consistent.antt =====
-- What holds of the owner, the holder and the places of the threads after every step.
use multi_thread_log.Common.{
  ℕ, ◌<◌, ◌≡◌, ◌≢◌, ◌⊎◌, inl, inr, refl, sym, ap, ◌∙◌, Bool, true, false, none, some, ◌==◌, arith,
  ==_iff, ne→==, Bool-cases, Option-cases,
}
use mathlib.Core.Option.{some-injective, none-ne-some}
use multi_thread_log.Mutex.{
  Place, outside, locking, holding, unlocking, to_wait, waiting, MutexLock, set_place,
  assign_holder, unassign_holder, take_mutex, Step, take_lock, assign_lock, unassign_lock,
  give_lock, begin_wait, release_wait, return_wait, begins, ends, step,
}
use multi_thread_log.Mutex.Places.{owns, holds, holds-owns, not_both, same_or_not}

-- The owner is the thread that is where it has the mutex, and the holder is the owner while it holds, and otherwise 0.
pub record IsConsistent (m : MutexLock) : Type 0 where
  pub owner_owns : (t : ℕ) → owns (m.place t) ≡ true → m.owner ≡ some t
  pub holder_is : (t : ℕ) → holds (m.place t) ≡ true → m.holder ≡ t
  pub holder_holds : (t : ℕ) → 0 < t → m.holder ≡ t → holds (m.place t) ≡ true

module _ (f : Place → Bool) (t : ℕ) (new : Place) (place : ℕ → Place) where
  moved :
      (u : ℕ)
      → f (set_place t new place u) ≡ true
      → ((u ≡ t) × (f new ≡ true)) ⊎ ((u ≢ t) × (f (place u) ≡ true))
  unfolding set_place
  moved u h = elim (Bool-cases (u == t)) [
    | inl e ↦ inl ((==_iff u t).0 e, rw e at h)
    | inr e ↦ inr (ground arith, rw e at h)
  ]

  there : (u : ℕ) → u ≡ t → f new ≡ true → f (set_place t new place u) ≡ true
  unfolding set_place
  there u e h = rw ((==_iff u t).1 e) h

  elsewhere : (u : ℕ) → u ≢ t → f (place u) ≡ true → f (set_place t new place u) ≡ true
  unfolding set_place
  elsewhere u e h = rw (ne→== u t e) h

-- Two threads that have the mutex are the same.
pub owner_unique :
    (m : MutexLock)
    → IsConsistent m
    → (t u : ℕ) → owns (m.place t) ≡ true
    → owns (m.place u) ≡ true
    → u ≡ t
owner_unique m v t u h k = some-injective u t (sym (v.owner_owns u k) ∙ v.owner_owns t h)

module _ (m : MutexLock) (v : IsConsistent m) (t : ℕ) where
  -- A holder that is not the thread that moves goes on holding.
  goes_on :
      (new : Place) (u : ℕ)
      → holds (m.place t) ≡ false
      → 0 < u
      → m.holder ≡ u
      → holds (set_place t new m.place u) ≡ true
  goes_on new u before h e = elim (same_or_not u t) [
    | inl w ↦ absurd (
        not_both (holds (m.place t)) (ap (λ x. holds (m.place x)) (sym w) ∙ v.holder_holds u h e)
          before)
    | inr w ↦ elsewhere holds t new m.place u w (v.holder_holds u h e)
  ]

  -- Where the holder stays, a thread that ends at a place that does not hold it changes nothing for the others.
  still_held :
      (new : Place) (u : ℕ)
      → holds new ≡ false
      → holds (set_place t new m.place u) ≡ true
      → m.holder ≡ u
  still_held new u after h = elim (moved holds t new m.place u h) [
    | inl w ↦ absurd (not_both (holds new) w.1 after)
    | inr w ↦ v.holder_is u w.1
  ]

  -- Where the owner stays, too.
  still_owned :
      (new : Place) (u : ℕ)
      → owns (m.place t) ≡ true
      → owns (set_place t new m.place u) ≡ true
      → m.owner ≡ some u
  still_owned new u before h = elim (moved owns t new m.place u h) [
    | inl w ↦ v.owner_owns t before ∙ ap some (sym w.0)
    | inr w ↦ v.owner_owns u w.1
  ]

  -- Another thread does not have the mutex.
  not_another : (u : ℕ) → owns (m.place t) ≡ true → u ≢ t → owns (m.place u) ≡ true → ⊥
  not_another u before w h = w (owner_unique m v t u before h)

  taking-IsConsistent :
      m.owner ≡ none
      → holds (m.place t) ≡ false
      → IsConsistent (record m { owner = some t; place = set_place t locking m.place })
  taking-IsConsistent free before = record {
    owner_owns = λ u h. owned u (moved owns t locking m.place u h);
    holder_is = λ u h. still_held locking u refl h;
    holder_holds = λ u h e. goes_on locking u before h e;
  }
    where
      owned :
          (u : ℕ)
          → ((u ≡ t) × (owns locking ≡ true)) ⊎ ((u ≢ t) × (owns (m.place u) ≡ true))
          → some t ≡ some u
      owned u (inl w) = ap some (sym w.0)
      owned u (inr w) = absurd (none-ne-some u (sym free ∙ v.owner_owns u w.1))

  assigning-IsConsistent :
      owns (m.place t) ≡ true
      → IsConsistent (record m { holder = t; place = set_place t holding m.place })
  assigning-IsConsistent before = record {
    owner_owns = λ u h. still_owned holding u before h;
    holder_is = λ u h. held u (moved holds t holding m.place u h);
    holder_holds = λ u h e. there holds t holding m.place u (sym e) refl;
  }
    where
      held :
          (u : ℕ)
          → ((u ≡ t) × (holds holding ≡ true)) ⊎ ((u ≢ t) × (holds (m.place u) ≡ true))
          → t ≡ u
      held u (inl w) = sym w.0
      held u (inr w) = absurd (not_another u before w.0 (holds-owns (m.place u) w.1))

  unassigning-IsConsistent :
      (new : Place)
      → owns (m.place t) ≡ true
      → holds new ≡ false
      → IsConsistent (record m { holder = 0; place = set_place t new m.place })
  unassigning-IsConsistent new before after = record {
    owner_owns = λ u h. still_owned new u before h;
    holder_is = λ u h. absurd (nobody u (moved holds t new m.place u h));
    holder_holds = λ u h e. absurd (omega arith);
  }
    where
      nobody : (u : ℕ) → ((u ≡ t) × (holds new ≡ true)) ⊎ ((u ≢ t) × (holds (m.place u) ≡ true)) → ⊥
      nobody u (inl w) = not_both (holds new) w.1 after
      nobody u (inr w) = not_another u before w.0 (holds-owns (m.place u) w.1)

  giving-IsConsistent :
      (new : Place)
      → owns (m.place t) ≡ true
      → holds (m.place t) ≡ false
      → owns new ≡ false
      → holds new ≡ false
      → IsConsistent (record m { owner = none; place = set_place t new m.place })
  giving-IsConsistent new before idle after after' = record {
    owner_owns = λ u h. absurd (nobody u (moved owns t new m.place u h));
    holder_is = λ u h. still_held new u after' h;
    holder_holds = λ u h e. goes_on new u idle h e;
  }
    where
      nobody : (u : ℕ) → ((u ≡ t) × (owns new ≡ true)) ⊎ ((u ≢ t) × (owns (m.place u) ≡ true)) → ⊥
      nobody u (inl w) = not_both (owns new) w.1 after
      nobody u (inr w) = not_another u before w.0 w.1

  take_mutex_free :
      (m' : MutexLock)
      → take_mutex t m ≡ some m'
      → (m.owner ≡ none) × (m' ≡ record m { owner = some t })
  take_mutex_free m' e = elim (Option-cases m.owner) [
    | inl free ↦ (free, sym (some-injective (record m { owner = some t }) m' (rw free at e)))
    | inr (u, owned) ↦ absurd (none-ne-some m' (rw owned at e))
  ]

  pub step-IsConsistent :
      (s : Step) (m' : MutexLock)
      → m.place t ≡ begins s
      → step s t m ≡ some m'
      → IsConsistent (record m' { place = set_place t (ends s) m.place })
  unfolding step assign_holder unassign_holder
  step-IsConsistent take_lock m' e r =
      let w = take_mutex_free m' r in rw w.1 (taking-IsConsistent w.0 (ap holds e))
  step-IsConsistent return_wait m' e r =
      let w = take_mutex_free m' r in rw w.1 (taking-IsConsistent w.0 (ap holds e))
  step-IsConsistent assign_lock m' e r =
      rw (sym (some-injective _ m' r)) (assigning-IsConsistent (ap owns e))
  step-IsConsistent unassign_lock m' e r =
      rw (sym (some-injective _ m' r)) (unassigning-IsConsistent unlocking (ap owns e) refl)
  step-IsConsistent begin_wait m' e r =
      rw (sym (some-injective _ m' r)) (unassigning-IsConsistent to_wait (ap owns e) refl)
  step-IsConsistent give_lock m' e r =
      rw (sym (some-injective _ m' r))
        (giving-IsConsistent outside (ap owns e) (ap holds e) refl refl)
  step-IsConsistent release_wait m' e r =
      rw (sym (some-injective _ m' r))
        (giving-IsConsistent waiting (ap owns e) (ap holds e) refl refl)
