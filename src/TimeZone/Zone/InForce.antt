-- ===== src/TimeZone/Zone/InForce.antt =====
-- What `findLocaltime` finds: the last transition that is not after the time, in a list that is in order.
mod Examples
use multi_thread_log.Common.{
  ℕ, suc, ◌+◌, ◌-◌, ◌≡◌, ◌≤◌, ◌<◌, refl, sym, ap, ◌∙◌, Bool, true, false, Option, none, some, List,
  [], ◌∷◌, if◌then◌else◌, ◌>>=◌, length, ◌==◌, arith, inl, inr, Bool-cases, ne→==,
}
use multi_thread_log.Common.Lists.{get_elem?}
use multi_thread_log.Common.Int.{ℤ, pos, pos_part, neg_part, ltb_ℤ, eqb_ℤ}
use multi_thread_log.TimeZone.Zone.{
  Transition, Localtime, Data, comp, equal, lower_bound, settle, settle_at, find_localtime,
}

-- Each transition is before the next.
abbrev pub IsOrdered : Bool → List Transition → Type 0
IsOrdered gmt [] = Unit
IsOrdered gmt (t ∷ []) = Unit
IsOrdered gmt (t ∷ u ∷ us) = (comp gmt t u ≡ true) × IsOrdered gmt (u ∷ us)

-- The transition in force at `sentry`, if `t` is and `ts` follow.
abbrev pub in_force : Bool → Transition → List Transition → Transition → Transition
in_force gmt t [] sentry = t
in_force gmt t (u ∷ us) sentry = if comp gmt sentry u then t else in_force gmt u us sentry

-- The number of the local time in force, which is 0 before the first transition.
abbrev pub index_in_force : Bool → List Transition → Transition → ℕ
index_in_force gmt [] sentry = 0
index_in_force gmt (t ∷ ts) sentry =
    if comp gmt sentry t then 0 else (in_force gmt t ts sentry).localtime_idx

one_less : (k : ℕ) → suc k - 1 ≡ k
one_less k = omega arith

-- The order of the keys.
later_than_both :
    (gmt : Bool) (t u s : Transition)
    → comp gmt t u ≡ true
    → comp gmt s u ≡ false
    → (comp gmt t s ≡ true) × (equal gmt s t ≡ false)
later_than_both true t u s h k = ground arith
later_than_both false t u s h k = ground arith

before_both :
    (gmt : Bool) (t u s : Transition)
    → comp gmt t u ≡ true
    → comp gmt t s ≡ false
    → comp gmt s t ≡ false
    → comp gmt s u ≡ true
before_both true t u s h k l = ground arith
before_both false t u s h k l = ground arith

neither :
    (gmt : Bool) (t s : Transition)
    → comp gmt t s ≡ false
    → comp gmt s t ≡ false
    → equal gmt s t ≡ true
neither true t s h k = ground arith
neither false t s h k = ground arith

after :
    (gmt : Bool) (t s : Transition)
    → comp gmt s t ≡ true
    → (comp gmt t s ≡ false) × (equal gmt s t ≡ false)
after true t s h = ground arith
after false t s h = ground arith

module _ (gmt : Bool) (s : Transition) where
  found :
      (ts : List Transition) (i : ℕ)
      → lower_bound gmt ts s ≡ i
      → settle gmt ts s ≡ settle_at gmt ts s i (get_elem? ts i)
  unfolding settle
  found ts i e = ap (λ k. settle_at gmt ts s k (get_elem? ts k)) e

  stays :
      (t : Transition) (ts : List Transition)
      → comp gmt t s ≡ false
      → lower_bound gmt (t ∷ ts) s ≡ 0
  unfolding lower_bound
  stays t ts e = rw e refl

  moves :
      (t : Transition) (ts : List Transition)
      → comp gmt t s ≡ true
      → lower_bound gmt (t ∷ ts) s ≡ suc (lower_bound gmt ts s)
  unfolding lower_bound
  moves t ts e = rw e (omega arith)

  settle_here :
      (t : Transition) (ts : List Transition)
      → comp gmt t s ≡ false
      → comp gmt s t ≡ false
      → settle gmt (t ∷ ts) s ≡ some t
  unfolding settle_at
  settle_here t ts b e = found (t ∷ ts) 0 (stays t ts b) ∙ rw (neither gmt t s b e) refl

  -- A transition before another that is not after the time does not count.
  settle_skip :
      (t u : Transition) (us : List Transition)
      → comp gmt t s ≡ true
      → comp gmt s u ≡ false
      → settle gmt (t ∷ u ∷ us) s ≡ settle gmt (u ∷ us) s
  unfolding settle_at
  settle_skip t u us b e = elim (Bool-cases (comp gmt u s)) [
    | inr same ↦
        found (t ∷ u ∷ us) 1 (moves t (u ∷ us) b ∙ ap suc (stays u us same))
        ∙ rw (neither gmt u s same e) refl
        ∙ sym (settle_here u us same e)
    | inl more ↦
        let k = moves u us more in
        found (t ∷ u ∷ us) _ (moves t (u ∷ us) b ∙ ap suc k)
        ∙ shifted (lower_bound gmt us s) (get_elem? us (lower_bound gmt us s))
        ∙ sym (found (u ∷ us) _ k)
  ]
    where
      shifted :
          (k : ℕ) (o : Option Transition)
          → settle_at gmt (t ∷ u ∷ us) s (suc (suc k)) o ≡ settle_at gmt (u ∷ us) s (suc k) o
      shifted k none = rw (one_less (suc (length us)), one_less (length us)) refl
      shifted k (some x) =
          rw
            (
              one_less (suc k),
              one_less k,
              ne→== (suc (suc k)) 0 (omega arith),
              ne→== (suc k) 0 (omega arith),
            )
            refl

  in_force_first :
      (t : Transition) (us : List Transition)
      → IsOrdered gmt (t ∷ us)
      → comp gmt t s ≡ false
      → comp gmt s t ≡ false
      → in_force gmt t us s ≡ t
  in_force_first t [] o b e = refl
  in_force_first t (u ∷ us) o b e = rw (before_both gmt t u s o.0 b e) refl

  settle-in_force :
      (t : Transition) (ts : List Transition)
      → IsOrdered gmt (t ∷ ts)
      → comp gmt s t ≡ false
      → settle gmt (t ∷ ts) s ≡ some (in_force gmt t ts s)
  unfolding settle_at lower_bound
  settle-in_force t [] h e = elim (Bool-cases (comp gmt t s)) [
    | inr b ↦ settle_here t [] b e
    | inl b ↦ found (t ∷ []) 1 (moves t [] b)
  ]
  settle-in_force t (u ∷ us) h e = elim (Bool-cases (comp gmt t s)) [
    | inr b ↦ settle_here t (u ∷ us) b e ∙ ap some (sym (in_force_first t (u ∷ us) h b e))
    | inl b ↦ elim (Bool-cases (comp gmt s u)) [
      | inl early ↦
          let a = after gmt u s early in
          found (t ∷ u ∷ us) 1 (moves t (u ∷ us) b ∙ ap suc (stays u us a.0)) ∙ rw (a.1, early) refl
      | inr late ↦ settle_skip t u us b late ∙ settle-in_force u us h.1 late ∙ rw late refl
    ]
  ]

-- Where the transitions are in order, each before the next, `findLocaltime` finds the local time of the last
-- transition that is not after `sentry`, and the first local time if all are after it. It fails only where
-- the zone has no local time of that number.
pub find_localtime-in_force :
    (zone : Data) (sentry : Transition) (gmt : Bool)
    → IsOrdered gmt zone.transitions
    → find_localtime zone sentry gmt
      ≡ get_elem? zone.localtimes (index_in_force gmt zone.transitions sentry)
unfolding find_localtime
find_localtime-in_force zone sentry gmt h = by_list zone.transitions refl h
  where
    by_list :
        (ts : List Transition)
        → zone.transitions ≡ ts
        → IsOrdered gmt ts
        → find_localtime zone sentry gmt ≡ get_elem? zone.localtimes (index_in_force gmt ts sentry)
    by_list [] e o = rw e refl
    by_list (t ∷ ts) e o = elim (Bool-cases (comp gmt sentry t)) [
      | inl b ↦ rw (e, b) refl
      | inr b ↦ rw (e, b, settle-in_force gmt sentry t ts o b) refl
    ]
