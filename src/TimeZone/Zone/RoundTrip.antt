-- ===== src/TimeZone/Zone/RoundTrip.antt =====
-- A local time is taken back to the time it was made of, unless the clocks were put back over it.
mod Examples
use multi_thread_log.Common.{
  ℕ, ◌≡◌, ◌⊎◌, inl, inr, refl, sym, ap, subst, ◌∙◌, Bool, true, false, not, ◌&&◌, Option, none,
  some, List, [], ◌∷◌, if◌then◌else◌, ◌>>=◌, leb, length, drop, arith, Bool-cases, Option-cases,
}
use multi_thread_log.Common.Lists.{get_elem?}
use multi_thread_log.Common.Int.{
  ℤ, pos, ◌+ℤ◌, ◌-ℤ◌, ltb_ℤ, eqb_ℤ, pos_part, neg_part, +ℤ_parts, +ℤ_cancel,
}
use mathlib.Core.Option.{some-injective, none-ne-some}
use multi_thread_log.TimeZone.{Tm}
use multi_thread_log.TimeZone.Zone.{
  Transition, Localtime, Data, comp, find_localtime, to_local_time, from_local_time,
}
use multi_thread_log.TimeZone.Zone.InForce.{
  IsOrdered, in_force, index_in_force, find_localtime-in_force,
}
use multi_thread_log.TimeZone.Zone.Reading.Kept.{IsResolved, AreResolved, IsData}

-- What `toLocalTime` searches by, and `fromLocalTime`.
abbrev pub at_gmt : ℤ → Transition
at_gmt seconds = record { gmttime = seconds; localtime = pos 0; localtime_idx = 0 }

abbrev pub at_local : ℤ → Transition
at_local seconds = record { gmttime = pos 0; localtime = seconds; localtime_idx = 0 }

-- At `s` the clock shows `local`, and shows it never again: each later transition leads to a later time.
abbrev pub IsClear : ℤ → ℤ → List Transition → Type 0
IsClear s local [] = Unit
IsClear s local (u ∷ us) =
    ((comp true (at_gmt s) u ≡ false) ⊎ (comp false (at_local local) u ≡ true)) × IsClear s local us

module _ (s local : ℤ) where
  -- Both searches find every transition on the same side.
  abbrev Agree : List Transition → Type 0
  Agree [] = Unit
  Agree (u ∷ us) = (comp true (at_gmt s) u ≡ comp false (at_local local) u) × Agree us

  in_force-Agree :
      (t : Transition) (us : List Transition)
      → Agree us
      → in_force true t us (at_gmt s) ≡ in_force false t us (at_local local)
  in_force-Agree t [] v = refl
  in_force-Agree t (u ∷ us) v = rw (v.0, in_force-Agree u us v.1) refl

  index_in_force-Agree :
      (ts : List Transition)
      → Agree ts
      → index_in_force true ts (at_gmt s) ≡ index_in_force false ts (at_local local)
  index_in_force-Agree [] v = refl
  index_in_force-Agree (t ∷ ts) v = rw (v.0, in_force-Agree t ts v.1) refl

  -- Behind a transition that is later all are.
  later-Agree :
      (t : Transition) (us : List Transition)
      → IsOrdered true (t ∷ us)
      → comp true (at_gmt s) t ≡ true
      → IsClear s local (t ∷ us)
      → Agree (t ∷ us)
  later-Agree t [] o b c = (ground arith, tt)
  later-Agree t (u ∷ us) o b c = (ground arith, later-Agree u us o.1 (ground (arith, o.0)) c.1)

  -- The transition in force is not after the time, and those before it are not either.
  passed-Agree :
      (t : Transition) (us : List Transition)
      → IsOrdered true (t ∷ us)
      → IsOrdered false (t ∷ us)
      → comp true (at_gmt s) t ≡ false
      → comp false (at_local local) (in_force true t us (at_gmt s)) ≡ false
      → IsClear s local us
      → (comp false (at_local local) t ≡ false) × Agree us
  passed-Agree t [] o p b e c = (e, tt)
  passed-Agree t (u ∷ us) o p b e c = elim (Bool-cases (comp true (at_gmt s) u)) [
    | inl later ↦ (rw later at e, later-Agree u us o.1 later c)
    | inr still ↦
        let r = passed-Agree u us o.1 p.1 still (rw still at e) c.1 in
        (ground (arith, p.0, r.0), (still ∙ sym r.0, r.1))
  ]

in_force-IsResolved :
    (ls : List Localtime) (gmt : Bool) (t : Transition) (us : List Transition) (s : Transition)
    → AreResolved ls (t ∷ us)
    → IsResolved ls (in_force gmt t us s)
in_force-IsResolved ls gmt t [] s v = v.0
in_force-IsResolved ls gmt t (u ∷ us) s v = elim (Bool-cases (comp gmt s u)) [
  | inl e ↦ rw e v.0
  | inr e ↦ rw e (in_force-IsResolved ls gmt u us s v.1)
]

in_force-passed :
    (t : Transition) (us : List Transition) (s : Transition)
    → comp true s t ≡ false
    → comp true s (in_force true t us s) ≡ false
in_force-passed t [] s e = e
in_force-passed t (u ∷ us) s e = elim (Bool-cases (comp true s u)) [
  | inl later ↦ rw later e
  | inr still ↦ rw still (in_force-passed u us s still)
]

not_before : (s g o : ℤ) → ltb_ℤ s g ≡ false → ltb_ℤ (s +ℤ o) (g +ℤ o) ≡ false
not_before s g o h = ground (arith, +ℤ_parts s o, +ℤ_parts g o)

-- Both searches find the local time `l`, if the first does.
found-clear :
    (d : Data) (s : ℤ) (l : Localtime)
    → IsData d
    → IsOrdered true d.transitions
    → IsOrdered false d.transitions
    → find_localtime d (at_gmt s) true ≡ some l
    → IsClear s (s +ℤ l.gmt_offset) d.transitions
    → find_localtime d (at_local (s +ℤ l.gmt_offset)) false ≡ some l
found-clear d s l v o p e c =
    find_localtime-in_force d (at_local (s +ℤ l.gmt_offset)) false p
    ∙ ap (get_elem? d.localtimes) (
        sym (
          index_in_force-Agree s (s +ℤ l.gmt_offset) d.transitions
            (agree d.transitions v o p here c)))
    ∙ here
  where
    here : get_elem? d.localtimes (index_in_force true d.transitions (at_gmt s)) ≡ some l
    here = sym (find_localtime-in_force d (at_gmt s) true o) ∙ e

    agree :
        (ts : List Transition)
        → AreResolved d.localtimes ts
        → IsOrdered true ts
        → IsOrdered false ts
        → get_elem? d.localtimes (index_in_force true ts (at_gmt s)) ≡ some l
        → IsClear s (s +ℤ l.gmt_offset) ts
        → Agree s (s +ℤ l.gmt_offset) ts
    agree [] v o p e c = tt
    agree (t ∷ us) v o p e c = elim (Bool-cases (comp true (at_gmt s) t)) [
      | inl later ↦ later-Agree s (s +ℤ l.gmt_offset) t us o later c
      | inr still ↦
          let x = in_force true t us (at_gmt s) in
          let r = in_force-IsResolved d.localtimes true t us (at_gmt s) v in
          let passed = in_force-passed t us (at_gmt s) still in
          let there : get_elem? d.localtimes x.localtime_idx ≡ some l = rw still at e in
          let same : r.0 ≡ l = some-injective r.0 l (sym r.1 ∙ there) in
          let before : comp false (at_local (s +ℤ l.gmt_offset)) x ≡ false =
            subst (λ y. ltb_ℤ (s +ℤ l.gmt_offset) y ≡ false)
              (sym (r.2 ∙ ap (λ k. x.gmttime +ℤ k.gmt_offset) same))
              (not_before s x.gmttime l.gmt_offset passed) in
          let a = passed-Agree s (s +ℤ l.gmt_offset) t us o p still before c.1 in
          (still ∙ sym a.0, a.1)
    ]

-- The parts of a local time are those of UTC as many seconds later as its offset is.
to_local_time-parts :
    (gmtime : ℤ → Tm) (d : Data) (s : ℤ) (l : Localtime) (tm : Tm)
    → find_localtime d (at_gmt s) true ≡ some l
    → to_local_time gmtime (some d) s ≡ some tm
    → tm ≡ record (gmtime (s +ℤ l.gmt_offset)) {
      tm_isdst = l.is_dst;
      tm_gmtoff = l.gmt_offset;
      tm_zone = drop l.arrb_idx d.abbreviation;
    }
unfolding to_local_time
to_local_time-parts gmtime d s l tm e shown =
    elim (Bool-cases (leb l.arrb_idx (length d.abbreviation))) [
      | inl named ↦ sym (some-injective _ tm (rw (e, named) at shown))
      | inr unnamed ↦ absurd (none-ne-some tm (rw (e, unnamed) at shown))
    ]

-- At a time `s` that the zone's clock shows only once from then on, `fromLocalTime` takes back what `toLocalTime` makes of `s`,
-- in summer time as well: if each transition names a local time of the zone and has its offset, the transitions are in order
-- by both their times, and `timegm` takes back what `gmtime_r` makes of a time, whatever zone the result was given.
pub from_local_time-to_local_time_clear :
    (gmtime : ℤ → Tm) (timegm : Tm → ℤ) (d : Data) (s : ℤ) (l : Localtime) (tm : Tm)
    → IsData d
    → IsOrdered true d.transitions
    → IsOrdered false d.transitions
    → find_localtime d (at_gmt s) true ≡ some l
    → IsClear s (s +ℤ l.gmt_offset) d.transitions
    → ((t o : ℤ) (dst : Bool) (z : List ℕ)
        → timegm (record (gmtime t) { tm_isdst = dst; tm_gmtoff = o; tm_zone = z }) ≡ t)
    → to_local_time gmtime (some d) s ≡ some tm
    → from_local_time gmtime timegm (some d) tm ≡ some s
unfolding from_local_time
from_local_time-to_local_time_clear gmtime timegm d s l tm v o p e c back shown =
    let local = s +ℤ l.gmt_offset in
    let seconds : timegm tm ≡ local =
      ap timegm (to_local_time-parts gmtime d s l tm e shown)
      ∙ back local l.gmt_offset l.is_dst (drop l.arrb_idx d.abbreviation) in
    let found : find_localtime d (at_local (timegm tm)) false ≡ some l =
      ap (λ x. find_localtime d (at_local x) false) seconds ∙ found-clear d s l v o p e c in
    let cancelled : timegm tm -ℤ l.gmt_offset ≡ s =
      ap (λ x. x -ℤ l.gmt_offset) seconds ∙ +ℤ_cancel s l.gmt_offset in
    rw (found, cancelled, shown) (by_summer tm.tm_isdst cancelled)
  where
    by_summer :
        (b : Bool)
        → timegm tm -ℤ l.gmt_offset ≡ s
        → ((if b
              then some (not b && (eqb_ℤ tm.tm_hour tm.tm_hour && eqb_ℤ tm.tm_min tm.tm_min))
              else some false)
            >>= λ shifted.
                some ((if shifted then timegm tm -ℤ pos 3600 else timegm tm) -ℤ l.gmt_offset))
          ≡ some s
    by_summer true h = ap some h
    by_summer false h = ap some h
