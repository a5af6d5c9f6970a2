-- ===== src/TimeZone/Zone/Reading/Kept.antt =====
-- What holds of the data of a zone however far the reading of its file gets.
use multi_thread_log.Common.{
  ℕ, zero, suc, ◌≡◌, refl, subst, Bool, true, false, Option, none, some, List, [], ◌∷◌, ◌++◌, leb,
  if◌then◌else◌, length, inl, inr, Bool-cases,
}
use multi_thread_log.Common.Lists.{get_elem?}
use multi_thread_log.Common.Int.{ℤ, pos, pos_part, ◌+ℤ◌, ltb_ℤ}
use multi_thread_log.TimeZone.Zone.{Transition, Localtime, Data, TimeZone, valid}
use multi_thread_log.TimeZone.Zone.Reading.{
  Outcome, undefined, throws, returns, Reader, then_read, ◌>>=◌, throw, read_bytes, read_int32,
  read_uint8, times, read_localtime, push_with, push_transition, push_transitions, read_body,
  is_magic, read_abbreviation, read_zone, caught, keep_or_reset, no_data, read_time_zone_file,
  make_from_file,
}

-- A transition names a local time of the zone, and its local clock is that much ahead.
abbrev pub IsResolved : List Localtime → Transition → Type 0
IsResolved ls t =
    (l : Localtime) × (get_elem? ls t.localtime_idx ≡ some l)
    × (t.localtime ≡ t.gmttime +ℤ l.gmt_offset)

abbrev pub AreResolved : List Localtime → List Transition → Type 0
AreResolved ls [] = Unit
AreResolved ls (t ∷ ts) = IsResolved ls t × AreResolved ls ts

abbrev pub IsData : Data → Type 0
IsData d = AreResolved d.localtimes d.transitions

abbrev Good : {A : Type 0} → Outcome A → Type 0
Good undefined = Unit
Good (throws d) = IsData d
Good (returns x bytes d) = IsData d

-- A part of the reading keeps the data in order.
abbrev Keeps : {A : Type 0} → Reader A → Type 0
Keeps r = (bytes : List ℕ) (d : Data) → IsData d → Good (r bytes d)

Keeps-then :
    {A B : Type 0} (r : Reader A) (k : A → Reader B)
    → Keeps r
    → ((x : A) → Keeps (k x))
    → Keeps (r >>= k)
Keeps-then {A} r k h g bytes d v = by_outcome (r bytes d) (h bytes d v)
  where
    by_outcome : (o : Outcome A) → Good o → Good (then_read o k)
    by_outcome undefined w = tt
    by_outcome (throws d') w = w
    by_outcome (returns x rest d') w = g x rest d' w

Keeps-if : {A : Type 0} (b : Bool) (r s : Reader A) → Keeps r → Keeps s → Keeps (if b then r else s)
Keeps-if true r s h g = h
Keeps-if false r s h g = g

Keeps-bytes : (n : ℕ) → Keeps (read_bytes n)
unfolding read_bytes
Keeps-bytes n bytes d v = elim (Bool-cases (leb n (length bytes))) [
  | inl e ↦ rw e v
  | inr e ↦ rw e v
]

Keeps-int32 : Keeps read_int32
unfolding read_int32
Keeps-int32 = Keeps-then (read_bytes 4) _ (Keeps-bytes 4) (λ x bytes d v. v)

Keeps-uint8 : Keeps read_uint8
unfolding read_uint8
Keeps-uint8 [] d v = v
Keeps-uint8 (x ∷ rest) d v = v

Keeps-times : {A : Type 0} (n : ℕ) (r : Reader A) → Keeps r → Keeps (times n r)
unfolding times
Keeps-times zero r h = λ bytes d v. v
Keeps-times (suc n) r h =
    Keeps-then r _ h (λ x. Keeps-then (times n r) _ (Keeps-times n r h) (λ xs bytes d v. v))

get_elem?-append_some :
    {A : Type 0} (xs ys : List A) (i : ℕ) (x : A)
    → get_elem? xs i ≡ some x
    → get_elem? (xs ++ ys) i ≡ some x
get_elem?-append_some [] ys i x e = absurd (cc e)
get_elem?-append_some (y ∷ xs) ys zero x e = e
get_elem?-append_some (y ∷ xs) ys (suc i) x e = get_elem?-append_some xs ys i x e

-- More local times leave the transitions resolved.
AreResolved-more :
    (ls more : List Localtime) (ts : List Transition)
    → AreResolved ls ts
    → AreResolved (ls ++ more) ts
AreResolved-more ls more [] v = tt
AreResolved-more ls more (t ∷ ts) v = (
  ((v.0).0, get_elem?-append_some ls more t.localtime_idx (v.0).0 (v.0).1, (v.0).2),
  AreResolved-more ls more ts v.1,
)

AreResolved-snoc :
    (ls : List Localtime) (ts : List Transition) (t : Transition)
    → AreResolved ls ts
    → IsResolved ls t
    → AreResolved ls (ts ++ t ∷ [])
AreResolved-snoc ls [] t v w = (w, tt)
AreResolved-snoc ls (u ∷ ts) t v w = (v.0, AreResolved-snoc ls ts t v.1 w)

Keeps-localtime : Keeps read_localtime
unfolding read_localtime
Keeps-localtime = Keeps-then read_int32 _ Keeps-int32 (λ gmtoff.
    Keeps-then read_uint8 _ Keeps-uint8 (λ isdst.
      Keeps-then read_uint8 _ Keeps-uint8
        (λ abbrind bytes d v. AreResolved-more d.localtimes _ d.transitions v)))

Keeps-push : (t : ℤ) (i : ℕ) → Keeps (push_transition t i)
unfolding push_transition push_with
Keeps-push t i bytes d v = by_localtime (get_elem? d.localtimes i) refl
  where
    by_localtime :
        (o : Option Localtime) → get_elem? d.localtimes i ≡ o → Good (push_with t i o bytes d)
    by_localtime none e = tt
    by_localtime (some l) e = AreResolved-snoc d.localtimes d.transitions _ v (l, e, refl)

Keeps-transitions : (ts : List ℤ) (idxs : List ℕ) → Keeps (push_transitions ts idxs)
unfolding push_transitions
Keeps-transitions [] idxs = λ bytes d v. v
Keeps-transitions (t ∷ ts) [] = λ bytes d v. tt
Keeps-transitions (t ∷ ts) (i ∷ idxs) =
    Keeps-then (push_transition t i) _ (Keeps-push t i) (λ pushed. Keeps-transitions ts idxs)

Keeps-abbreviation : (n : ℤ) → Keeps (read_abbreviation n)
unfolding read_abbreviation
Keeps-abbreviation n =
    Keeps-if (ltb_ℤ n (pos 0)) _ _ (λ bytes d v. tt)
      (Keeps-then (read_bytes (pos_part n)) _ (Keeps-bytes (pos_part n)) (λ names bytes d v. v))

Keeps-throw : (A : Type 0) → Keeps (throw {A = A})
Keeps-throw A bytes d v = v

Keeps-body : (timecnt typecnt charcnt : ℤ) → Keeps (read_body timecnt typecnt charcnt)
unfolding read_body
Keeps-body timecnt typecnt charcnt =
    Keeps-then _ _
      (Keeps-if (ltb_ℤ timecnt (pos 0)) throw (times (pos_part timecnt) read_int32)
        (Keeps-throw (List ℤ)) (Keeps-times (pos_part timecnt) read_int32 Keeps-int32))
      (λ trans.
        Keeps-then _ _ (Keeps-times (pos_part timecnt) read_uint8 Keeps-uint8) (λ localtimes.
          Keeps-then _ _ (Keeps-times (pos_part typecnt) read_localtime Keeps-localtime) (λ types.
            Keeps-then _ _ (Keeps-transitions trans localtimes)
              (λ pushed. Keeps-abbreviation charcnt))))

Keeps-zone : Keeps read_zone
unfolding read_zone
Keeps-zone = Keeps-then (read_bytes 4) _ (Keeps-bytes 4) (λ head.
    Keeps-then _ _
      (Keeps-if (is_magic head) (read_bytes 1) throw (Keeps-bytes 1) (Keeps-throw (List ℕ)))
      (λ version. Keeps-then (read_bytes 15) _ (Keeps-bytes 15) (λ unused.
        Keeps-then read_int32 _ Keeps-int32 (λ isgmtcnt.
          Keeps-then read_int32 _ Keeps-int32 (λ isstdcnt.
            Keeps-then read_int32 _ Keeps-int32 (λ leapcnt.
              Keeps-then read_int32 _ Keeps-int32 (λ timecnt.
                Keeps-then read_int32 _ Keeps-int32 (λ typecnt.
                  Keeps-then read_int32 _ Keeps-int32
                    (λ charcnt. Keeps-body timecnt typecnt charcnt)))))))))

abbrev IsMade : TimeZone → Type 0
IsMade tz = (valid tz ≡ true) × (d : Data) × (tz ≡ some d) × IsData d

IsMade-data :
    (d : Data) (tz : TimeZone) → IsData d → keep_or_reset (some (d, true)) ≡ some tz → IsMade tz
unfolding keep_or_reset valid
IsMade-data d tz v e = let same : some d ≡ tz = cc e in subst IsMade same (refl, d, refl, v)

IsMade-of_outcome :
    (o : Outcome Unit) (tz : TimeZone) → Good o → keep_or_reset (caught o) ≡ some tz → IsMade tz
unfolding keep_or_reset caught
IsMade-of_outcome undefined tz v e = absurd (cc e)
IsMade-of_outcome (throws d) tz v e = IsMade-data d tz v e
IsMade-of_outcome (returns u rest d) tz v e = IsMade-data d tz v e

-- Whatever a zone file holds, where it is cut short, and whether it can be opened at all: if the reading runs
-- into no undefined behaviour, the zone is made, is valid, and each of its transitions names one of its local
-- times, whose offset its local clock has.
pub make_from_file-IsData :
    (file : Option (List ℕ)) (tz : TimeZone)
    → make_from_file file ≡ some tz
    → (valid tz ≡ true) × (d : Data) × (tz ≡ some d) × IsData d
unfolding make_from_file read_time_zone_file
make_from_file-IsData none tz e = IsMade-data no_data tz tt e
make_from_file-IsData (some bytes) tz e =
    IsMade-of_outcome (read_zone bytes no_data) tz (Keeps-zone bytes no_data tt) e
