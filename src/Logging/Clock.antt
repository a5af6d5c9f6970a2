-- ===== src/Logging/Clock.antt =====
-- The text of the second that `formatTime` keeps for the thread.
use multi_thread_log.Common.{
  ◌+◌, ◌≡◌, ◌⊎◌, inl, inr, refl, sym, ap, ap₂, ◌∙◌, Bool-cases, true, false, Option, some,
  if◌then◌else◌, ==_iff,
}
use mathlib.Core.Option.{some-injective}
use multi_thread_log.Common.Decimal.{snprintf}
use multi_thread_log.Common.Int.{ℤ, pos_part, neg_part, eq_of_parts, eqb_ℤ}
use multi_thread_log.TimeZone.{Tm}
use multi_thread_log.TimeZone.Zone.{TimeZone, valid, to_local_time}
use multi_thread_log.Timestamp.{print_tm}
use multi_thread_log.Logging.Impl.{Env, ThreadState, refresh_time}

-- The fields of second `s`: local time if there is a zone, else UTC.
abbrev pub clock_time : Env → TimeZone → ℤ → Option Tm
clock_time env tz s = if valid tz then to_local_time env.gmtime tz s else some (env.gmtime s)

-- The thread's text is that of its last second in the zone.
abbrev pub IsShown : Env → TimeZone → ThreadState → Type 0
IsShown env tz th =
    (tm : Tm) × (clock_time env tz th.last_second ≡ some tm)
    × (th.time_text ≡ snprintf 64 (print_tm tm))

eqb_ℤ_iff : (a b : ℤ) → (eqb_ℤ a b ≡ true) → a ≡ b
eqb_ℤ_iff a b e = eq_of_parts a b ((==_iff (pos_part a + neg_part b) (pos_part b + neg_part a)).0 e)

-- Where the text shows the last second, or another second is asked for, afterwards it shows the second asked for.
pub refresh_time-IsShown :
    (env : Env) (tz : TimeZone) (s : ℤ) (th : ThreadState) (tm : Tm)
    → clock_time env tz s ≡ some tm
    → IsShown env tz th ⊎ (eqb_ℤ s th.last_second ≡ false)
    → refresh_time env tz s th
      ≡ some (record th { last_second = s; time_text = snprintf 64 (print_tm tm) })
unfolding refresh_time
refresh_time-IsShown env tz s th tm clock (inr other) = rw (other, clock) refl
refresh_time-IsShown env tz s th tm clock (inl (tm', clock', text)) =
    elim (Bool-cases (eqb_ℤ s th.last_second)) [
      | inr other ↦ rw (other, clock) refl
      | inl again ↦
          let same = eqb_ℤ_iff s th.last_second again in
          let known : tm' ≡ tm =
            some-injective tm' tm (sym clock' ∙ ap (clock_time env tz) (sym same) ∙ clock) in
          let shown : th.time_text ≡ snprintf 64 (print_tm tm) =
            text ∙ ap (λ m. snprintf 64 (print_tm m)) known in
          rw again
            (ap₂ (λ t l. some (record th { time_text = t; last_second = l })) shown (sym same))
    ]

-- What was shown in one zone is kept for the rest of the second, also when the zone has been replaced.
pub refresh_time-keeps :
    (env : Env) (tz other : TimeZone) (s : ℤ) (th : ThreadState)
    → th.last_second ≡ s
    → refresh_time env other s th ≡ refresh_time env tz s th
unfolding refresh_time
refresh_time-keeps env tz other s th e =
    rw (sym e, (==_iff (pos_part th.last_second + neg_part th.last_second) _).1 refl) refl
