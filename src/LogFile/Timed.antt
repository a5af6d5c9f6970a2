-- ===== src/LogFile/Timed.antt =====
-- The times that a `LogFile` keeps are in order.
use multi_thread_log.Common.{
  ℕ, ◌*◌, ◌/◌, ◌≤◌, ◌<◌, ◌≡◌, subst, some, List, arith, inl, inr, Bool-cases, Option-cases,
}
use multi_thread_log.FileUtil.AppendFile
use multi_thread_log.FileUtil.AppendFile.{AppendFile}
use multi_thread_log.LogFile.{
  LogFile, Moment, k_roll_per_seconds, roll_file, is_need_roll_file, append_unlock, append,
}
use multi_thread_log.LogFile.Stored.{check_and_roll}

-- The day of a time, as the second it begins with.
abbrev pub day_start : ℕ → ℕ
day_start t = t / k_roll_per_seconds * k_roll_per_seconds

-- The clocks of a `LogFile`: the period is the day of the last roll, a flush is noted no earlier than
-- the roll, and the count of calls stays below its limit.
pub record IsTimed (l : LogFile) : Type 0 where
  pub period : l.start_of_period ≡ day_start l.last_roll
  pub flushed : l.last_roll ≤ l.last_flush
  pub counted : l.count < l.check_every_n

pub roll_file-IsTimed : (l : LogFile) (now : ℕ) → IsTimed l → IsTimed (roll_file l now).0
unfolding roll_file
roll_file-IsTimed l now v = ground arith

pub is_need_roll_file-IsTimed :
    (l : LogFile) (f : AppendFile) (now : ℕ) → IsTimed l → IsTimed (is_need_roll_file l f now).0
unfolding is_need_roll_file
is_need_roll_file-IsTimed l f now v = ground arith

pub check_and_roll-IsTimed :
    (l : LogFile) (g : AppendFile) (m : Moment) → IsTimed l → IsTimed (check_and_roll l g m)
check_and_roll-IsTimed l g m v =
    elim (Bool-cases (is_need_roll_file (record l { file = some g }) g m.check_time).1) [
      | inl e ↦ rw e (roll_file-IsTimed _ m.roll_time w)
      | inr e ↦ rw e w
    ]
  where
    w : IsTimed (is_need_roll_file (record l { file = some g }) g m.check_time).0
    w =
        is_need_roll_file-IsTimed (record l { file = some g }) g m.check_time
          (record { period = v.period; flushed = v.flushed; counted = v.counted })

-- If the clocks are in order, a call of `append` that returns keeps them so.
pub append-IsTimed :
    (l l' : LogFile) (logline : List ℕ) (m : Moment)
    → IsTimed l
    → append l logline m ≡ some l'
    → IsTimed l'
unfolding append append_unlock
append-IsTimed l l' logline m v e = elim (Option-cases l.file) [
  | inl closed ↦ absurd (cc (rw closed at e))
  | inr (f, is_open) ↦ elim (Option-cases (AppendFile.append f logline m.answers)) [
    | inl stuck ↦ absurd (cc (rw (is_open, stuck) at e))
    | inr (g, q) ↦
        let same : check_and_roll l g m ≡ l' = cc (rw (is_open, q) at e) in
        subst IsTimed same (check_and_roll-IsTimed l g m v)
  ]
]
