-- ===== src/LogFile/Rolling.antt =====
-- When a `LogFile` changes its file.
use multi_thread_log.Common.{
  ℕ, ◌+◌, ◌*◌, ◌/◌, ◌≤◌, ◌<◌, ◌≡◌, ◌≢◌, ◌⊎◌, ◌↔◌, refl, ap, Bool, true, false, some, List, ◌∷◌, ltb,
  leb, ◌==◌, not, if◌then◌else◌, arith, inl, inr, Bool-cases, lt→ltb, le→ltb, dec_lt,
}
use multi_thread_log.FileUtil.AppendFile
use multi_thread_log.FileUtil.AppendFile.{AppendFile}
use multi_thread_log.LogFile.{
  LogFile, Moment, k_roll_per_seconds, roll_file, is_need_roll_file, append_unlock, append, close,
  get_log_file_name,
}
use multi_thread_log.LogFile.Stored.{check_and_roll}
use multi_thread_log.LogFile.Timed.{day_start}

-- A roll is called for exactly if the file has outgrown its limit, or if a check is due and
-- the day is another than that of the last roll.
pub is_need_roll_file_iff :
    (l : LogFile) (f : AppendFile) (now : ℕ)
    → ((is_need_roll_file l f now).1 ≡ true) ↔ (
        (l.roll_size < f.writen_bytes)
        ⊎ ((l.check_every_n ≤ l.count + 1) × (day_start now ≢ l.start_of_period)))
unfolding is_need_roll_file
is_need_roll_file_iff l f now = (λ h. ground arith, λ h. ground arith)

-- What the check leaves alone, and the file that it leaves if it calls for no roll.
pub record Stays (l : LogFile) (f : AppendFile) (r : LogFile × Bool) : Type 0 where
  pub config_same : (r.0).config ≡ l.config
  pub last_roll_same : (r.0).last_roll ≡ l.last_roll
  pub name_same : (r.0).name ≡ l.name
  pub closed_same : (r.0).closed ≡ l.closed
  pub after : AppendFile
  pub open_is : (r.0).file ≡ some after
  same_bytes : after.file ≡ f.file
  same_count : after.writen_bytes ≡ f.writen_bytes

after_check : LogFile → AppendFile → ℕ → AppendFile
after_check l f now =
    if ltb l.roll_size f.writen_bytes
    then f
    else if leb l.check_every_n (l.count + 1)
    then (if not (now / k_roll_per_seconds * k_roll_per_seconds == l.start_of_period)
        then f
        else if ltb (l.last_flush + l.flush_interval) now
        then AppendFile.flush f
        else f)
    else f

pub is_need_roll_file-Stays :
    (l : LogFile) (f : AppendFile) (now : ℕ)
    → l.file ≡ some f
    → Stays l f (is_need_roll_file l f now)
unfolding is_need_roll_file after_check AppendFile.flush
is_need_roll_file-Stays l f now e = record {
  config_same = ground arith;
  last_roll_same = ground arith;
  name_same = ground arith;
  closed_same = ground arith;
  after = after_check l f now;
  open_is = ground arith;
  same_bytes = ground arith;
  same_count = ground arith;
}

module _ (l : LogFile) (g : AppendFile) (m : Moment) where
  checked : LogFile × Bool
  checked = is_need_roll_file (record l { file = some g }) g m.check_time

  stays : Stays (record l { file = some g }) g checked
  unfolding checked
  stays = is_need_roll_file-Stays (record l { file = some g }) g m.check_time refl

  -- A call replaced the file by an empty one, and closed the old one with all its bytes.
  pub record Rolled (l' : LogFile) : Type 0 where
    pub old : AppendFile
    pub empty : l'.file ≡ some AppendFile.make
    pub named : l'.name ≡ get_log_file_name l.config m.roll_time
    pub kept : l'.closed ≡ (l.name, old) ∷ l.closed
    pub old_bytes : old.file ≡ g.file
    pub rolled_at : l'.last_roll ≡ m.roll_time
    pub day_is : l'.start_of_period ≡ day_start m.roll_time

  -- A call went on with the file that it wrote to.
  pub record Continued (l' : LogFile) : Type 0 where
    pub current : AppendFile
    pub open_is : l'.file ≡ some current
    pub same_bytes : current.file ≡ g.file
    pub same_count : current.writen_bytes ≡ g.writen_bytes
    pub kept : l'.closed ≡ l.closed

  continued : Continued checked.0
  continued = record {
    current = stays.after;
    open_is = stays.open_is;
    same_bytes = stays.same_bytes;
    same_count = stays.same_count;
    kept = stays.closed_same;
  }

  roll_now : l.last_roll < m.roll_time → Rolled (roll_file checked.0 m.roll_time).0
  unfolding roll_file close
  roll_now h =
      rw (lt→ltb (checked.0).last_roll m.roll_time (omega (arith, stays.last_roll_same))) (record {
        old = stays.after;
        empty = refl;
        named = ap (λ c. get_log_file_name c m.roll_time) stays.config_same;
        kept = rw (stays.open_is, stays.name_same, stays.closed_same);
        old_bytes = stays.same_bytes;
        rolled_at = refl;
        day_is = refl;
      })

  roll_late : m.roll_time ≤ l.last_roll → Continued (roll_file checked.0 m.roll_time).0
  unfolding roll_file
  roll_late h =
      rw (le→ltb (checked.0).last_roll m.roll_time (omega (arith, stays.last_roll_same))) continued

  check_rolls : checked.1 ≡ true → l.last_roll < m.roll_time → Rolled (check_and_roll l g m)
  unfolding checked
  check_rolls e h = rw e (roll_now h)

  check_continues :
      (checked.1 ≡ false) ⊎ (m.roll_time ≤ l.last_roll) → Continued (check_and_roll l g m)
  unfolding checked
  check_continues (inl e) = rw e continued
  check_continues (inr h) = elim (Bool-cases checked.1) [
    | inl e ↦ rw e (roll_late h)
    | inr e ↦ rw e continued
  ]

  pub check_and_roll_cases : Rolled (check_and_roll l g m) ⊎ Continued (check_and_roll l g m)
  unfolding checked
  check_and_roll_cases = elim (Bool-cases checked.1) [
    | inr e ↦ inr (check_continues (inl e))
    | inl e ↦ elim (dec_lt l.last_roll m.roll_time) [
      | yes h ↦ inl (check_rolls e h)
      | no h ↦ inr (check_continues (inr (omega (arith, h))))
    ]
  ]

-- A file is due for replacement after a call that has made it `g`.
abbrev pub IsDue : LogFile → AppendFile → ℕ → Type 0
IsDue l g now =
    (l.roll_size < g.writen_bytes)
    ⊎ ((l.check_every_n ≤ l.count + 1) × (day_start now ≢ l.start_of_period))

module _ (l : LogFile) (f g : AppendFile) (logline : List ℕ) (m : Moment)
    (is_open : l.file ≡ some f) (wrote : AppendFile.append f logline m.answers ≡ some g) where
  append-check : append l logline m ≡ some (check_and_roll l g m)
  unfolding append append_unlock
  append-check = rw (is_open, wrote)

  -- If the file is due, and the second of the last roll is over, `append` writes the line to the old file
  -- and opens a new one, named after the time of the roll.
  pub append_rolls :
      IsDue l g m.check_time
      → l.last_roll < m.roll_time
      → (l' : LogFile) × (append l logline m ≡ some l') × Rolled l g m l'
  unfolding checked
  append_rolls due h = (
    check_and_roll l g m,
    append-check,
    check_rolls l g m ((is_need_roll_file_iff _ g m.check_time).1 due) h,
  )

  -- If the file is not due, or the second of the last roll is not over, the file is kept.
  append_continues :
      (¬ IsDue l g m.check_time) ⊎ (m.roll_time ≤ l.last_roll)
      → (l' : LogFile) × (append l logline m ≡ some l') × Continued l g m l'
  unfolding checked
  append_continues (inr h) = (check_and_roll l g m, append-check, check_continues l g m (inr h))
  append_continues (inl young) =
      (check_and_roll l g m, append-check, check_continues l g m (inl (not_due young)))
    where
      not_due : (¬ IsDue l g m.check_time) → (checked l g m).1 ≡ false
      not_due calm = elim (Bool-cases (checked l g m).1) [
        | inl e ↦ absurd (calm ((is_need_roll_file_iff _ g m.check_time).0 e))
        | inr e ↦ e
      ]

  -- After a call whose writing ended, in a later second than that of the last roll, the count of the current file
  -- is within `roll_size`.
  pub append_bounded :
      l.last_roll < m.roll_time
      → (l' : LogFile) × (h : AppendFile) × (append l logline m ≡ some l')
        × (l'.file ≡ some h)
        × (h.writen_bytes ≤ l.roll_size)
  unfolding checked
  append_bounded h = elim (Bool-cases (checked l g m).1) [
    | inl e ↦
        let r = check_rolls l g m e h in
        (check_and_roll l g m, AppendFile.make, append-check, r.empty, omega arith)
    | inr e ↦
        let c = check_continues l g m (inl e) in
        (check_and_roll l g m, c.current, append-check, c.open_is, small c.current c.same_count e)
  ]
    where
      small :
          (h : AppendFile)
          → h.writen_bytes ≡ g.writen_bytes
          → (checked l g m).1 ≡ false
          → h.writen_bytes ≤ l.roll_size
      small h' same e = elim (dec_lt l.roll_size g.writen_bytes) [
        | yes big ↦ absurd (
            cc (e, (is_need_roll_file_iff (record l { file = some g }) g m.check_time).1 (inl big)))
        | no fits ↦ omega arith
      ]
