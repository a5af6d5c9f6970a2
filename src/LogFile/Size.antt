-- ===== src/LogFile/Size.antt =====
-- How long the files of a `LogFile` become.
mod Examples
use multi_thread_log.Common.{
  ℕ, true, ltb, none, [], ◌+◌, ◌≤◌, ◌<◌, ◌≡◌, ◌⊎◌, refl, sym, ap, subst, ◌∙◌, some, List, ◌++◌,
  ◌>>=◌, take, inl, inr, length, length-append, length-take, arith, Option-cases, lt→ltb,
}
use mathlib.Core.Option.{some-injective}
use multi_thread_log.FileUtil.AppendFile
use multi_thread_log.FileUtil.AppendFile.{AppendFile}
use multi_thread_log.FileUtil.AppendFile.Written.{append_prefix}
use multi_thread_log.LogFile.{
  Config, LogFile, Moment, roll_file, make, append_unlock, append, flush,
}
use multi_thread_log.LogFile.Names.{Reachable, made, appends, flushes}
use multi_thread_log.LogFile.Rolling.{Rolled, Continued, check_and_roll_cases, append_bounded}
use multi_thread_log.LogFile.Stored.{check_and_roll}

-- The file that is open has no more bytes than are counted.
record IsCounted (l : LogFile) : Type 0 where
  current : AppendFile
  open_is : l.file ≡ some current
  counted : length current.file ≤ current.writen_bytes

append-counted :
    (f g : AppendFile) (logline : List ℕ) (m : Moment)
    → AppendFile.append f logline m.answers ≡ some g
    → length f.file ≤ f.writen_bytes
    → length g.file ≤ g.writen_bytes
append-counted f g logline m e h =
    let w = append_prefix f g logline m.answers e in
    omega (
      arith,
      ap length w.2,
      length-append f.file (take w.0 logline),
      length-take w.0 logline,
      w.1,
      w.3,
    )

check_and_roll-IsCounted :
    (l : LogFile) (g : AppendFile) (m : Moment)
    → length g.file ≤ g.writen_bytes
    → IsCounted (check_and_roll l g m)
check_and_roll-IsCounted l g m h = elim (check_and_roll_cases l g m) [
  | inl r ↦ record { current = AppendFile.make; open_is = r.empty; counted = omega arith }
  | inr c ↦ record {
    current = c.current;
    open_is = c.open_is;
    counted = omega (arith, ap length c.same_bytes, c.same_count);
  }
]

roll_file-IsCounted :
    (l : LogFile) (now : ℕ) → ltb l.last_roll now ≡ true → IsCounted (roll_file l now).0
unfolding roll_file
roll_file-IsCounted l now e =
    rw e (record { current = AppendFile.make; open_is = refl; counted = omega arith })

make-IsCounted : (c : Config) (now : ℕ) → 0 < now → IsCounted (make c now)
unfolding make
make-IsCounted c now h =
    roll_file-IsCounted
      (record {
        config = c;
        count = 0;
        start_of_period = 0;
        last_roll = 0;
        last_flush = 0;
        file = none;
        name = [];
        closed = [];
      })
      now (lt→ltb 0 now h)

Reachable-IsCounted : {c : Config} {l : LogFile} → Reachable c l → IsCounted l
unfolding append append_unlock flush AppendFile.flush
Reachable-IsCounted {c} (made now h) = make-IsCounted c now h
Reachable-IsCounted (appends l l' logline m r e) =
    let v = Reachable-IsCounted r in
    elim (Option-cases (AppendFile.append v.current logline m.answers)) [
      | inl stuck ↦ absurd (cc (rw (v.open_is, stuck) at e))
      | inr (g, q) ↦
          let same : check_and_roll l g m ≡ l' = cc (rw (v.open_is, q) at e) in
          subst IsCounted same
            (check_and_roll-IsCounted l g m (append-counted v.current g logline m q v.counted))
    ]
Reachable-IsCounted (flushes l l' r e) =
    let v = Reachable-IsCounted r in
    let same : record l { file = some (AppendFile.flush v.current) } ≡ l' =
      cc (rw v.open_is at e) in
    subst IsCounted same
      (record { current = AppendFile.flush v.current; open_is = refl; counted = v.counted })

-- After any calls of a `LogFile`, a call of `append` whose writing ends, in a later second than that of the last roll, leaves
-- a file open that has at most `roll_size` bytes, whatever `fwrite` took or failed to take.
pub Reachable-append_within :
    {c : Config} {l : LogFile}
    → Reachable c l
    → (f g : AppendFile) (logline : List ℕ) (m : Moment) → l.file ≡ some f
    → AppendFile.append f logline m.answers ≡ some g
    → l.last_roll < m.roll_time
    → (l' : LogFile) × (h : AppendFile) × (append l logline m ≡ some l')
      × (l'.file ≡ some h)
      × (length h.file ≤ l.roll_size)
Reachable-append_within {c} {l} r f g logline m e w late =
    let b = append_bounded l f g logline m e w late in
    let v = Reachable-IsCounted (appends l b.0 logline m r b.2) in
    let same : v.current ≡ b.1 = some-injective v.current b.1 (sym v.open_is ∙ b.3) in
    (
      b.0,
      b.1,
      b.2,
      b.3,
      omega (arith, b.4, v.counted, ap (λ h. length h.file) same, ap (λ h. h.writen_bytes) same),
    )
