-- ===== src/LogFile/Stored.antt =====
-- What the files of a `LogFile` hold together.
use multi_thread_log.Common.{
  ℕ, ◌+◌, ◌*◌, ◌/◌, ◌≤◌, ◌≡◌, refl, sym, ap, subst, ◌∙◌, Bool, Option, none, some, List, [], ◌∷◌,
  ◌++◌, append-nil, append_assoc, ltb, leb, ◌==◌, not, if◌then◌else◌, length, take, inl, inr,
  Bool-cases, Option-cases,
}
use multi_thread_log.FileUtil.AppendFile
use multi_thread_log.FileUtil.AppendFile.{AppendFile}
use multi_thread_log.FileUtil.AppendFile.Looping.{AllGood}
use multi_thread_log.FileUtil.AppendFile.Written.{append_prefix, append_whole}
use multi_thread_log.LogFile.{
  LogFile, Moment, k_roll_per_seconds, roll_file, is_need_roll_file, append_unlock, append, close,
}

-- The bytes of the closed files, the oldest first, and then those of the current one.
abbrev pub closed_bytes : List (List ℕ × AppendFile) → List ℕ
closed_bytes [] = []
closed_bytes ((name, f) ∷ cs) = closed_bytes cs ++ f.file

abbrev pub file_bytes : Option AppendFile → List ℕ
file_bytes none = []
file_bytes (some f) = f.file

abbrev pub stored : LogFile → List ℕ
stored l = closed_bytes l.closed ++ file_bytes l.file

abbrev pub IsOpen : LogFile → Type 0
IsOpen l = (f : AppendFile) × (l.file ≡ some f)

close-bytes :
    (name : List ℕ) (f : Option AppendFile) (closed : List (List ℕ × AppendFile))
    → closed_bytes (close name f closed) ≡ closed_bytes closed ++ file_bytes f
unfolding close
close-bytes name none closed = sym (append-nil _)
close-bytes name (some f) closed = refl

-- Rolling moves bytes from the current file to the closed ones, and loses none.
pub roll_file-stored : (l : LogFile) (now : ℕ) → stored (roll_file l now).0 ≡ stored l
unfolding roll_file
roll_file-stored l now = elim (Bool-cases (ltb l.last_roll now)) [
  | inl e ↦ rw e (append-nil _ ∙ close-bytes l.name l.file l.closed)
  | inr e ↦ rw e refl
]

pub roll_file-IsOpen : (l : LogFile) (now : ℕ) → IsOpen l → IsOpen (roll_file l now).0
unfolding roll_file
roll_file-IsOpen l now o = elim (Bool-cases (ltb l.last_roll now)) [
  | inl e ↦ rw e (AppendFile.make, refl)
  | inr e ↦ rw e o
]

-- The check for a roll may flush the file; it leaves its bytes as they are.
record Checked (l : LogFile) (f : AppendFile) (r : LogFile × Bool) : Type 0 where
  after : AppendFile
  open_is : (r.0).file ≡ some after
  bytes_same : after.file ≡ f.file
  closed_same : (r.0).closed ≡ l.closed

is_need_roll_file-Checked :
    (l : LogFile) (f : AppendFile) (now : ℕ)
    → l.file ≡ some f
    → Checked l f (is_need_roll_file l f now)
unfolding is_need_roll_file AppendFile.flush
is_need_roll_file-Checked l f now e = elim (Bool-cases (ltb l.roll_size f.writen_bytes)) [
  | inl a ↦ rw a (record { after = f; open_is = e; bytes_same = refl; closed_same = refl })
  | inr a ↦ elim (Bool-cases (leb l.check_every_n (l.count + 1))) [
    | inr b ↦ rw (a, b) (record { after = f; open_is = e; bytes_same = refl; closed_same = refl })
    | inl b ↦
        elim (Bool-cases
          (not (now / k_roll_per_seconds * k_roll_per_seconds == l.start_of_period))) [
            | inl c ↦
                rw (a, b, c)
                  (record { after = f; open_is = e; bytes_same = refl; closed_same = refl })
            | inr c ↦ elim (Bool-cases (ltb (l.last_flush + l.flush_interval) now)) [
              | inl d ↦
                  rw (a, b, c, d)
                    (record {
                      after = AppendFile.flush f;
                      open_is = refl;
                      bytes_same = refl;
                      closed_same = refl;
                    })
              | inr d ↦
                  rw (a, b, c, d)
                    (record { after = f; open_is = e; bytes_same = refl; closed_same = refl })
            ]
          ]
  ]
]

-- What follows the writing in `append_unlock`.
abbrev pub check_and_roll : LogFile → AppendFile → Moment → LogFile
check_and_roll l g m =
    let r = is_need_roll_file (record l { file = some g }) g m.check_time in
    if r.1 then (roll_file r.0 m.roll_time).0 else r.0

pub check_and_roll-stored :
    (l : LogFile) (g : AppendFile) (m : Moment)
    → (stored (check_and_roll l g m) ≡ closed_bytes l.closed ++ g.file)
      × IsOpen (check_and_roll l g m)
check_and_roll-stored l g m = elim (Bool-cases r.1) [
  | inl e ↦ rw e (
    roll_file-stored r.0 m.roll_time ∙ kept,
    roll_file-IsOpen r.0 m.roll_time (c.after, c.open_is),
  )
  | inr e ↦ rw e (kept, (c.after, c.open_is))
]
  where
    r : LogFile × Bool
    r = is_need_roll_file (record l { file = some g }) g m.check_time

    c : Checked (record l { file = some g }) g r
    c = is_need_roll_file-Checked (record l { file = some g }) g m.check_time refl

    kept : stored r.0 ≡ closed_bytes l.closed ++ g.file
    kept =
        ap (λ cs. closed_bytes cs ++ file_bytes (r.0).file) c.closed_same
        ∙ ap (λ f. closed_bytes l.closed ++ file_bytes f) c.open_is
        ∙ ap (λ t. closed_bytes l.closed ++ t) c.bytes_same

stored_with :
    (l : LogFile) (f g : AppendFile) (t : List ℕ)
    → l.file ≡ some f
    → g.file ≡ f.file ++ t
    → closed_bytes l.closed ++ g.file ≡ stored l ++ t
stored_with l f g t e h =
    ap (λ bs. closed_bytes l.closed ++ bs) h
    ∙ sym (append_assoc (closed_bytes l.closed) f.file t)
    ∙ ap (λ p. (closed_bytes l.closed ++ file_bytes p) ++ t) (sym e)

-- If a file is open, no `fwrite` fails or takes nothing, and there is an answer for each byte, a call of `append`
-- puts the whole line behind all that was stored, over however many files, and leaves a file open.
pub append-stored :
    (l : LogFile) (logline : List ℕ) (m : Moment)
    → IsOpen l
    → AllGood m.answers
    → length logline ≤ length m.answers
    → (l' : LogFile) × (append l logline m ≡ some l')
      × (stored l' ≡ stored l ++ logline)
      × IsOpen l'
unfolding append append_unlock
append-stored l logline m (f, e) good enough =
    let w = append_whole f logline m.answers good enough in
    let c = check_and_roll-stored l w.0 m in
    (check_and_roll l w.0 m, rw e (rw w.1), c.0 ∙ stored_with l f w.0 logline e w.2, c.1)

-- Whatever `fwrite` answers, a call that returns adds a prefix of the line, and changes no byte that
-- was stored before.
pub append-stored_prefix :
    (l l' : LogFile) (logline : List ℕ) (m : Moment)
    → append l logline m ≡ some l'
    → (n : ℕ) × (stored l' ≡ stored l ++ take n logline) × IsOpen l'
unfolding append append_unlock
append-stored_prefix l l' logline m e = elim (Option-cases l.file) [
  | inl closed ↦ absurd (cc (rw closed at e))
  | inr (f, is_open) ↦ elim (Option-cases (AppendFile.append f logline m.answers)) [
    | inl stuck ↦ absurd (cc (rw (is_open, stuck) at e))
    | inr (g, q) ↦
        let w = append_prefix f g logline m.answers q in
        let c = check_and_roll-stored l g m in
        let same : check_and_roll l g m ≡ l' = cc (rw (is_open, q) at e) in
        subst (λ x. (n : ℕ) × (stored x ≡ stored l ++ take n logline) × IsOpen x) same
          (w.0, c.0 ∙ stored_with l f g (take w.0 logline) is_open w.2, c.1)
  ]
]
