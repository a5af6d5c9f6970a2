-- ===== src/LogFile/Names.antt =====
-- The names of the files that a `LogFile` opens one after another.
mod Examples
use multi_thread_log.Common.{
  ℕ, ◌≤◌, ◌<◌, ◌≡◌, ◌≢◌, refl, sym, ap, subst, ◌∙◌, Bool, true, Option, none, some, List, [], ◌∷◌,
  ◌++◌, ◌>>=◌, ltb, if◌then◌else◌, append_cancel, append_cancel_right, arith, inl, inr, Bool-cases,
  Option-cases, lt→ltb,
}
use multi_thread_log.Common.Decimal.{decimal, snprintf}
use multi_thread_log.FileUtil.AppendFile
use multi_thread_log.FileUtil.AppendFile.{AppendFile}
use multi_thread_log.LogFile.{
  Config, LogFile, Moment, close, get_log_file_name, roll_file, make, is_need_roll_file,
  append_unlock, append, flush,
}
use multi_thread_log.LogFile.Rolling.{Stays, is_need_roll_file-Stays}
use multi_thread_log.LogFile.Stored.{IsOpen, check_and_roll}

-- What the calls of a `LogFile` can come to that is made with `c` when the clock does not stand at 0.
pub data Reachable (c : Config) : LogFile → Type 0 where
  made : (now : ℕ) → 0 < now → Reachable c (make c now)
  appends :
      (l l' : LogFile) (logline : List ℕ) (m : Moment)
      → Reachable c l
      → append l logline m ≡ some l'
      → Reachable c l'
  flushes : (l l' : LogFile) → Reachable c l → flush l ≡ some l' → Reachable c l'

-- The names of all files that have been opened, the latest first.
abbrev pub closed_names : List (List ℕ × AppendFile) → List (List ℕ)
closed_names [] = []
closed_names ((name, f) ∷ cs) = name ∷ closed_names cs

abbrev pub opened_names : LogFile → List (List ℕ)
opened_names l = l.name ∷ closed_names l.closed

abbrev pub IsNotIn : List ℕ → List (List ℕ) → Type 0
IsNotIn name [] = Unit
IsNotIn name (other ∷ names) = (name ≢ other) × IsNotIn name names

abbrev pub AreDistinct : List (List ℕ) → Type 0
AreDistinct [] = Unit
AreDistinct (name ∷ names) = IsNotIn name names × AreDistinct names

-- Each closed file is named after an earlier second than the one after it.
AreNamed : Config → ℕ → List (List ℕ × AppendFile) → Type 0
AreNamed c bound [] = Unit
AreNamed c bound ((name, f) ∷ cs) =
    (t : ℕ) × (t < bound) × (name ≡ get_log_file_name c t) × AreNamed c t cs

record IsNamed (c : Config) (l : LogFile) : Type 0 where
  config_is : l.config ≡ c
  open_is : IsOpen l
  name_is : l.name ≡ get_log_file_name c l.last_roll
  closed_are : AreNamed c l.last_roll l.closed

roll_file-IsNamed :
    (c : Config) (l : LogFile) (now : ℕ) → IsNamed c l → IsNamed c (roll_file l now).0
unfolding roll_file close AreNamed
roll_file-IsNamed c l now v = elim (Bool-cases (ltb l.last_roll now)) [
  | inl e ↦ rw e (record {
    config_is = v.config_is;
    open_is = (AppendFile.make, refl);
    name_is = ap (λ c. get_log_file_name c now) v.config_is;
    closed_are =
        subst (λ f. AreNamed c now (close l.name f l.closed)) (sym v.open_is.1)
          (l.last_roll, ground arith, v.name_is, v.closed_are);
  })
  | inr e ↦ rw e v
]

-- The first roll, which has no file to close.
roll_file-first :
    (c : Config) (l : LogFile) (now : ℕ)
    → l.config ≡ c
    → l.file ≡ none
    → l.closed ≡ []
    → ltb l.last_roll now ≡ true
    → IsNamed c (roll_file l now).0
unfolding roll_file close AreNamed
roll_file-first c l now same no_file none_closed e = rw e (record {
  config_is = same;
  open_is = (AppendFile.make, refl);
  name_is = ap (λ c. get_log_file_name c now) same;
  closed_are = rw (no_file, none_closed) tt;
})

make-IsNamed : (c : Config) (now : ℕ) → 0 < now → IsNamed c (make c now)
unfolding make
make-IsNamed c now h = roll_file-first c _ now refl refl refl (lt→ltb 0 now h)

Stays-IsNamed :
    (c : Config) (l : LogFile) (f : AppendFile) (r : LogFile × Bool)
    → Stays l f r
    → IsNamed c l
    → IsNamed c r.0
Stays-IsNamed c l f r st v = record {
  config_is = st.config_same ∙ v.config_is;
  open_is = (st.after, st.open_is);
  name_is = st.name_same ∙ v.name_is ∙ ap (get_log_file_name c) (sym st.last_roll_same);
  closed_are =
      subst (λ n. AreNamed c n (r.0).closed) (sym st.last_roll_same)
        (subst (AreNamed c l.last_roll) (sym st.closed_same) v.closed_are);
}

check_and_roll-IsNamed :
    (c : Config) (l : LogFile) (g : AppendFile) (m : Moment)
    → IsNamed c l
    → IsNamed c (check_and_roll l g m)
check_and_roll-IsNamed c l g m v = elim (Bool-cases r.1) [
  | inl e ↦ rw e (roll_file-IsNamed c r.0 m.roll_time checked)
  | inr e ↦ rw e checked
]
  where
    r : LogFile × Bool
    r = is_need_roll_file (record l { file = some g }) g m.check_time

    checked : IsNamed c r.0
    checked =
        Stays-IsNamed c (record l { file = some g }) g r
          (is_need_roll_file-Stays (record l { file = some g }) g m.check_time refl)
          (record {
            config_is = v.config_is;
            open_is = (g, refl);
            name_is = v.name_is;
            closed_are = v.closed_are;
          })

Reachable-IsNamed : {c : Config} {l : LogFile} → Reachable c l → IsNamed c l
unfolding append append_unlock flush
Reachable-IsNamed {c} (made now h) = make-IsNamed c now h
Reachable-IsNamed {c} (appends l l' logline m r e) = elim (Option-cases l.file) [
  | inl closed ↦ absurd (cc (rw closed at e))
  | inr (f, is_open) ↦ elim (Option-cases (AppendFile.append f logline m.answers)) [
    | inl stuck ↦ absurd (cc (rw (is_open, stuck) at e))
    | inr (g, q) ↦
        let same : check_and_roll l g m ≡ l' = cc (rw (is_open, q) at e) in
        subst (IsNamed c) same (check_and_roll-IsNamed c l g m (Reachable-IsNamed r))
  ]
]
Reachable-IsNamed {c} (flushes l l' r e) =
    let v = Reachable-IsNamed r in
    let same : record l { file = some (AppendFile.flush (v.open_is).0) } ≡ l' =
      cc (rw (v.open_is).1 at e) in
    subst (IsNamed c) same (record {
      config_is = v.config_is;
      open_is = (AppendFile.flush (v.open_is).0, refl);
      name_is = v.name_is;
      closed_are = v.closed_are;
    })

-- Two seconds are printed differently, in the buffer of 32 bytes.
abbrev pub IsInjective : Config → Type 0
IsInjective c = (s t : ℕ) → snprintf 32 (c.strftime s) ≡ snprintf 32 (c.strftime t) → s ≡ t

get_log_file_name-injective :
    (c : Config) (s t : ℕ) → IsInjective c → get_log_file_name c s ≡ get_log_file_name c t → s ≡ t
unfolding get_log_file_name
get_log_file_name-injective c s t h e = h s t (
    append_cancel_right (snprintf 32 (c.strftime s)) (snprintf 32 (c.strftime t)) _
      (append_cancel c.basename _ _ e))

IsNotIn-AreNamed :
    (c : Config) (bound t : ℕ) (cs : List (List ℕ × AppendFile))
    → IsInjective c
    → bound ≤ t
    → AreNamed c bound cs
    → IsNotIn (get_log_file_name c t) (closed_names cs)
unfolding AreNamed
IsNotIn-AreNamed c bound t [] h k v = tt
IsNotIn-AreNamed c bound t ((name, f) ∷ cs) h k v = (
  λ e. let same = get_log_file_name-injective c t v.0 h (e ∙ v.2) in absurd (omega (arith, v.1)),
  IsNotIn-AreNamed c v.0 t cs h (omega (arith, v.1)) v.3,
)

AreDistinct-AreNamed :
    (c : Config) (bound : ℕ) (cs : List (List ℕ × AppendFile))
    → IsInjective c
    → AreNamed c bound cs
    → AreDistinct (closed_names cs)
unfolding AreNamed
AreDistinct-AreNamed c bound [] h v = tt
AreDistinct-AreNamed c bound ((name, f) ∷ cs) h v = (
  subst (λ n. IsNotIn n (closed_names cs)) (sym v.2)
      (IsNotIn-AreNamed c v.0 v.0 cs h (omega arith) v.3),
  AreDistinct-AreNamed c v.0 cs h v.3,
)

-- No two files of a `LogFile` have the same name, whatever its calls are and what the clock and `fwrite` answer, so that no
-- file is opened a second time: if it is made when the clock does not stand at 0, and `strftime` prints two seconds
-- differently in the first 31 characters.
pub Reachable-AreDistinct :
    {c : Config} {l : LogFile} → Reachable c l → IsInjective c → AreDistinct (opened_names l)
Reachable-AreDistinct {c} {l} r h =
    let v = Reachable-IsNamed r in
    (
      subst (λ n. IsNotIn n (closed_names l.closed)) (sym v.name_is)
          (IsNotIn-AreNamed c l.last_roll l.last_roll l.closed h (omega arith) v.closed_are),
      AreDistinct-AreNamed c l.last_roll l.closed h v.closed_are,
    )
