-- ===== src/Logging/Source/Basename.antt =====
-- `SourceFile` names the last part of the path, whichever constructor made it.
use multi_thread_log.Common.{
  ℕ, ◌-◌, ◌≡◌, ◌≢◌, ◌⊎◌, inl, inr, refl, sym, ap, subst, ◌∙◌, Option, none, some, List, [], ◌∷◌,
  ◌++◌, append_assoc, ◌==◌, if◌then◌else◌, length, length-append, arith, Bool-cases, ==_iff,
}
use multi_thread_log.Logging.Source.{SourceFile, strrchr, behind_slash, of_array, of_pointer}

abbrev pub IsFree : ℕ → List ℕ → Type 0
IsFree c [] = Unit
IsFree c (x ∷ s) = (x ≢ c) × IsFree c s

-- `r` is the rest from the last `c` on.
abbrev pub IsLast : List ℕ → ℕ → Option (List ℕ) → Type 0
IsLast s c none = IsFree c s
IsLast s c (some r) = (dir rest : List ℕ) × (s ≡ dir ++ c ∷ rest) × (r ≡ c ∷ rest) × IsFree c rest

IsLast-step :
    (x c : ℕ) (s : List ℕ) (r : Option (List ℕ))
    → IsLast s c r
    → IsLast (x ∷ s) c (elim r [ some t ↦ some t | none ↦ if x == c then some (x ∷ s) else none ])
IsLast-step x c s (some t) (dir, rest, e, u, f) = (x ∷ dir, rest, ap (λ s'. x ∷ s') e, u, f)
IsLast-step x c s none f = elim (Bool-cases (x == c)) [
  | inl e ↦ rw e ([], s, ap (λ y. y ∷ s) ((==_iff x c).0 e), ap (λ y. y ∷ s) ((==_iff x c).0 e), f)
  | inr e ↦ rw e (ground arith, f)
]

IsLast-strrchr : (s : List ℕ) (c : ℕ) → IsLast s c (strrchr s c)
unfolding strrchr
IsLast-strrchr [] c = tt
IsLast-strrchr (x ∷ s) c = IsLast-step x c s (strrchr s c) (IsLast-strrchr s c)

-- The characters are the path without the directories, which end in a slash if there are any.
pub record IsBasename (path : List ℕ) (f : SourceFile) : Type 0 where
  pub directories : List ℕ
  pub splits : path ≡ directories ++ f.chars
  pub ends : (directories ≡ []) ⊎ ((dir : List ℕ) × (directories ≡ dir ++ b'/' ∷ []))
  pub no_slash : IsFree b'/' f.chars
  pub size_is : f.size ≡ length f.chars

behind_slash-IsBasename :
    (s : List ℕ) (r : Option (List ℕ)) (n : ℕ)
    → IsLast s b'/' r
    → n ≡ length (behind_slash s r)
    → IsBasename s (record { chars = behind_slash s r; size = n })
unfolding behind_slash
behind_slash-IsBasename s none n f e = record {
  directories = [];
  splits = refl;
  ends = inl refl;
  no_slash = f;
  size_is = e;
}
behind_slash-IsBasename s (some r) n (dir, rest, split, u, f) e =
    subst
      (λ t.
        n ≡ length (behind_slash s (some t))
        → IsBasename s (record { chars = behind_slash s (some t); size = n }))
      (sym u)
      (λ e'. record {
        directories = dir ++ b'/' ∷ [];
        splits = split ∙ sym (append_assoc dir (b'/' ∷ []) rest);
        ends = inr (dir, refl);
        no_slash = f;
        size_is = e';
      })
      e

shrinks :
    (s : List ℕ) (r : Option (List ℕ))
    → IsLast s b'/' r
    → length s - (length s - length (behind_slash s r)) ≡ length (behind_slash s r)
unfolding behind_slash
shrinks s none f = omega arith
shrinks s (some r) (dir, rest, split, u, f) =
    rw (split, u) (omega (arith, length-append dir (b'/' ∷ rest)))

-- Both constructors of `SourceFile` leave the part of the path behind the last slash, and its length.
pub of_array-IsBasename :
    (path : List ℕ) → IsBasename path (of_array path) × IsBasename path (of_pointer path)
unfolding of_array of_pointer
of_array-IsBasename path =
    let last = IsLast-strrchr path b'/' in
    (
      behind_slash-IsBasename path (strrchr path b'/') _ last
          (shrinks path (strrchr path b'/') last),
      behind_slash-IsBasename path (strrchr path b'/') _ last refl,
    )
