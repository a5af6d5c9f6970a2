-- ===== src/Logging/Source.antt =====
-- `Logger::SourceFile`: the name of a file without its directories.
pub mod Basename
use multi_thread_log.Common.{
  ℕ, ◌-◌, ◌≡◌, Option, none, some, List, [], ◌∷◌, ◌++◌, ◌==◌, if◌then◌else◌, length,
}

-- `chars` is what `data_` points to, up to the terminator.
pub record SourceFile : Type 0 where
  pub chars : List ℕ
  pub size : ℕ

-- `strrchr`: the rest of the text from the last `c` on.
unfoldable pub strrchr : List ℕ → ℕ → Option (List ℕ)
strrchr [] c = none
strrchr (x ∷ xs) c = elim (strrchr xs c) [
  | some r ↦ some r
  | none ↦ if x == c then some (x ∷ xs) else none
]

-- `slash + 1`, if there is a slash.
unfoldable pub behind_slash : List ℕ → Option (List ℕ) → List ℕ
behind_slash s none = s
behind_slash s (some []) = s
behind_slash s (some (slash ∷ rest)) = rest

-- From an array, given up to its terminator: the size, `N - 1` at first, shrinks by `data_ - arr`.
unfoldable pub of_array : List ℕ → SourceFile
unfolding strrchr behind_slash
of_array arr =
    let chars = behind_slash arr (strrchr arr b'/') in
    record { chars = chars; size = length arr - (length arr - length chars) }

-- From a pointer: the size is measured by `strlen`.
unfoldable pub of_pointer : List ℕ → SourceFile
unfolding strrchr behind_slash
of_pointer filename =
    let chars = behind_slash filename (strrchr filename b'/') in
    record { chars = chars; size = length chars }
