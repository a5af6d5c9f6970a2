-- ===== src/ProcessInfo/Find.antt =====
-- Where a character is found.
use multi_thread_log.Common.{ℕ, ◌≡◌, refl, none, some, List, [], ◌∷◌, ◌++◌, length, ==_iff, ne→==}
use multi_thread_log.Logging.Source.Basename.{IsFree}
use multi_thread_log.ProcessInfo.{find_char, rfind_char}

-- The first one is behind what is free of it.
pub find_char-IsFree :
    (c : ℕ) (before after : List ℕ)
    → IsFree c before
    → find_char c (before ++ c ∷ after) ≡ some (length before)
unfolding find_char
find_char-IsFree c [] after h = rw ((==_iff c c).1 refl) refl
find_char-IsFree c (x ∷ before) after (h, k) =
    rw (ne→== x c h, find_char-IsFree c before after k) refl

rfind_char-none : (c : ℕ) (s : List ℕ) → IsFree c s → rfind_char c s ≡ none
unfolding rfind_char
rfind_char-none c [] h = refl
rfind_char-none c (x ∷ s) (h, k) = rw (rfind_char-none c s k, ne→== x c h) refl

-- The last one is before what is free of it.
pub rfind_char-IsFree :
    (c : ℕ) (before after : List ℕ)
    → IsFree c after
    → rfind_char c (before ++ c ∷ after) ≡ some (length before)
unfolding rfind_char
rfind_char-IsFree c [] after h = rw (rfind_char-none c after h, (==_iff c c).1 refl) refl
rfind_char-IsFree c (x ∷ before) after h = rw (rfind_char-IsFree c before after h) refl
