-- ===== src/Common/Atoi.antt =====
-- `atoi` and `isdigit` of the C library, on the bytes before a terminator.
pub mod Numbers
use multi_thread_log.Common.{
  ℕ, ◌+◌, ◌-◌, ◌*◌, Bool, true, false, ◌&&◌, ◌||◌, List, [], ◌∷◌, leb, ◌==◌, if◌then◌else◌,
}
use multi_thread_log.Common.Int.{ℤ, pos, ◌-ℤ◌}

abbrev pub is_digit : ℕ → Bool
is_digit c = leb b'0' c && leb c b'9'

abbrev pub starts_with_digit : List ℕ → Bool
starts_with_digit [] = false
starts_with_digit (c ∷ s) = is_digit c

-- `atoi`: blanks, a sign and digits.
unfoldable pub digits_value : ℕ → List ℕ → ℕ
digits_value acc [] = acc
digits_value acc (c ∷ s) =
    let rest = digits_value (acc * 10 + (c - b'0')) s in if is_digit c then rest else acc

abbrev pub is_blank : ℕ → Bool
is_blank c = (c == 32) || (leb 9 c && leb c 13)

unfoldable pub signed_value : List ℕ → ℤ
unfolding digits_value
signed_value [] = pos 0
signed_value (c ∷ s) =
    if c == b'-'
    then pos 0 -ℤ pos (digits_value 0 s)
    else if c == b'+'
    then pos (digits_value 0 s)
    else pos (digits_value 0 (c ∷ s))

unfoldable pub atoi : List ℕ → ℤ
unfolding signed_value
atoi [] = pos 0
atoi (c ∷ s) = let rest = atoi s in if is_blank c then rest else signed_value (c ∷ s)
