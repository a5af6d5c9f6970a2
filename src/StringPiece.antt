-- ===== src/StringPiece.antt =====
-- `StringPiece` of StringPiece.h: some bytes of memory, and how many. `none` is undefined behaviour.
pub mod Texts
pub mod Order
use multi_thread_log.Common.{
  ℕ, zero, suc, ◌+◌, ◌≤◌, ◌≡◌, Bool, true, false, not, ◌&&◌, ◌||◌, Option, none, some, List, [],
  ◌∷◌, ◌++◌, ltb, leb, ◌==◌, if◌then◌else◌, ◌>>=◌, length, take, drop,
}
use multi_thread_log.Common.Int.{ℤ, pos, negsuc, ◌-ℤ◌, ltb_ℤ, eqb_ℤ}
use multi_thread_log.LogStream.FixedBuffer.{c_string}

-- `ptr` is what can be read from `ptr_` on, nothing for the null pointer.
pub record StringPiece : Type 0 where
  pub ptr : List ℕ
  pub size : ℤ

-- The constructors: of nothing, of a C string, of a `string`, of which they take what is before the first zero byte, and
-- of so many bytes; `set` is as the constructors.
abbrev pub empty_piece : StringPiece
empty_piece = record { ptr = []; size = pos 0 }

unfoldable pub of_c_string : List ℕ → Option StringPiece
of_c_string str = c_string str >>= λ s. some (record { ptr = str; size = pos (length s) })

unfoldable pub of_string : List ℕ → Option StringPiece
unfolding of_c_string
of_string str = of_c_string (str ++ 0 ∷ [])

abbrev pub of_bytes : List ℕ → ℤ → StringPiece
of_bytes offset len = record { ptr = offset; size = len }

unfoldable pub empty : StringPiece → Bool
empty p = eqb_ℤ p.size (pos 0)

unfoldable pub clear : StringPiece → StringPiece
clear p = empty_piece

-- A pointer past the end of memory is undefined behaviour; the size is not tested.
unfoldable pub remove_prefix : ℕ → StringPiece → Option StringPiece
remove_prefix n p =
    if leb n (length p.ptr)
    then some (record { ptr = drop n p.ptr; size = p.size -ℤ pos n })
    else none

unfoldable pub remove_suffix : ℕ → StringPiece → StringPiece
remove_suffix n p = record p { size = p.size -ℤ pos n }

-- `memcmp`, of whose result only the sign is known; a negative number of bytes is a large one.
unfoldable pub compare_bytes : ℕ → List ℕ → List ℕ → ℤ
compare_bytes zero a b = pos 0
compare_bytes (suc n) [] b = pos 0
compare_bytes (suc n) (x ∷ a) [] = pos 0
compare_bytes (suc n) (x ∷ a) (y ∷ b) =
    let rest = compare_bytes n a b in if x == y then rest else if ltb x y then negsuc 0 else pos 1

unfoldable pub memcmp : List ℕ → List ℕ → ℤ → Option ℤ
unfolding compare_bytes
memcmp a b (negsuc n) = none
memcmp a b (pos n) =
    if leb n (length a) && leb n (length b) then some (compare_bytes n a b) else none

abbrev pub min_ℤ : ℤ → ℤ → ℤ
min_ℤ a b = if ltb_ℤ a b then a else b

-- `operator==`
unfoldable pub equals : StringPiece → StringPiece → Option Bool
unfolding memcmp
equals p q =
    if eqb_ℤ p.size q.size
    then (memcmp p.ptr q.ptr p.size >>= λ r. some (eqb_ℤ r (pos 0)))
    else some false

unfoldable pub differs : StringPiece → StringPiece → Option Bool
unfolding equals
differs p q = equals p q >>= λ same. some (not same)

-- The macro, with its two comparisons.
unfoldable pub predicate : (ℤ → ℤ → Bool) → (ℤ → ℤ → Bool) → StringPiece → StringPiece → Option Bool
unfolding memcmp
predicate cmp auxcmp p q = do
  r ← memcmp p.ptr q.ptr (min_ℤ p.size q.size)
  some (auxcmp r (pos 0) || (eqb_ℤ r (pos 0) && cmp p.size q.size))

abbrev pub less : StringPiece → StringPiece → Option Bool
less = predicate ltb_ℤ ltb_ℤ

abbrev pub less_or_equal : StringPiece → StringPiece → Option Bool
less_or_equal = predicate (λ a b. not (ltb_ℤ b a)) ltb_ℤ

abbrev pub greater_or_equal : StringPiece → StringPiece → Option Bool
greater_or_equal = predicate (λ a b. not (ltb_ℤ a b)) (λ a b. ltb_ℤ b a)

abbrev pub greater : StringPiece → StringPiece → Option Bool
greater = predicate (λ a b. ltb_ℤ b a) (λ a b. ltb_ℤ b a)

-- `compare`
unfoldable pub compare : StringPiece → StringPiece → Option ℤ
unfolding memcmp
compare p q = do
  r ← memcmp p.ptr q.ptr (min_ℤ p.size q.size)
  some (if eqb_ℤ r (pos 0) then (if ltb_ℤ p.size q.size then negsuc 0 else pos 1) else r)

-- `as_string`, which needs that many bytes; a negative number is too large for a `string`.
unfoldable pub as_string : StringPiece → Option (List ℕ)
as_string p = elim p.size [
  | pos n ↦ if leb n (length p.ptr) then some (take n p.ptr) else none
  | negsuc n ↦ none
]
