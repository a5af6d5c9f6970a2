-- ===== src/LogStream/Convert.antt =====
-- `convert` and `convertHex` of LogStream.cc: the digits of an integer.
pub mod Numeral
pub mod Decimal
pub mod Hex
use multi_thread_log.Common.{
  ℕ, zero, suc, ◌+◌, ◌-◌, ◌/◌, ◌%◌, ◌≡◌, refl, Bool, Option, none, some, List, [], ◌∷◌, ◌++◌, ◌==◌,
  if◌then◌else◌, ◌>>=◌, get_or, codes,
}
use multi_thread_log.Common.Int.{ℤ, pos, negsuc, pos_part, ◌+ℤ◌, ltb_ℤ, eqb_ℤ, quot, rem}
use mathlib.Core.List.{reverse}

-- The tables `digits`, whose middle `zero` points to, and `digitsHex`.
abbrev pub digits : List ℕ
digits = codes "9876543210123456789"

abbrev pub digits_hex : List ℕ
digits_hex = codes "0123456789ABCDEF"

-- `zero[index]`, where `index` lies between -9 and 9.
unfoldable pub digit_at : ℤ → ℕ
unfolding ◌+ℤ◌
digit_at index = get_or digits (pos_part (pos 9 +ℤ index)) 0

-- The `do` loop of `convert`, on fuel: `none` means that it ran out.
unfoldable pub convert_loop : ℕ → ℤ → List ℕ → Option (List ℕ)
unfolding digit_at quot rem
convert_loop zero i out = none
convert_loop (suc fuel) i out =
    let out' = out ++ digit_at (rem i 10) ∷ [] in
    let rest = convert_loop fuel (quot i 10) out' in
    if eqb_ℤ (quot i 10) (pos 0) then some out' else rest

-- An integer of 64 bits, signed or not, has at most 20 digits.
abbrev pub max_digits : ℕ
max_digits = 20

-- What `convert` leaves in `buf`, before the terminator that it writes.
unfoldable pub convert : ℤ → Option (List ℕ)
unfolding convert_loop
convert value = do
  p ← convert_loop max_digits value []
  some (reverse (if ltb_ℤ value (pos 0) then p ++ b'-' ∷ [] else p))

unfoldable pub convert_hex_loop : ℕ → ℕ → List ℕ → Option (List ℕ)
convert_hex_loop zero i out = none
convert_hex_loop (suc fuel) i out =
    let out' = out ++ get_or digits_hex (i % 16) 0 ∷ [] in
    let rest = convert_hex_loop fuel (i / 16) out' in if i / 16 == 0 then some out' else rest

-- A `uintptr_t` of 64 bits has at most 16 digits.
abbrev pub max_hex_digits : ℕ
max_hex_digits = 16

unfoldable pub convert_hex : ℕ → Option (List ℕ)
unfolding convert_hex_loop
convert_hex value = do p ← convert_hex_loop max_hex_digits value []; some (reverse p)

convert_runs :
    (convert (pos 0) ≡ some (codes "0"))
    × (convert (negsuc 9223372036854775807) ≡ some (codes "-9223372036854775808"))
    × (convert (pos 18446744073709551615) ≡ some (codes "18446744073709551615"))
    × (convert_hex 0xdeadbeef ≡ some (codes "DEADBEEF"))
unfolding convert convert_hex
convert_runs = (refl, refl, refl, refl)
