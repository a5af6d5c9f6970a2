-- ===== src/LogStream/FixedBuffer.antt =====
-- `FixedBuffer` of LogStream.h: a char array and a write position in it. Memory is explicit: a
-- pointer handed to the code is the list of the bytes that can be read from it on, and `none`
-- stands for undefined behaviour, a read or a write outside an array.
pub mod Append
mod Examples
use multi_thread_log.Common.{
  ℕ, ◌+◌, ◌-◌, ◌*◌, ◌≤◌, ◌<◌, ◌≡◌, Option, none, some, List, [], ◌∷◌, ◌++◌, ltb, leb, ◌==◌,
  if◌then◌else◌, ◌>>=◌, length, take, drop, replicate,
}

abbrev pub k_small_buffer : ℕ
k_small_buffer = 4000

abbrev pub k_large_buffer : ℕ
k_large_buffer = 4000 * 1000

-- `bytes` is `data_`, so `SIZE` is its length; `cur` is the offset of `cur_` from `data_`.
pub record FixedBuffer : Type 0 where
  pub bytes : List ℕ
  pub cur : ℕ

-- The pointer stays within the array or one past its end.
abbrev pub IsValid : FixedBuffer → Type 0
IsValid b = b.cur ≤ length b.bytes

-- The array is not initialised: it holds whatever the memory held.
unfoldable pub make : List ℕ → FixedBuffer
make memory = record { bytes = memory; cur = 0 }

abbrev pub avail : FixedBuffer → ℕ
avail b = length b.bytes - b.cur

-- A pointer moved past the end of its array is undefined behaviour.
unfoldable pub add : FixedBuffer → ℕ → Option FixedBuffer
add b len =
    if leb (b.cur + len) (length b.bytes) then some (record b { cur = b.cur + len }) else none

unfoldable pub reset : FixedBuffer → FixedBuffer
reset b = record b { cur = 0 }

unfoldable pub bzero : FixedBuffer → FixedBuffer
bzero b = record { bytes = replicate (length b.bytes) 0; cur = 0 }

-- The bytes before the terminator, which `strlen` counts and `strcpy` copies with the terminator.
unfoldable pub c_string : List ℕ → Option (List ℕ)
c_string [] = none
c_string (c ∷ rest) =
    let tail = (c_string rest >>= λ s. some (c ∷ s)) in if c == 0 then some [] else tail

-- `memcpy` of `s` to offset `at` of an array.
unfoldable pub store : List ℕ → ℕ → List ℕ → Option (List ℕ)
store mem at s =
    if leb (at + length s) (length mem)
    then some (take at mem ++ (s ++ drop (at + length s) mem))
    else none

-- `append` copies by `strcpy`: up to the terminator of `buf`, whatever `len` is.
unfoldable pub append : FixedBuffer → List ℕ → ℕ → Option FixedBuffer
append b buf len =
    if ltb len (avail b)
    then (do
      s ← c_string buf
      mem ← store b.bytes b.cur (s ++ 0 ∷ [])
      add (record b { bytes = mem }) len)
    else some b

-- `toString()`, the bytes written so far.
unfoldable pub to_string : FixedBuffer → List ℕ
to_string b = take b.cur b.bytes
