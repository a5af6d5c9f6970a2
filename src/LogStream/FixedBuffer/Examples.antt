-- ===== src/LogStream/FixedBuffer/Examples.antt =====
-- `FixedBuffer` on small arrays.
use multi_thread_log.Common.{◌≡◌, refl, some, [], ◌∷◌, arith, length}
use multi_thread_log.LogStream.FixedBuffer.{
  FixedBuffer, IsValid, make, add, reset, bzero, c_string, store, append, to_string,
}
use multi_thread_log.LogStream.FixedBuffer.Append.{append_lem}

program : Unit {0}
unfolding make add reset bzero c_string store append to_string
program = tt

abbrev small : FixedBuffer
small = record { bytes = 1 ∷ 2 ∷ 3 ∷ 4 ∷ 5 ∷ []; cur = 1 }

-- Two bytes and the terminator are written; the position moves by two.
append_runs :
    append small (8 ∷ 9 ∷ 0 ∷ []) 2 ≡ some (record { bytes = 1 ∷ 8 ∷ 9 ∷ 0 ∷ 5 ∷ []; cur = 3 })
unfolding program
append_runs = refl

-- A string of the room that is left is dropped, for want of room for its terminator.
append_full : append small (8 ∷ 9 ∷ 8 ∷ 9 ∷ 0 ∷ []) 4 ≡ some small
unfolding program
append_full = refl

-- Bytes behind a terminator inside the string are not copied, although the position passes them.
append_embedded :
    append small (8 ∷ 0 ∷ 9 ∷ 0 ∷ []) 3 ≡ some (record { bytes = 1 ∷ 8 ∷ 0 ∷ 4 ∷ 5 ∷ []; cur = 4 })
unfolding program
append_embedded = refl

append_lem_example :
    (b : FixedBuffer) × (append small (8 ∷ 9 ∷ 0 ∷ []) 2 ≡ some b)
    × (to_string b ≡ 1 ∷ 8 ∷ 9 ∷ [])
    × IsValid b
    × (length b.bytes ≡ 5)
unfolding to_string
append_lem_example = append_lem small (8 ∷ 9 ∷ []) [] (omega arith) (omega arith)
