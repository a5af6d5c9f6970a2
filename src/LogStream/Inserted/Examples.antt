-- ===== src/LogStream/Inserted/Examples.antt =====
-- The inserters on a buffer of 40 bytes.
use multi_thread_log.Common.{
  ℕ, ◌≡◌, refl, Option, some, List, [], ◌∷◌, ◌++◌, arith, replicate, codes, ◌>>=◌,
}
use multi_thread_log.Common.Int.{pos, negsuc}
use multi_thread_log.LogStream.FixedBuffer
use multi_thread_log.LogStream.FixedBuffer.{FixedBuffer}
use multi_thread_log.LogStream.Convert.{convert, convert_hex}
use multi_thread_log.LogStream.Convert.Decimal.{Converted, convert-Converted}
use multi_thread_log.LogStream.{
  put_bool, put_int, put_pointer, put_char, put_c_string, put_string, format_integer,
}

program : Unit {0}
unfolding put_bool put_int put_pointer put_char put_c_string put_string format_integer convert
    convert_hex FixedBuffer.make FixedBuffer.add FixedBuffer.c_string FixedBuffer.store
    FixedBuffer.append FixedBuffer.to_string
program = tt

abbrev wide : FixedBuffer
wide = record { bytes = replicate 40 0; cur = 3 }

abbrev narrow : FixedBuffer
narrow = record { bytes = replicate 40 0; cur = 36 }

text : Option FixedBuffer → Option (List ℕ)
text r = r >>= λ b. some (FixedBuffer.to_string b)

-- As in LogStream_test.cc: `os << 0 << " " << 123 << 'x' << 0x64`.
chain_runs :
    text (
      put_int (record { bytes = replicate 120 0; cur = 0 }) (pos 0) >>= λ a.
      put_c_string a (some (codes " " ++ 0 ∷ [])) >>= λ b.
      put_int b (pos 123) >>= λ c. put_char c b'x' (0 ∷ []) >>= λ d. put_int d (pos 0x64))
    ≡ some (codes "0 123x100")
unfolding text program
chain_runs = refl

convert-Converted_example : Converted (negsuc 41) (convert (negsuc 41))
convert-Converted_example = convert-Converted (negsuc 41) (omega arith)
