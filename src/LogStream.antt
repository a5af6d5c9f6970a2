-- ===== src/LogStream.antt =====
-- The inserters of LogStream.h and LogStream.cc. A stream is its buffer. `none` is undefined
-- behaviour, or the failed assertion of `Fmt`.
pub mod FixedBuffer
pub mod Convert
pub mod Inserted
use multi_thread_log.Common.{
  ℕ, ◌+◌, ◌≡◌, Bool, true, false, Option, none, some, List, [], ◌∷◌, ◌++◌, ltb, leb, if◌then◌else◌,
  ◌>>=◌, length, take, codes,
}
use multi_thread_log.Common.Decimal.{snprintf}
use multi_thread_log.Common.Int.{ℤ, pos}
use FixedBuffer.{FixedBuffer as Buffer, avail}
use Convert.{convert, convert_hex}

abbrev pub k_max_numeric_size : ℕ
k_max_numeric_size = 32

-- `operator<<(bool)`
unfoldable pub put_bool : Buffer → Bool → Option Buffer
put_bool b v = FixedBuffer.append b ((if v then codes "1" else codes "0") ++ 0 ∷ []) 1

-- `formatInteger`: `convert` writes at the position, in place.
unfoldable pub format_integer : Buffer → ℤ → Option Buffer
format_integer b v =
    if leb k_max_numeric_size (avail b)
    then (convert v >>= λ s. FixedBuffer.store b.bytes b.cur (s ++ 0 ∷ []) >>= λ mem.
        FixedBuffer.add (record b { bytes = mem }) (length s))
    else some b

-- `operator<<` of `int` and `unsigned int`, to which `short` and `unsigned short` are widened.
unfoldable pub put_int : Buffer → ℤ → Option Buffer
unfolding format_integer
put_int b v = format_integer b v

unfoldable pub put_short : Buffer → ℤ → Option Buffer
unfolding put_int
put_short b v = put_int b v

-- `operator<<` of `long`, `long long` and the unsigned ones.
unfoldable pub put_long : Buffer → ℤ → Option Buffer
unfolding format_integer
put_long b v = format_integer b v

-- `operator<<(const void*)`
unfoldable pub put_pointer : Buffer → ℕ → Option Buffer
put_pointer b v =
    if leb k_max_numeric_size (avail b)
    then (convert_hex v >>= λ s.
        FixedBuffer.store b.bytes b.cur ((b'0' ∷ b'x' ∷ s) ++ 0 ∷ []) >>= λ mem.
        FixedBuffer.add (record b { bytes = mem }) (length s + 2))
    else some b

-- `operator<<(double)`: `text` is what `snprintf` prints for `"%.12g"`.
unfoldable pub put_double : Buffer → List ℕ → Option Buffer
put_double b text =
    if leb k_max_numeric_size (avail b)
    then (FixedBuffer.store b.bytes b.cur (snprintf k_max_numeric_size text ++ 0 ∷ []) >>= λ mem.
        FixedBuffer.add (record b { bytes = mem }) (length text))
    else some b

-- `operator<<(float)` converts to `double`, which `snprintf` prints.
unfoldable pub put_float : {A D : Type 0} → (A → D) → (D → List ℕ) → Buffer → A → Option Buffer
unfolding put_double
put_float to_double print b f = put_double b (print (to_double f))

-- `operator<<(char)` passes the address of its argument; `after` is the memory behind it.
unfoldable pub put_char : Buffer → ℕ → List ℕ → Option Buffer
put_char b ch after = FixedBuffer.append b (ch ∷ after) 1

-- `operator<<(const char*)`, with `strlen` of a pointer that is not null.
unfoldable pub put_c_string : Buffer → Option (List ℕ) → Option Buffer
put_c_string b (some buf) = FixedBuffer.c_string buf >>= λ s. FixedBuffer.append b buf (length s)
put_c_string b none = FixedBuffer.append b (codes "(null)" ++ 0 ∷ []) 6

-- `operator<<(const unsigned char*)`
unfoldable pub put_unsigned_c_string : Buffer → Option (List ℕ) → Option Buffer
unfolding put_c_string
put_unsigned_c_string b str = put_c_string b str

-- `resetBuffer`
unfoldable pub reset_buffer : Buffer → Buffer
unfolding FixedBuffer.reset
reset_buffer b = FixedBuffer.reset b

-- `operator<<(const std::string&)`: `c_str()` puts a terminator behind the bytes.
unfoldable pub put_string : Buffer → List ℕ → Option Buffer
put_string b s = FixedBuffer.append b (s ++ 0 ∷ []) (length s)

-- `operator<<(const StringPiece&)` and `append`: a pointer and a length.
unfoldable pub put_piece : Buffer → List ℕ → ℕ → Option Buffer
put_piece b buf len = FixedBuffer.append b buf len

-- `operator<<(const Buffer&)`
unfoldable pub put_buffer : Buffer → Buffer → Option Buffer
put_buffer b other = FixedBuffer.append b other.bytes other.cur

-- `Fmt`: the text that `snprintf` prints must fit its 32 bytes, terminator included.
pub record Fmt : Type 0 where
  pub text : List ℕ

unfoldable pub make_fmt : List ℕ → Option Fmt
make_fmt text = if ltb (length text) 32 then some (record { text = snprintf 32 text }) else none

unfoldable pub put_fmt : Buffer → Fmt → Option Buffer
unfolding put_piece
put_fmt b f = put_piece b (f.text ++ 0 ∷ []) (length f.text)
