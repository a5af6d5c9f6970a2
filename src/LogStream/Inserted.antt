-- ===== src/LogStream/Inserted.antt =====
-- What the inserters append.
mod Examples
use multi_thread_log.Common.{
  take-length, ℕ, zero, suc, ◌+◌, ◌-◌, ◌*◌, ◌^◌, ◌≤◌, ◌<◌, ◌≡◌, ◌≢◌, ◌⊎◌, inl, inr, refl, sym,
  append-nil, ap, subst, ◌∙◌, Bool, true, false, Option, none, some, List, [], ◌∷◌, ◌++◌,
  if◌then◌else◌, ◌>>=◌, arith, length, take, codes, length-append, leb, ltb, Bool-cases, leb→le,
  lt→leb, ltb→lt, le→leb,
}
use multi_thread_log.Common.Int.{ℤ, magnitude}
use multi_thread_log.LogStream.FixedBuffer.{
  FixedBuffer, IsValid, avail, c_string, append, to_string,
}
use multi_thread_log.LogStream.FixedBuffer.Append.{
  NoNul, Appended, store_text-Appended, append_writes, append_lem, append_overflows,
  c_string-append,
}
use multi_thread_log.LogStream.Convert.{convert, convert_hex, max_digits, max_hex_digits}
use multi_thread_log.LogStream.Convert.Numeral.{IsNumeral}
use multi_thread_log.LogStream.Convert.Decimal.{IsDecimal, Converted, convert-Converted}
use multi_thread_log.LogStream.Convert.Hex.{hex_notation, ConvertedHex, convert_hex-ConvertedHex}
use multi_thread_log.LogStream.{
  k_max_numeric_size, format_integer, put_pointer, put_char, put_c_string, Fmt, make_fmt, put_fmt,
}

-- The inserter wrote `s` behind the content and kept the buffer in order.
pub record Inserted (b : FixedBuffer) (s : List ℕ) (r : Option FixedBuffer) : Type 0 where
  pub after : FixedBuffer
  pub returns : r ≡ some after
  pub content : to_string after ≡ to_string b ++ s
  pub valid : IsValid after
  pub same_size : length after.bytes ≡ length b.bytes

pub Inserted-of_Appended :
    (b : FixedBuffer) (s : List ℕ) (r : Option FixedBuffer)
    → length s ≤ avail b
    → IsValid b
    → Appended b s (length s) r
    → Inserted b s r
Inserted-of_Appended b s r room v w = record {
  after = w.after;
  returns = w.returns;
  content = w.content ∙ ap (λ t. to_string b ++ t) (take-length s);
  valid = omega (arith, w.cur_is, w.same_size);
  same_size = w.same_size;
}

if_append : (c : Bool) (s t : List ℕ) → (if c then s ++ t else s) ≡ s ++ (if c then t else [])
if_append true s t = refl
if_append false s t = sym (append-nil s)

pub format_integer-Inserted :
    (b : FixedBuffer) (v : ℤ) (small : magnitude v < 10 ^ max_digits)
    → IsValid b
    → Inserted b
        (if leb k_max_numeric_size (avail b) then (convert-Converted v small).text else [])
        (format_integer b v)
unfolding format_integer
format_integer-Inserted b v small valid =
    let w : Converted v (convert v) = convert-Converted v small in
    elim (Bool-cases (leb k_max_numeric_size (avail b))) [
      | inl room ↦
          rw (room, w.returns)
            (Inserted-of_Appended b w.text _ (omega (arith, leb→le _ _ room, w.short)) valid (
              store_text-Appended b w.text (length w.text) valid (omega arith)
                (omega (arith, leb→le _ _ room, w.short))))
      | inr full ↦ rw full (record {
        after = b;
        returns = refl;
        content = sym (append-nil _);
        valid = valid;
        same_size = refl;
      })
    ]

-- An integer of at most 20 digits: with 32 bytes free its decimal notation is appended, and
-- otherwise nothing changes. It never faults.
pub format_integer_lem :
    (b : FixedBuffer) (v : ℤ)
    → IsValid b
    → magnitude v < 10 ^ max_digits
    → (s : List ℕ) × IsDecimal v s
      × Inserted b (if leb k_max_numeric_size (avail b) then s else []) (format_integer b v)
format_integer_lem b v valid small =
    let w = convert-Converted v small in
    (w.text, w.decimal, format_integer-Inserted b v small valid)

-- A pointer of 64 bits: with 32 bytes free `0x` and its hexadecimal notation are appended, and
-- otherwise nothing changes. It never faults.
pub put_pointer_lem :
    (b : FixedBuffer) (v : ℕ)
    → IsValid b
    → v < 16 ^ max_hex_digits
    → (s : List ℕ) × IsNumeral hex_notation v s
      × Inserted b
          (if leb k_max_numeric_size (avail b) then b'0' ∷ b'x' ∷ s else [])
          (put_pointer b v)
unfolding put_pointer
put_pointer_lem b v valid small = (
  w.text,
  w.numeral,
  elim (Bool-cases (leb k_max_numeric_size (avail b))) [
    | inl room ↦
        let fits : length w.text + 2 < avail b = omega (arith, leb→le _ _ room, w.short) in
        let two : length w.text + 2 ≡ length (b'0' ∷ b'x' ∷ w.text) = omega arith in
        rw (room, w.returns, two)
          (Inserted-of_Appended b (b'0' ∷ b'x' ∷ w.text) _ (omega arith) valid (
            store_text-Appended b (b'0' ∷ b'x' ∷ w.text) (length (b'0' ∷ b'x' ∷ w.text)) valid
              (omega arith) (omega arith)))
    | inr full ↦ rw full (record {
      after = b;
      returns = refl;
      content = sym (append-nil _);
      valid = valid;
      same_size = refl;
    })
  ],
)
  where
    w : ConvertedHex v (convert_hex v)
    w = convert_hex-ConvertedHex v small

-- A C string is appended whole, if it fits with its terminator; otherwise nothing changes. A null
-- pointer is appended as `(null)`. Neither faults.
put_c_string_lem :
    (b : FixedBuffer) (s rest : List ℕ)
    → IsValid b
    → NoNul s
    → Inserted b
        (if ltb (length s) (avail b) then s else [])
        (put_c_string b (some (s ++ 0 ∷ rest)))
      × Inserted b (if ltb 6 (avail b) then codes "(null)" else []) (put_c_string b none)
unfolding put_c_string
put_c_string_lem b s rest v nn = (
  rw (c_string-append s rest nn) (inserted s rest nn),
  inserted (codes "(null)") [] (omega arith),
)
  where
    inserted :
        (t after : List ℕ)
        → NoNul t
        → Inserted b
            (if ltb (length t) (avail b) then t else [])
            (append b (t ++ 0 ∷ after) (length t))
    inserted t after n =
        let w = append_lem b t after v n in
        record {
          after = w.0;
          returns = w.1;
          content = w.2 ∙ if_append (ltb (length t) (avail b)) (to_string b) t;
          valid = w.3;
          same_size = w.4;
        }

-- `operator<<(char)` copies from its argument to the next zero byte of memory. If that is as far away as
-- the end of the buffer, or farther, it writes past the end, although its one byte would fit.
put_char_overflows :
    (b : FixedBuffer) (ch : ℕ) (garbage rest : List ℕ)
    → ch ≢ 0
    → NoNul garbage
    → 1 < avail b
    → avail b ≤ length garbage + 1
    → put_char b ch (garbage ++ 0 ∷ rest) ≡ none
unfolding put_char
put_char_overflows b ch garbage rest h nn room long =
    append_overflows b (ch ∷ (garbage ++ 0 ∷ rest)) (ch ∷ garbage) 1
      (c_string-append (ch ∷ garbage) rest (h, nn)) room (omega arith)

-- Where the next zero byte is nearer than the end of the buffer, the character, if not zero itself, is
-- appended, and nothing else.
pub put_char_lem :
    (b : FixedBuffer) (ch : ℕ) (garbage rest : List ℕ)
    → IsValid b
    → ch ≢ 0
    → NoNul garbage
    → length garbage + 1 < avail b
    → Inserted b (ch ∷ []) (put_char b ch (garbage ++ 0 ∷ rest))
unfolding put_char
put_char_lem b ch garbage rest v h nn room =
    let w =
      append_writes b (ch ∷ (garbage ++ 0 ∷ rest)) (ch ∷ garbage) 1 v
        (c_string-append (ch ∷ garbage) rest (h, nn)) (omega arith) (omega arith) in
    record {
      after = w.after;
      returns = w.returns;
      content = w.content;
      valid = omega (arith, w.cur_is, w.same_size);
      same_size = w.same_size;
    }
