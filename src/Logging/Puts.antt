-- ===== src/Logging/Puts.antt =====
-- Inserters one after another: what each puts, as long as there is room to spare.
use multi_thread_log.Common.{
  ℕ, ◌+◌, ◌^◌, ◌≤◌, ◌<◌, ◌≡◌, ◌≢◌, refl, sym, ap, subst, ◌∙◌, Option, some, List, [], ◌∷◌, ◌++◌,
  append-nil, append_assoc, ◌>>=◌, arith, length, length-append, length-take, le→leb, leb, true,
  if◌then◌else◌,
}
use multi_thread_log.Common.Int.{ℤ, magnitude}
use multi_thread_log.LogStream
use multi_thread_log.LogStream.{k_max_numeric_size}
use multi_thread_log.LogStream.FixedBuffer.{FixedBuffer, IsValid, avail, to_string}
use multi_thread_log.LogStream.FixedBuffer.Append.{NoNul, c_string-append, append_writes}
use multi_thread_log.LogStream.Convert.{max_digits}
use multi_thread_log.LogStream.Convert.Decimal.{convert-Converted}
use multi_thread_log.LogStream.Inserted.{
  Inserted, Inserted-of_Appended, put_char_lem, format_integer-Inserted,
}

-- With `room` bytes to spare `act` puts `s` and nothing else.
abbrev pub Puts : ℕ → List ℕ → (FixedBuffer → Option FixedBuffer) → Type 0
Puts room s act = (b : FixedBuffer) → IsValid b → length s + room ≤ avail b → Inserted b s (act b)

-- What is put is taken from the free space.
avail-Inserted :
    (b : FixedBuffer) (s : List ℕ) (r : Option FixedBuffer) (w : Inserted b s r)
    → IsValid b
    → avail w.after + length s ≡ avail b
unfolding to_string
avail-Inserted b s r w v = omega (
  arith,
  ap length w.content,
  length-append (to_string b) s,
  length-take b.cur b.bytes,
  length-take w.after.cur w.after.bytes,
  w.valid,
  w.same_size,
)

module _ (room : ℕ) where
  pub Puts-then :
      (s t : List ℕ) (act next : FixedBuffer → Option FixedBuffer)
      → Puts room s act
      → Puts room t next
      → Puts room (s ++ t) (λ b. act b >>= next)
  Puts-then s t act next p q b v fits =
      let w = p b v (omega (arith, length-append s t)) in
      let u =
        q w.after w.valid (omega (arith, length-append s t, avail-Inserted b s (act b) w v)) in
      record {
        after = u.after;
        returns = rw w.returns u.returns;
        content = u.content ∙ ap (λ bs. bs ++ t) w.content ∙ append_assoc (to_string b) s t;
        valid = u.valid;
        same_size = u.same_size ∙ w.same_size;
      }

  pub Puts-nothing : Puts room [] (λ b. some b)
  Puts-nothing b v fits = record {
    after = b;
    returns = refl;
    content = sym (append-nil _);
    valid = v;
    same_size = refl;
  }

  -- A terminated text, with its length.
  pub Puts-piece :
      (s : List ℕ)
      → NoNul s
      → 0 < room
      → Puts room s (λ b. LogStream.put_piece b (s ++ 0 ∷ []) (length s))
  unfolding LogStream.put_piece
  Puts-piece s nn h b v fits = Inserted-of_Appended b s _ (omega arith) v (
      append_writes b (s ++ 0 ∷ []) s (length s) v (c_string-append s [] nn) (omega arith)
        (omega arith))

  pub Puts-c_string :
      (s : List ℕ)
      → NoNul s
      → 0 < room
      → Puts room s (λ b. LogStream.put_c_string b (some (s ++ 0 ∷ [])))
  unfolding LogStream.put_c_string LogStream.put_piece
  Puts-c_string s nn h b v fits = rw (c_string-append s [] nn) (Puts-piece s nn h b v fits)

  -- A character, if the memory behind it has a zero byte near enough.
  pub Puts-char :
      (ch : ℕ) (garbage rest : List ℕ)
      → ch ≢ 0
      → NoNul garbage
      → length garbage < room
      → Puts room (ch ∷ []) (λ b. LogStream.put_char b ch (garbage ++ 0 ∷ rest))
  Puts-char ch garbage rest h nn near b v fits = put_char_lem b ch garbage rest v h nn (omega arith)

  -- The decimal notation of an integer of at most 20 digits.
  pub Puts-int :
      (n : ℤ) (small : magnitude n < 10 ^ max_digits)
      → 32 ≤ room
      → Puts room (convert-Converted n small).text (λ b. LogStream.put_int b n)
  unfolding LogStream.put_int
  Puts-int n small h b v fits =
      let enough : leb k_max_numeric_size (avail b) ≡ true = le→leb _ _ (omega arith) in
      subst
        (λ c.
          Inserted b (if c then (convert-Converted n small).text else []) (LogStream.put_int b n))
        enough (format_integer-Inserted b n small v)
