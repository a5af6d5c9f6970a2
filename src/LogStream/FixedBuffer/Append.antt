-- ===== src/LogStream/FixedBuffer/Append.antt =====
-- What `FixedBuffer::append` writes.
use native.Mathlib.Nat.{le_refl, zero-add, suc-add}
use multi_thread_log.Common.{
  ℕ, zero, suc, ◌+◌, ◌≤◌, ◌<◌, ◌≡◌, ◌≢◌, refl, ap, ◌∙◌, Option, none, some, ◌>>=◌, List, [], ◌∷◌,
  ◌++◌, arith, ltb, if◌then◌else◌, length, take, drop, length-append, length-take, length-drop,
  take-length, Bool-cases, inl, inr, ltb→lt, le→leb, lt→ltb, lt→leb,
}
use multi_thread_log.LogStream.FixedBuffer.{
  FixedBuffer, IsValid, avail, add, c_string, store, append, to_string,
}

-- No byte is the terminator.
abbrev pub NoNul : List ℕ → Type 0
NoNul [] = Unit
NoNul (c ∷ s) = (c ≢ 0) × NoNul s

pub c_string-append : (s rest : List ℕ) → NoNul s → c_string (s ++ 0 ∷ rest) ≡ some s
unfolding c_string
c_string-append [] rest h = refl
c_string-append (c ∷ s) rest h = ground (arith, c_string-append s rest h.1)

module _ {ℓ} {A : Type ℓ} where
  -- The first `n + length s` elements, where `n` come from `xs` and the rest is `s`.
  pub take-append :
      (n m : ℕ) (xs ys : List A)
      → n ≤ length xs
      → take (n + m) (take n xs ++ ys) ≡ take n xs ++ take m ys
  take-append zero m xs ys h = rw zero-add
  take-append (suc n) m [] ys h = absurd (omega arith)
  take-append (suc n) m (x ∷ xs) ys h =
      rw suc-add (ap (◌∷◌ x) (take-append n m xs ys (omega arith)))

  pub take-append_le : (n : ℕ) (xs ys : List A) → n ≤ length xs → take n (xs ++ ys) ≡ take n xs
  take-append_le zero xs ys h = refl
  take-append_le (suc n) [] ys h = absurd (omega arith)
  take-append_le (suc n) (x ∷ xs) ys h = ap (◌∷◌ x) (take-append_le n xs ys (omega arith))

pub store_fits :
    (mem : List ℕ) (at : ℕ) (s : List ℕ)
    → at + length s ≤ length mem
    → store mem at s ≡ some (take at mem ++ (s ++ drop (at + length s) mem))
unfolding store
store_fits mem at s h = rw (le→leb _ _ h)

pub length-store :
    (mem : List ℕ) (at : ℕ) (s : List ℕ)
    → at + length s ≤ length mem
    → length (take at mem ++ (s ++ drop (at + length s) mem)) ≡ length mem
length-store mem at s h = omega (
  arith,
  length-append (take at mem) (s ++ drop (at + length s) mem),
  length-append s (drop (at + length s) mem),
  length-take at mem,
  length-drop (at + length s) mem,
)

-- What a call of `append` that wrote did: `len` bytes of `s` follow what the buffer held.
pub record Appended (b : FixedBuffer) (s : List ℕ) (len : ℕ) (r : Option FixedBuffer) : Type 0 where
  pub after : FixedBuffer
  pub returns : r ≡ some after
  pub content : to_string after ≡ to_string b ++ take len s
  pub cur_is : after.cur ≡ b.cur + len
  pub same_size : length after.bytes ≡ length b.bytes

-- The bytes of `s` and a terminator are stored at the position, which then moves by `len`.
abbrev pub store_text : FixedBuffer → List ℕ → ℕ → Option FixedBuffer
store_text b s len = store b.bytes b.cur (s ++ 0 ∷ []) >>= λ mem. add (record b { bytes = mem }) len

pub store_text-Appended :
    (b : FixedBuffer) (s : List ℕ) (len : ℕ)
    → IsValid b
    → len ≤ length s
    → length s < avail b
    → Appended b s len (store_text b s len)
unfolding add to_string
store_text-Appended b s len v short room = record {
  after = record { bytes = mem; cur = b.cur + len };
  returns =
      rw (store_fits b.bytes b.cur text fits)
        (rw (le→leb (b.cur + len) (length mem) (omega (arith, size))));
  content =
      take-append b.cur len b.bytes _ v
      ∙ ap (λ t. take b.cur b.bytes ++ t)
          (take-append_le len text _ (omega (arith, length-append s (0 ∷ [])))
            ∙ take-append_le len s (0 ∷ []) short);
  cur_is = refl;
  same_size = size;
}
  where
    text : List ℕ
    text = s ++ 0 ∷ []

    mem : List ℕ
    mem = take b.cur b.bytes ++ (text ++ drop (b.cur + length text) b.bytes)

    fits : b.cur + length text ≤ length b.bytes
    fits = omega (arith, length-append s (0 ∷ []))

    size : length mem ≡ length b.bytes
    size = length-store b.bytes b.cur text fits

-- If `buf` is a string of at least `len` bytes, and there is room for all of it and a terminator,
-- its first `len` bytes are appended, the position moves by `len`, and the size stays.
pub append_writes :
    (b : FixedBuffer) (buf s : List ℕ) (len : ℕ)
    → IsValid b
    → c_string buf ≡ some s
    → len ≤ length s
    → length s < avail b
    → Appended b s len (append b buf len)
unfolding append
append_writes b buf s len v e short room =
    rw (lt→ltb len (avail b) (omega arith), e) (store_text-Appended b s len v short room)

-- `append` guards by `len` but copies to the terminator: if `len` is below the free space, and the string
-- is at least as long as that space, it is written past the end.
pub append_overflows :
    (b : FixedBuffer) (buf s : List ℕ) (len : ℕ)
    → c_string buf ≡ some s
    → len < avail b
    → avail b ≤ length s
    → append b buf len ≡ none
unfolding append store
append_overflows b buf s len e guard long =
    rw (lt→ltb _ _ guard, e)
      (rw (
        lt→leb (b.cur + length (s ++ 0 ∷ [])) (length b.bytes)
          (omega (arith, length-append s (0 ∷ [])))))

-- A terminated string `s` of length `len`, as every caller means to pass: it is appended whole if it
-- fits with its terminator, and otherwise the buffer stays as it is.
pub append_lem :
    (b : FixedBuffer) (s rest : List ℕ)
    → IsValid b
    → NoNul s
    → (b' : FixedBuffer) × (append b (s ++ 0 ∷ rest) (length s) ≡ some b')
      × (to_string b' ≡ (if ltb (length s) (avail b) then to_string b ++ s else to_string b))
      × IsValid b'
      × (length b'.bytes ≡ length b.bytes)
append_lem b s rest v nn = elim (Bool-cases (ltb (length s) (avail b))) [
  | inl fits ↦
      let w =
        append_writes b (s ++ 0 ∷ rest) s (length s) v (c_string-append s rest nn) (le_refl _)
          (ltb→lt _ _ fits) in
      (
        w.after,
        w.returns,
        rw fits (w.content ∙ ap (λ t. to_string b ++ t) (take-length s)),
        omega (arith, w.cur_is, w.same_size, ltb→lt _ _ fits),
        w.same_size,
      )
  | inr full ↦ (b, (unfold append in rw full), rw full, v, refl)
]
