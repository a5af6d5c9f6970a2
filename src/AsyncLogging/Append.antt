-- ===== src/AsyncLogging/Append.antt =====
-- `AsyncLogging::append`.
use multi_thread_log.Common.{
  ℕ, ◌≤◌, ◌<◌, ◌≡◌, ◌≢◌, ◌⊎◌, inl, inr, refl, sym, ◌∙◌, Option, none, some, List, [], ◌∷◌, ◌++◌,
  append_assoc, length, ltb, if◌then◌else◌, arith, Option-cases, Bool-cases, ltb→lt, lt→ltb, le→ltb,
}
use multi_thread_log.LogStream.FixedBuffer.{FixedBuffer, avail, to_string}
use multi_thread_log.LogStream.FixedBuffer
use multi_thread_log.LogStream.FixedBuffer.Append.{NoNul, append_lem}
use multi_thread_log.AsyncLogging.{Shared, BufferPtr, append, refill}
use multi_thread_log.AsyncLogging.Contents.{
  IsBuffer, IsFresh, IsShared, contents, accepted, pending, contents-snoc, AreBuffers-snoc,
  snoc-ne-nil, to_string_fresh,
}

-- What a call of `append` did.
pub record Appends (n : ℕ) (s : Shared) (line : List ℕ) (r : Option Shared) : Type 0 where
  pub after : Shared
  pub returns : r ≡ some after
  pub after_in : IsShared n after
  pub handed : pending after ≡ pending s ++ accepted n line
  pub running_same : after.running ≡ s.running

refill-IsFresh :
    (n : ℕ) (p : BufferPtr) (memory : List ℕ)
    → length memory ≡ n
    → IsFresh n p ⊎ (p ≡ none)
    → IsFresh n (some (refill p memory))
unfolding refill FixedBuffer.make
refill-IsFresh n none memory h f = (refl, h)
refill-IsFresh n (some b) memory h (inl f) = f
refill-IsFresh n (some b) memory h (inr e) = absurd (cc)

next_cases :
    (n : ℕ) (p : BufferPtr) (v : List BufferPtr)
    → IsFresh n p ⊎ ((p ≡ none) × (v ≢ []))
    → IsFresh n p ⊎ (p ≡ none)
next_cases n p v (inl f) = inl f
next_cases n p v (inr e) = inr e.0

module _ (n : ℕ) (s : Shared) (memory line rest : List ℕ) (v : IsShared n s)
    (size : length memory ≡ n) (nn : NoNul line) where
  -- There is room in the current buffer.
  append_here :
      (b : FixedBuffer)
      → s.current ≡ some b
      → IsBuffer n (some b)
      → length line < avail b
      → Appends n s line (append s memory (line ++ 0 ∷ rest) (length line))
  unfolding append
  append_here b e vb room = record {
    after = record s { current = some w.0 };
    returns = rw (e, append) (rw (lt→ltb (length line) (avail b) room) (rw w.1));
    after_in = record {
      current_in = (w.3, w.4 ∙ vb.1);
      buffers_in = v.buffers_in;
      next_in = v.next_in;
    };
    handed = rw (text, taken, e) (sym (append_assoc (contents s.buffers) (to_string b) line));
    running_same = refl;
  }
    where
      w :
          (b' : FixedBuffer) × (FixedBuffer.append b (line ++ 0 ∷ rest) (length line) ≡ some b')
          × (to_string b'
              ≡ (if ltb (length line) (avail b) then to_string b ++ line else to_string b))
          × (b'.cur ≤ length b'.bytes)
          × (length b'.bytes ≡ length b.bytes)
      w = append_lem b line rest vb.0 nn

      text : to_string w.0 ≡ to_string b ++ line
      text = rw (lt→ltb (length line) (avail b) room) at w.2

      taken : accepted n line ≡ line
      taken = rw (lt→ltb (length line) n (omega arith))

  -- There is none: the current buffer is full, and the next one, or a new one, takes the line.
  append_next :
      (b : FixedBuffer)
      → s.current ≡ some b
      → IsBuffer n (some b)
      → avail b ≤ length line
      → Appends n s line (append s memory (line ++ 0 ∷ rest) (length line))
  unfolding append
  append_next b e vb full = record {
    after = record s { current = some w.0; next = none; buffers = s.buffers ++ s.current ∷ [] };
    returns = rw (e, append) (rw (le→ltb (length line) (avail b) full) (rw w.1));
    after_in = record {
      current_in = (w.3, w.4 ∙ f.1);
      buffers_in = AreBuffers-snoc n s.buffers s.current v.buffers_in v.current_in;
      next_in = inr (refl, snoc-ne-nil s.buffers s.current);
    };
    handed = rw (contents-snoc s.buffers s.current, text);
    running_same = refl;
  }
    where
      c : FixedBuffer
      c = refill s.next memory

      f : IsFresh n (some c)
      f = refill-IsFresh n s.next memory size (next_cases n s.next s.buffers v.next_in)

      w :
          (b' : FixedBuffer) × (FixedBuffer.append c (line ++ 0 ∷ rest) (length line) ≡ some b')
          × (to_string b'
              ≡ (if ltb (length line) (avail c) then to_string c ++ line else to_string c))
          × (b'.cur ≤ length b'.bytes)
          × (length b'.bytes ≡ length c.bytes)
      w = append_lem c line rest (omega (arith, f.0)) nn

      whole : avail c ≡ n
      whole = omega (arith, f.0, f.1)

      text : to_string w.0 ≡ accepted n line
      text = rw (to_string_fresh c f.0, whole) at w.2

  -- On a usable shared state, with `n` bytes of memory for a new buffer and a terminated line, `append`
  -- never faults. It hands the line over after all that was pending, or drops a line that no buffer can
  -- hold, and keeps the shared state usable.
  pub append-Appends : Appends n s line (append s memory (line ++ 0 ∷ rest) (length line))
  append-Appends = elim (Option-cases s.current) [
    | inl e ↦ absurd (rw e at v.current_in)
    | inr (b, e) ↦
        let vb : IsBuffer n (some b) = rw e at v.current_in in
        elim (Bool-cases (ltb (length line) (avail b))) [
          | inl room ↦ append_here b e vb (ltb→lt _ _ room)
          | inr full ↦ append_next b e vb (ground arith)
        ]
  ]
