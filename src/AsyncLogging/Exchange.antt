-- ===== src/AsyncLogging/Exchange.antt =====
-- The section of `threadFunc` under the lock, and the logging thread's variables before and after it.
use multi_thread_log.Common.{
  ℕ, ◌≤◌, ◌≡◌, ◌≢◌, ◌⊎◌, inl, inr, refl, none, some, [], ◌∷◌, ◌++◌, length, if◌then◌else◌, arith,
  length-append,
}
use multi_thread_log.AsyncLogging.{Shared, Backend, BufferPtr, BufferVector, exchange, is_null}
use multi_thread_log.AsyncLogging.Contents.{
  IsFresh, AreBuffers, IsShared, contents, pending, contents-snoc, AreBuffers-snoc, snoc-ne-nil,
  content_fresh, IsFresh-IsBuffer,
}

-- Between two rounds both spare buffers are there.
pub record IsResting (n : ℕ) (t : Backend) : Type 0 where
  pub first_in : IsFresh n t.new_buffer1
  pub second_in : IsFresh n t.new_buffer2
  pub none_left : t.buffers_to_write ≡ []

-- After the exchange the first spare is gone; if the second is gone too, two buffers came back.
pub record IsWriting (n : ℕ) (t : Backend) : Type 0 where
  pub some_left : t.buffers_to_write ≢ []
  pub buffers_in : AreBuffers n t.buffers_to_write
  pub first_gone : t.new_buffer1 ≡ none
  pub second_in :
      IsFresh n t.new_buffer2 ⊎ ((t.new_buffer2 ≡ none) × (2 ≤ length t.buffers_to_write))

-- What the exchange does: all that was pending goes to the logging thread, nothing is left behind.
pub record Exchanged (n : ℕ) (s : Shared) (r : Shared × Backend) : Type 0 where
  pub shared_in : IsShared n r.0
  pub writing : IsWriting n r.1
  pub taken : contents (r.1).buffers_to_write ≡ pending s
  pub left : pending r.0 ≡ []

length-snoc-two : (ps : BufferVector) (p : BufferPtr) → ps ≢ [] → 2 ≤ length (ps ++ p ∷ [])
length-snoc-two [] p h = absurd (h refl)
length-snoc-two (q ∷ ps) p h = omega (arith, length-append ps (p ∷ []))

next_after :
    (n : ℕ) (p q : BufferPtr) {A : Type 0}
    → IsFresh n p ⊎ ((p ≡ none) × A)
    → IsFresh n q
    → IsFresh n (if is_null p then q else p)
unfolding is_null
next_after n none q h f = f
next_after n (some b) q (inl h) f = h
next_after n (some b) q (inr h) f = absurd (cc (h.0))

second_after :
    (n : ℕ) (p q : BufferPtr) (ps : BufferVector) (c : BufferPtr)
    → IsFresh n p ⊎ ((p ≡ none) × (ps ≢ []))
    → IsFresh n q
    → IsFresh n (if is_null p then none else q)
      ⊎ (((if is_null p then none else q) ≡ none) × (2 ≤ length (ps ++ c ∷ [])))
unfolding is_null
second_after n none q ps c (inl h) f = absurd h
second_after n none q ps c (inr h) f = inr (refl, length-snoc-two ps c h.1)
second_after n (some b) q ps c h f = inl f

-- From a usable shared state and a logging thread with two fresh spare buffers, the section under the lock
-- takes every pending byte, in order, and leaves a usable shared state with nothing pending.
pub exchange-Exchanged :
    (n : ℕ) (s : Shared) (t : Backend) → IsShared n s → IsResting n t → Exchanged n s (exchange s t)
unfolding exchange
exchange-Exchanged n s t v r = record {
  shared_in = record {
    current_in = IsFresh-IsBuffer n t.new_buffer1 r.first_in;
    buffers_in = rw r.none_left tt;
    next_in = inl (next_after n s.next t.new_buffer2 v.next_in r.second_in);
  };
  writing = record {
    some_left = snoc-ne-nil s.buffers s.current;
    buffers_in = AreBuffers-snoc n s.buffers s.current v.buffers_in v.current_in;
    first_gone = refl;
    second_in = second_after n s.next t.new_buffer2 s.buffers s.current v.next_in r.second_in;
  };
  taken = contents-snoc s.buffers s.current;
  left = rw (r.none_left, content_fresh n t.new_buffer1 r.first_in);
}
