-- ===== src/AsyncLogging/Round.antt =====
-- What the logging thread does with its buffers after the section under the lock.
use multi_thread_log.Common.{
  ℕ, ◌≤◌, ◌<◌, ◌≡◌, ◌≢◌, ◌⊎◌, inl, inr, refl, ap, ◌∙◌, Option, none, some, List, [], ◌∷◌, ◌++◌,
  append-nil, append_assoc, length, ltb, if◌then◌else◌, take, arith, Bool-cases, lt→ltb, le→ltb,
  length-take,
}
use multi_thread_log.AsyncLogging.{
  Backend, BufferVector, Call, write, flush, process, reclaim, drop_excess, finish_round, non_empty,
  too_many, dropped_message,
}
use multi_thread_log.AsyncLogging.Contents.{IsFresh, AreBuffers, contents, written, written-append}
use multi_thread_log.AsyncLogging.Exchange.{IsResting, IsWriting}
use multi_thread_log.AsyncLogging.Reclaim.{
  calls_of, written-calls_of, write_all-calls_of, Reclaimed, reclaim-Reclaimed, take-AreBuffers,
  ne-nil_of_length, length_of_ne-nil,
}

-- What a round did: both spares are back, and `bytes` went to the log file, which was then flushed.
pub record Rounded (n : ℕ) (t : Backend) (bytes : List ℕ) (r : Option Backend) : Type 0 where
  pub after : Backend
  pub returns : r ≡ some after
  pub resting : IsResting n after
  pub handed : written after.output ≡ written t.output ++ bytes
  pub flushed : (cs : List Call) × (after.output ≡ cs ++ flush ∷ [])

module _ (n : ℕ) (t : Backend) (w : IsWriting n t) where
  open t use {buffers_to_write as v}

  kept : BufferVector
  kept = if ltb 2 (length v) then take 2 v else v

  length-kept : (length kept ≡ length v) ⊎ (2 ≤ length kept)
  unfolding kept
  length-kept = ground (arith, length-take 2 v)

  kept-AreBuffers : AreBuffers n kept
  unfolding kept
  kept-AreBuffers = elim (Bool-cases (ltb 2 (length v))) [
    | inl e ↦ rw e (take-AreBuffers n 2 v w.buffers_in)
    | inr e ↦ rw e w.buffers_in
  ]

  finish_round-Rounded : Rounded n t (contents v) (finish_round t)
  unfolding finish_round kept
  finish_round-Rounded = record {
    after = record {
      new_buffer1 = r1.fresh;
      new_buffer2 = r2.fresh;
      buffers_to_write = [];
      output = (t.output ++ calls_of v) ++ flush ∷ [];
      errors = t.errors;
    };
    returns =
        rw (write_all-calls_of n v t.output w.buffers_in, w.first_gone, r1.returns, r2.returns);
    resting = record { first_in = r1.fresh_in; second_in = r2.fresh_in; none_left = refl };
    handed =
        written-append (t.output ++ calls_of v) (flush ∷ [])
        ∙ append-nil _
        ∙ written-append t.output (calls_of v)
        ∙ ap (λ bs. written t.output ++ bs) (written-calls_of v);
    flushed = (t.output ++ calls_of v, refl);
  }
    where
      some_kept : 1 ≤ length kept
      some_kept = omega (arith, length-kept, length_of_ne-nil v w.some_left)

      r1 : Reclaimed n none kept (reclaim none kept)
      r1 = reclaim-Reclaimed n none kept kept-AreBuffers (inr (refl, ne-nil_of_length some_kept))

      second :
          IsFresh n t.new_buffer2 ⊎ ((t.new_buffer2 ≡ none) × (2 ≤ length v))
          → IsFresh n t.new_buffer2 ⊎ ((t.new_buffer2 ≡ none) × (r1.rest ≢ []))
      second (inl f) = inl f
      second (inr e) = inr (e.0, ne-nil_of_length (omega (arith, length-kept, r1.enough, e.1)))

      r2 : Reclaimed n t.new_buffer2 r1.rest (reclaim t.new_buffer2 r1.rest)
      r2 = reclaim-Reclaimed n t.new_buffer2 r1.rest r1.rest_in (second w.second_in)

non_empty-some : (v : BufferVector) → v ≢ [] → non_empty v ≡ some v
unfolding non_empty
non_empty-some [] h = absurd (h refl)
non_empty-some (p ∷ v) h = refl

-- Up to 25 buffers are all written, in order.
pub process_fits :
    (n : ℕ) (now : List ℕ) (t : Backend)
    → IsWriting n t
    → length t.buffers_to_write ≤ too_many
    → Rounded n t (contents t.buffers_to_write) (process now t)
unfolding process drop_excess
process_fits n now t w few =
    rw (non_empty-some t.buffers_to_write w.some_left)
      (rw (le→ltb too_many (length t.buffers_to_write) few) (finish_round-Rounded n t w))

-- A round with more than 25 buffers returns: it writes the message that buffers were dropped, then the
-- first two of them and no other, and has two fresh spare buffers again.
pub process_overruns :
    (n : ℕ) (now : List ℕ) (t : Backend)
    → IsWriting n t
    → too_many < length t.buffers_to_write
    → Rounded n t
        (dropped_message now (length t.buffers_to_write) ++ contents (take 2 t.buffers_to_write))
        (process now t)
unfolding process drop_excess
process_overruns n now t w many =
    rw (non_empty-some v w.some_left, lt→ltb too_many (length v) many)
      (record {
        after = r.after;
        returns = r.returns;
        resting = r.resting;
        handed =
            r.handed
            ∙ ap (λ bs. bs ++ contents (take 2 v))
                (written-append t.output (write message ∷ [])
                  ∙ ap (λ bs. written t.output ++ bs) (append-nil message))
            ∙ append_assoc (written t.output) message _;
        flushed = r.flushed;
      })
  where
    open t use {buffers_to_write as v}

    cut : Backend
    cut = record t {
      buffers_to_write = take 2 v;
      output = t.output ++ write (dropped_message now (length v)) ∷ [];
      errors = t.errors ++ dropped_message now (length v);
    }

    message : List ℕ
    message = dropped_message now (length v)

    still :
        IsFresh n t.new_buffer2 ⊎ ((t.new_buffer2 ≡ none) × (2 ≤ length v))
        → IsFresh n t.new_buffer2 ⊎ ((t.new_buffer2 ≡ none) × (2 ≤ length (take 2 v)))
    still (inl f) = inl f
    still (inr e) = inr (e.0, omega (arith, length-take 2 v))

    cut-IsWriting : IsWriting n cut
    cut-IsWriting = record {
      some_left = ne-nil_of_length (omega (arith, length-take 2 v));
      buffers_in = take-AreBuffers n 2 v w.buffers_in;
      first_gone = w.first_gone;
      second_in = still w.second_in;
    }

    r : Rounded n cut (contents (take 2 v)) (finish_round cut)
    r = finish_round-Rounded n cut cut-IsWriting
