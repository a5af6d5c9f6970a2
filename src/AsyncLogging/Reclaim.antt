-- ===== src/AsyncLogging/Reclaim.antt =====
-- The loop that writes the buffers, and the two buffers that are taken back.
use multi_thread_log.Common.{
  ℕ, zero, suc, ◌+◌, ◌≤◌, ◌≡◌, ◌≢◌, ◌⊎◌, inl, inr, refl, sym, ap, ◌∙◌, Option, none, some, List, [],
  ◌∷◌, ◌++◌, append-nil, append_assoc, length, take, arith,
}
use multi_thread_log.LogStream.FixedBuffer.{reset, to_string}
use multi_thread_log.AsyncLogging.{
  BufferPtr, BufferVector, Call, write, write_all, pop_back, reclaim,
}
use multi_thread_log.AsyncLogging.Contents.{
  IsBuffer, IsFresh, AreBuffers, content, contents, written,
}

unfoldable pub calls_of : BufferVector → List Call
calls_of [] = []
calls_of (p ∷ ps) = write (content p) ∷ calls_of ps

pub written-calls_of : (ps : BufferVector) → written (calls_of ps) ≡ contents ps
unfolding calls_of
written-calls_of [] = refl
written-calls_of (p ∷ ps) = ap (λ t. content p ++ t) (written-calls_of ps)

pub write_all-calls_of :
    (n : ℕ) (ps : BufferVector) (out : List Call)
    → AreBuffers n ps
    → write_all ps out ≡ some (out ++ calls_of ps)
unfolding write_all calls_of
write_all-calls_of n [] out h = ap some (sym (append-nil out))
write_all-calls_of n (none ∷ ps) out h = absurd h.0
write_all-calls_of n (some b ∷ ps) out h =
    write_all-calls_of n ps _ h.1
    ∙ ap some (append_assoc out (write (to_string b) ∷ []) (calls_of ps))

-- `pop_back` takes one buffer off.
record Popped (n : ℕ) (v : BufferVector) (r : Option (BufferVector × BufferPtr)) : Type 0 where
  pub rest : BufferVector
  pub last : BufferPtr
  pub returns : r ≡ some (rest, last)
  pub rest_in : AreBuffers n rest
  pub last_in : IsBuffer n last
  pub one_less : length rest + 1 ≡ length v

pop_back-Popped : (n : ℕ) (v : BufferVector) → AreBuffers n v → v ≢ [] → Popped n v (pop_back v)
unfolding pop_back
pop_back-Popped n [] h e = absurd (e refl)
pop_back-Popped n (p ∷ []) h e = record {
  rest = [];
  last = p;
  returns = refl;
  rest_in = tt;
  last_in = h.0;
  one_less = omega arith;
}
pop_back-Popped n (p ∷ q ∷ ps) h e =
    let w = pop_back-Popped n (q ∷ ps) h.1 (λ f. cc) in
    record {
      rest = p ∷ w.rest;
      last = w.last;
      returns = rw w.returns;
      rest_in = (h.0, w.rest_in);
      last_in = w.last_in;
      one_less = omega (arith, w.one_less);
    }

-- `reclaim` yields a fresh buffer, and takes one off the vector if the pointer was null.
pub record Reclaimed (n : ℕ) (p : BufferPtr) (v : BufferVector)
    (r : Option (BufferPtr × BufferVector)) : Type 0 where
  pub fresh : BufferPtr
  pub rest : BufferVector
  pub returns : r ≡ some (fresh, rest)
  pub fresh_in : IsFresh n fresh
  pub rest_in : AreBuffers n rest
  pub enough : length v ≤ length rest + 1

reclaim_null :
    (n : ℕ) (v : BufferVector) → AreBuffers n v → v ≢ [] → Reclaimed n none v (reclaim none v)
unfolding reclaim
reclaim_null n v h e = finish w.last w.last_in w.returns
  where
    w : Popped n v (pop_back v)
    w = pop_back-Popped n v h e

    finish :
        (p : BufferPtr)
        → IsBuffer n p
        → pop_back v ≡ some (w.rest, p)
        → Reclaimed n none v (reclaim none v)
    finish none b f = absurd b
    finish (some b) q f = record {
      fresh = some (reset b);
      rest = w.rest;
      returns = rw (f, reclaim);
      fresh_in = (refl, q.1);
      rest_in = w.rest_in;
      enough = omega (arith, w.one_less);
    }

pub reclaim-Reclaimed :
    (n : ℕ) (p : BufferPtr) (v : BufferVector)
    → AreBuffers n v
    → IsFresh n p ⊎ ((p ≡ none) × (v ≢ []))
    → Reclaimed n p v (reclaim p v)
unfolding reclaim
reclaim-Reclaimed n none v h (inl f) = absurd f
reclaim-Reclaimed n none v h (inr e) = reclaim_null n v h e.1
reclaim-Reclaimed n (some b) v h (inl f) = record {
  fresh = some b;
  rest = v;
  returns = refl;
  fresh_in = f;
  rest_in = h;
  enough = omega arith;
}
reclaim-Reclaimed n (some b) v h (inr e) = absurd (cc)

pub take-AreBuffers : (n k : ℕ) (v : BufferVector) → AreBuffers n v → AreBuffers n (take k v)
take-AreBuffers n zero v h = tt
take-AreBuffers n (suc k) [] h = tt
take-AreBuffers n (suc k) (p ∷ v) h = (h.0, take-AreBuffers n k v h.1)

pub ne-nil_of_length : {v : BufferVector} → 1 ≤ length v → v ≢ []
ne-nil_of_length h e = omega (arith, ap length e)

pub length_of_ne-nil : (v : BufferVector) → v ≢ [] → 1 ≤ length v
length_of_ne-nil [] h = absurd (h refl)
length_of_ne-nil (p ∷ v) h = omega arith
