-- ===== src/AsyncLogging/Contents.antt =====
-- What buffers and calls hold, and when a buffer is usable.
use multi_thread_log.Common.{
  ℕ, ◌≤◌, ◌≡◌, ◌≢◌, ◌⊎◌, refl, sym, ap, ◌∙◌, none, some, List, [], ◌∷◌, ◌++◌, append-nil,
  append_assoc, length, ltb, take, arith, if◌then◌else◌,
}
use multi_thread_log.LogStream.FixedBuffer.{FixedBuffer, to_string}
use multi_thread_log.AsyncLogging.{BufferPtr, BufferVector, Shared, Call, write, flush}

-- A pointer to a buffer of size `n`.
abbrev pub IsBuffer : ℕ → BufferPtr → Type 0
IsBuffer n none = ⊥
IsBuffer n (some b) = (b.cur ≤ length b.bytes) × (length b.bytes ≡ n)

-- A pointer to an empty buffer of size `n`.
abbrev pub IsFresh : ℕ → BufferPtr → Type 0
IsFresh n none = ⊥
IsFresh n (some b) = (b.cur ≡ 0) × (length b.bytes ≡ n)

abbrev pub AreBuffers : ℕ → BufferVector → Type 0
AreBuffers n [] = Unit
AreBuffers n (p ∷ ps) = IsBuffer n p × AreBuffers n ps

abbrev pub content : BufferPtr → List ℕ
content none = []
content (some b) = to_string b

abbrev pub contents : BufferVector → List ℕ
contents [] = []
contents (p ∷ ps) = content p ++ contents ps

-- The bytes that a list of calls hands to the log file.
abbrev pub written : List Call → List ℕ
written [] = []
written (write s ∷ cs) = s ++ written cs
written (flush ∷ cs) = written cs

-- A line that is as long as a buffer, or longer, fits in none.
abbrev pub accepted : ℕ → List ℕ → List ℕ
accepted n line = if ltb (length line) n then line else []

-- The members of the shared state between two steps: `next` is used up only if a full buffer waits.
pub record IsShared (n : ℕ) (s : Shared) : Type 0 where
  pub current_in : IsBuffer n s.current
  pub buffers_in : AreBuffers n s.buffers
  pub next_in : IsFresh n s.next ⊎ ((s.next ≡ none) × (s.buffers ≢ []))

-- What the front end has handed over and the logging thread has not taken.
abbrev pub pending : Shared → List ℕ
pending s = contents s.buffers ++ content s.current

pub contents-append : (ps qs : BufferVector) → contents (ps ++ qs) ≡ contents ps ++ contents qs
contents-append [] qs = refl
contents-append (p ∷ ps) qs =
    ap (λ t. content p ++ t) (contents-append ps qs) ∙ sym (append_assoc (content p) _ _)

pub contents-snoc :
    (ps : BufferVector) (p : BufferPtr) → contents (ps ++ p ∷ []) ≡ contents ps ++ content p
contents-snoc ps p =
    contents-append ps (p ∷ []) ∙ ap (λ t. contents ps ++ t) (append-nil (content p))

pub written-append : (cs ds : List Call) → written (cs ++ ds) ≡ written cs ++ written ds
written-append [] ds = refl
written-append (write s ∷ cs) ds =
    ap (λ t. s ++ t) (written-append cs ds) ∙ sym (append_assoc s _ _)
written-append (flush ∷ cs) ds = written-append cs ds

pub AreBuffers-snoc :
    (n : ℕ) (ps : BufferVector) (p : BufferPtr)
    → AreBuffers n ps
    → IsBuffer n p
    → AreBuffers n (ps ++ p ∷ [])
AreBuffers-snoc n [] p h q = (q, tt)
AreBuffers-snoc n (x ∷ ps) p h q = (h.0, AreBuffers-snoc n ps p h.1 q)

pub to_string_fresh : (b : FixedBuffer) → b.cur ≡ 0 → to_string b ≡ []
unfolding to_string
to_string_fresh b e = ap (λ k. take k b.bytes) e

pub content_fresh : (n : ℕ) (p : BufferPtr) → IsFresh n p → content p ≡ []
content_fresh n none f = absurd f
content_fresh n (some b) f = to_string_fresh b f.0

pub IsFresh-IsBuffer : (n : ℕ) (p : BufferPtr) → IsFresh n p → IsBuffer n p
IsFresh-IsBuffer n none f = f
IsFresh-IsBuffer n (some b) f = (omega arith, f.1)

pub snoc-ne-nil {ℓ} : {A : Type ℓ} (xs : List A) (x : A) → xs ++ x ∷ [] ≢ []
snoc-ne-nil [] x e = cc
snoc-ne-nil (y ∷ xs) x e = cc
