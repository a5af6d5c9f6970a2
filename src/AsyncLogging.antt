-- ===== src/AsyncLogging.antt =====
-- AsyncLogging.h and AsyncLogging.cc: the front end `append`, the back end `threadFunc`, and their
-- interleavings. What stands under the lock of `mutex_` is one step.
pub mod Statements
pub mod Steps
pub mod Contents
pub mod Append
pub mod Exchange
pub mod Reclaim
pub mod Round
pub mod Carried
pub mod System
pub mod Progress
pub mod Pipeline
mod Examples
use multi_thread_log.Common.{
  ℕ, ◌-◌, ◌≡◌, Bool, true, false, Option, none, some, List, [], ◌∷◌, ◌++◌, ltb, ◌==◌, if◌then◌else◌,
  ◌>>=◌, length, take, replicate, codes,
}
use multi_thread_log.Common.Decimal.{decimal, snprintf}
use multi_thread_log.LogStream.FixedBuffer.{FixedBuffer, avail, to_string}
use multi_thread_log.LogStream.FixedBuffer

-- `unique_ptr<Buffer>`: `none` is the null pointer, which a move leaves behind.
abbrev pub BufferPtr : Type 0
BufferPtr = Option FixedBuffer

abbrev pub BufferVector : Type 0
BufferVector = List BufferPtr

-- The members that the threads share.
pub record Shared : Type 0 where
  pub running : Bool
  pub current : BufferPtr
  pub next : BufferPtr
  pub buffers : BufferVector

-- A call that the logging thread makes of its `LogFile`.
pub data Call : Type 0 where
  write : List ℕ → Call
  flush : Call

-- The local variables of `threadFunc`; `output` lists the calls of the `LogFile`, oldest first, and
-- `errors` is what was put to `stderr`.
pub record Backend : Type 0 where
  pub new_buffer1 : BufferPtr
  pub new_buffer2 : BufferPtr
  pub buffers_to_write : BufferVector
  pub output : List Call
  pub errors : List ℕ

-- `new Buffer` and `bzero`, at the size `n` of a buffer.
pub zeroed : ℕ → BufferPtr
unfolding FixedBuffer.make FixedBuffer.bzero
zeroed n = some (FixedBuffer.bzero (FixedBuffer.make (replicate n 0)))

-- The constructor.
pub init : ℕ → Shared
unfolding zeroed
init n = record { running = false; current = zeroed n; next = zeroed n; buffers = [] }

-- `*p`
abbrev pub deref : BufferPtr → Option FixedBuffer
deref p = p

-- `memory` is what a `new Buffer` finds in the heap.
refill : BufferPtr → List ℕ → FixedBuffer
refill (some b) memory = b
refill none memory = FixedBuffer.make memory

-- `append`, called by any thread.
pub append : Shared → List ℕ → List ℕ → ℕ → Option Shared
unfolding refill FixedBuffer.make
append s memory logline len = do
  b ← deref s.current
  if ltb len (avail b)
      then (FixedBuffer.append b logline len >>= λ b'. some (record s { current = some b' }))
      else (FixedBuffer.append (refill s.next memory) logline len >>= λ b'.
          some (record s { current = some b'; next = none; buffers = s.buffers ++ s.current ∷ [] }))

-- The local variables when the loop of `threadFunc` is entered.
pub start_backend : ℕ → Backend
unfolding zeroed
start_backend n = record {
  new_buffer1 = zeroed n;
  new_buffer2 = zeroed n;
  buffers_to_write = [];
  output = [];
  errors = [];
}

is_null : BufferPtr → Bool
is_null none = true
is_null (some b) = false

-- The section under the lock, after the wait: the full buffers and the current one go to the
-- logging thread, which gives `new_buffer1`, and `new_buffer2` if `next` was used up.
pub exchange : Shared → Backend → Shared × Backend
unfolding is_null
exchange s t = (
  record s {
    current = t.new_buffer1;
    next = if is_null s.next then t.new_buffer2 else s.next;
    buffers = t.buffers_to_write;
  },
  record t {
    new_buffer1 = none;
    new_buffer2 = if is_null s.next then none else t.new_buffer2;
    buffers_to_write = s.buffers ++ s.current ∷ [];
  },
)

-- `now` is the text of `Timestamp::now().toFormattedString()`.
abbrev pub dropped_message : List ℕ → ℕ → List ℕ
dropped_message now size = snprintf 256 (
    codes "Dropped log messages at "
    ++ (now ++ (codes ", " ++ (decimal (size - 2) ++ (codes " larger buffers" ++ 10 ∷ [])))))

abbrev pub too_many : ℕ
too_many = 25

-- Above 25 buffers all but the first two are dropped, and a message says so, to `stderr` and in the file.
pub drop_excess : List ℕ → Backend → Backend
drop_excess now t =
    if ltb too_many (length t.buffers_to_write)
    then record t {
      buffers_to_write = take 2 t.buffers_to_write;
      output = t.output ++ write (dropped_message now (length t.buffers_to_write)) ∷ [];
      errors = t.errors ++ dropped_message now (length t.buffers_to_write);
    }
    else t

-- The loop over `buffers_to_write`.
pub write_all : BufferVector → List Call → Option (List Call)
write_all [] out = some out
write_all (p ∷ ps) out = do b ← deref p; write_all ps (out ++ write (to_string b) ∷ [])

-- `back()` and `pop_back()`, which want a vector that is not empty.
pub pop_back : BufferVector → Option (BufferVector × BufferPtr)
pop_back [] = none
pop_back (p ∷ ps) = elim ps [
  | [] ↦ some ([], p)
  | _ ∷ _ ↦ (pop_back ps >>= λ r. some (p ∷ r.0, r.1))
]

-- `if (!p) { p = move(v.back()); v.pop_back(); p->reset(); }`, with its assertion.
pub reclaim : BufferPtr → BufferVector → Option (BufferPtr × BufferVector)
unfolding pop_back FixedBuffer.reset
reclaim (some b) v = some (some b, v)
reclaim none v = do r ← pop_back v; b ← deref r.1; some (some (FixedBuffer.reset b), r.0)

-- `assert(!buffersToWrite.empty())`
non_empty : BufferVector → Option BufferVector
non_empty [] = none
non_empty (p ∷ ps) = some (p ∷ ps)

-- The buffers are written, two are kept to become the spare buffers again, and the file is flushed.
pub finish_round : Backend → Option Backend
unfolding write_all reclaim
finish_round t = do
  out ← write_all t.buffers_to_write t.output
  let kept =
      if ltb 2 (length t.buffers_to_write) then take 2 t.buffers_to_write else t.buffers_to_write
  r1 ← reclaim t.new_buffer1 kept
  r2 ← reclaim t.new_buffer2 r1.1
  some (record {
    new_buffer1 = r1.0;
    new_buffer2 = r2.0;
    buffers_to_write = [];
    output = out ++ flush ∷ [];
    errors = t.errors;
  })

-- The loop's body after the exchange; it touches the thread's own variables only.
pub process : List ℕ → Backend → Option Backend
unfolding non_empty drop_excess finish_round
process now t = do v ← non_empty t.buffers_to_write; finish_round (drop_excess now t)
