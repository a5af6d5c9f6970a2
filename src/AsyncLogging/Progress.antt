-- ===== src/AsyncLogging/Progress.antt =====
-- Calls, rounds and stops in a run of the system.
use multi_thread_log.Common.{
  ℕ, ◌≤◌, ◌<◌, ◌≡◌, ◌≢◌, ◌⊎◌, inl, inr, refl, sym, ap, subst, ◌∙◌, some, List, [], ◌∷◌, ◌++◌, true,
  false, length, arith, dec_le, lt→ltb, replicate, length-replicate, length-append,
}
use multi_thread_log.LogStream.FixedBuffer.Append.{NoNul}
use multi_thread_log.AsyncLogging.{
  Shared, Backend, Call, flush, exchange, process, append, init, start_backend, zeroed, too_many,
}
use multi_thread_log.AsyncLogging.Contents.{
  IsShared, contents, pending, written, accepted, content_fresh,
}
use multi_thread_log.AsyncLogging.Append.{Appends, append-Appends}
use multi_thread_log.AsyncLogging.Exchange.{IsResting, IsWriting, Exchanged, exchange-Exchanged}
use multi_thread_log.AsyncLogging.Round.{Rounded, process_fits, process_overruns}
use multi_thread_log.AsyncLogging.Steps.{
  testing, locking, waiting, writing, done, System, Event, appends, starts, enters, stops, tests,
  locks, wakes, writes, Step, do_append, do_start, do_enter, do_stop, do_leave, do_exchange,
  do_wake, do_write, Run, begin, then_step,
}
use multi_thread_log.AsyncLogging.Carried.{
  IsSystem, carried, history, IsLossless, zeroed-IsFresh, init-IsShared,
}
use multi_thread_log.AsyncLogging.System.{Run-IsSystem, Run-carried}

-- After any run `append` can be called on any terminated line: it meets no null pointer and writes
-- outside no buffer.
pub append_progress :
    {n : ℕ} {es : List Event} {s : System}
    → Run n es s
    → (memory line rest : List ℕ) → length memory ≡ n
    → NoNul line
    → (sh : Shared) × (append s.shared memory (line ++ 0 ∷ rest) (length line) ≡ some sh)
append_progress {n} {es} {s} r memory line rest size nn =
    let w = append-Appends n s.shared memory line rest (Run-IsSystem r).shared_in size nn in
    (w.after, w.returns)

-- After any run a round of the logging thread that has its buffers can be finished: its assertions
-- hold, and `pop_back` and the two `reset` meet a buffer.
pub write_progress :
    {n : ℕ} {es : List Event} {s : System}
    → Run n es s
    → s.pc ≡ writing
    → (now : List ℕ) → (b : Backend) × (process now s.backend ≡ some b)
write_progress {n} {es} {s} r p now = elim (dec_le (length s.backend.buffers_to_write) too_many) [
  | yes few ↦ let w = process_fits n now s.backend v few in (w.after, w.returns)
  | no many ↦ let w = process_overruns n now s.backend v (omega arith) in (w.after, w.returns)
]
  where
    v : IsWriting n s.backend
    v = rw p at (Run-IsSystem r).backend_in

-- The logging thread is about to take the buffers.
abbrev pub IsTaking : System → Type 0
IsTaking s = (s.pc ≡ waiting) ⊎ ((s.pc ≡ locking) × (s.shared.buffers ≢ []))

-- What the two steps of a round come to.
pub record Delivered (n : ℕ) (s : System) (bytes : List ℕ) : Type 0 where
  pub middle : System
  pub after : System
  pub takes : Event
  pub first : Step n s middle takes
  pub second : Step n middle after writes
  pub in_file : written after.backend.output ≡ bytes
  pub flushed : (cs : List Call) × (after.backend.output ≡ cs ++ flush ∷ [])
  pub nothing_left : pending after.shared ≡ []
  pub loops : after.pc ≡ testing

module _ {n : ℕ} {s : System} (v : IsSystem n s) (now : List ℕ)
    (few : length s.shared.buffers < too_many) where
  deliver :
      (takes : Event)
      → IsResting n s.backend
      → Step n s
          (record {
            shared = (exchange s.shared s.backend).0;
            backend = (exchange s.shared s.backend).1;
            pc = writing;
          })
          takes
      → Delivered n s (carried s)
  unfolding exchange
  deliver takes r st = record {
    middle = middle;
    after = record middle { backend = w.after; pc = testing };
    takes = takes;
    first = st;
    second = do_write now w.after refl fits w.returns refl;
    in_file =
        w.handed
        ∙ ap (λ bs. written s.backend.output ++ bs)
            (x.taken ∙ sym (ap (λ ps. contents ps ++ pending s.shared) r.none_left));
    flushed = w.flushed;
    nothing_left = x.left;
    loops = refl;
  }
    where
      x : Exchanged n s.shared (exchange s.shared s.backend)
      x = exchange-Exchanged n s.shared s.backend v.shared_in r

      middle : System
      middle = record {
        shared = (exchange s.shared s.backend).0;
        backend = (exchange s.shared s.backend).1;
        pc = writing;
      }

      fits : length (s.shared.buffers ++ s.shared.current ∷ []) ≤ too_many
      fits = omega (arith, length-append s.shared.buffers (s.shared.current ∷ []))

      w :
          Rounded n
            (exchange s.shared s.backend).1
            (contents (s.shared.buffers ++ s.shared.current ∷ []))
            (process now (exchange s.shared s.backend).1)
      w = process_fits n now (exchange s.shared s.backend).1 x.writing fits

  deliver_taking : IsTaking s → Delivered n s (carried s)
  deliver_taking (inl p) = deliver wakes (rw p at v.backend_in) (do_wake p refl)
  deliver_taking (inr h) = deliver locks (rw h.0 at v.backend_in) (do_exchange h.0 h.1 refl)

-- From where the logging thread is about to take the buffers, if fewer than 25 are full and no earlier
-- round overran, the next two steps put every line of the run that is shorter than a buffer into the
-- log file, in the order of the calls, flush the file, leave nothing with the front end, and come back to
-- the loop's test.
pub round_delivers :
    {n : ℕ} {es : List Event} {s : System}
    → Run n es s
    → IsLossless es
    → IsTaking s
    → length s.shared.buffers < too_many
    → (now : List ℕ) → Delivered n s (history n es)
round_delivers {n} {es} {s} r h p few now =
    subst (Delivered n s) (Run-carried r h) (deliver_taking (Run-IsSystem r) now few p)

-- A stop may lose lines: where the logging thread leaves its loop, what the front end still holds is
-- not written, as here a line that was appended before the stop.
stop_loses :
    (n : ℕ) (line : List ℕ)
    → NoNul line
    → length line < n
    → (s : System) × Run n (tests ∷ stops ∷ appends line ∷ enters ∷ starts ∷ []) s
      × (s.pc ≡ done)
      × (written s.backend.output ≡ [])
      × (pending s.shared ≡ line)
unfolding init
stop_loses n line nn short = (
  record {
    shared = record (w.after) { running = false };
    backend = record (start_backend n) { output = (start_backend n).output ++ flush ∷ [] };
    pc = done;
  },
  then_step
      (then_step
        (then_step (then_step (then_step begin (do_start refl refl)) (do_enter refl refl refl))
          (do_append (replicate n 0) line [] w.after (length-replicate n 0) nn w.returns refl))
        (do_stop refl))
      (do_leave refl refl refl),
  refl,
  (unfold start_backend in refl),
  w.handed
      ∙ ap (λ bs. bs ++ accepted n line) (content_fresh n (zeroed n) (zeroed-IsFresh n))
      ∙ taken,
)
  where
    started : Shared
    started = record (init n) { running = true }

    v : IsShared n (init n)
    v = init-IsShared n

    w : Appends n started line (append started (replicate n 0) (line ++ 0 ∷ []) (length line))
    w =
        append-Appends n started (replicate n 0) line []
          (record { current_in = v.current_in; buffers_in = v.buffers_in; next_in = v.next_in })
          (length-replicate n 0) nn

    taken : accepted n line ≡ line
    taken = rw (lt→ltb (length line) n short)
