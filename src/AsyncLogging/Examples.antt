-- ===== src/AsyncLogging/Examples.antt =====
-- Runs with buffers of four bytes, and the theorems at them.
use multi_thread_log.Common.{
  ℕ, ◌≡◌, inl, refl, sym, subst, none, some, List, [], ◌∷◌, ◌++◌, length, arith, replicate,
}
use multi_thread_log.LogStream.FixedBuffer
use multi_thread_log.AsyncLogging.{
  Shared, Backend, exchange, process, append, init, start_backend, zeroed, dropped_message, refill,
  is_null, drop_excess, finish_round, non_empty, write_all, reclaim, pop_back,
}
use multi_thread_log.AsyncLogging.Contents.{pending, contents}
use multi_thread_log.AsyncLogging.{write, flush}
use multi_thread_log.AsyncLogging.Pipeline.{perform, AreGood, perform-history}
use multi_thread_log.LogFile
use multi_thread_log.LogFile.{LogFile, Config, Moment}
use multi_thread_log.LogFile.Stored.{stored}
use multi_thread_log.FileUtil.AppendFile.Looping.{AllGood}
use multi_thread_log.AsyncLogging.Exchange.{IsWriting}
use multi_thread_log.AsyncLogging.Round.{Rounded, process_overruns}
use multi_thread_log.AsyncLogging.Steps.{
  waiting, writing, System, appends, starts, enters, tests, locks, wakes, writes, do_write,
  do_append, do_start, do_enter, do_test, do_wait, do_wake, Run, begin, then_step,
}
use multi_thread_log.AsyncLogging.Carried.{carried, IsLossless}
use multi_thread_log.AsyncLogging.System.{Run-carried}
use multi_thread_log.AsyncLogging.Progress.{
  append_progress, write_progress, Delivered, round_delivers,
}

-- What a test computes through.
program : Unit {0}
unfolding append refill init zeroed start_backend exchange is_null process drop_excess finish_round
    non_empty write_all reclaim pop_back FixedBuffer.make FixedBuffer.bzero FixedBuffer.reset
    FixedBuffer.add FixedBuffer.c_string FixedBuffer.store FixedBuffer.append FixedBuffer.to_string
program = tt

abbrev line : List ℕ
line = 7 ∷ 8 ∷ []

abbrev memory : List ℕ
memory = 0 ∷ 0 ∷ 0 ∷ 0 ∷ []

-- Two lines, of which the second needs the next buffer; then the logging thread waits.
two_lines :
    (s : System) × Run 4 (appends line ∷ locks ∷ tests ∷ appends line ∷ enters ∷ starts ∷ []) s
    × (s.pc ≡ waiting)
    × (length s.shared.buffers ≡ 1)
unfolding program
two_lines = (
  _,
  then_step
      (then_step
        (then_step
          (then_step (then_step (then_step begin (do_start refl refl)) (do_enter refl refl refl))
            (do_append memory line [] _ refl (omega arith) refl refl))
          (do_test refl refl refl))
        (do_wait refl refl refl))
      (do_append memory line [] _ refl (omega arith) refl refl),
  refl,
  refl,
)

taken :
    (s : System) × Run 4
      (wakes ∷ appends line ∷ locks ∷ tests ∷ appends line ∷ enters ∷ starts ∷ [])
      s
    × (s.pc ≡ writing)
taken = (_, then_step two_lines.1 (do_wake two_lines.2 refl), refl)

never_overran : IsLossless (appends line ∷ locks ∷ tests ∷ appends line ∷ enters ∷ starts ∷ [])
never_overran = (λ e. e, (λ e. e, (λ e. e, (λ e. e, (λ e. e, (λ e. e, tt))))))

Run-carried_example : carried two_lines.0 ≡ 7 ∷ 8 ∷ 7 ∷ 8 ∷ []
Run-carried_example = Run-carried two_lines.1 never_overran

append_progress_example :
    (sh : Shared) × (append (two_lines.0).shared memory (line ++ 0 ∷ []) 2 ≡ some sh)
append_progress_example = append_progress two_lines.1 memory line [] refl (omega arith)

write_progress_example : (b : Backend) × (process line (taken.0).backend ≡ some b)
write_progress_example = write_progress taken.1 taken.2 line

round_delivers_example : Delivered 4 two_lines.0 (7 ∷ 8 ∷ 7 ∷ 8 ∷ [])
round_delivers_example =
    round_delivers two_lines.1 never_overran (inl two_lines.2) (omega (arith, two_lines.3)) []

-- A logging thread with 26 buffers to write.
flooded : Backend
unfolding zeroed
flooded = record {
  new_buffer1 = none;
  new_buffer2 = zeroed 4;
  buffers_to_write = replicate 26 (zeroed 4);
  output = [];
  errors = [];
}

flooded-IsWriting : IsWriting 4 flooded
unfolding flooded program
flooded-IsWriting = record {
  some_left = λ e. cc;
  buffers_in = omega arith;
  first_gone = refl;
  second_in = inl (omega arith);
}

process_overruns_example : Rounded 4 flooded (dropped_message line 26 ++ []) (process line flooded)
unfolding flooded program
process_overruns_example = process_overruns 4 line flooded flooded-IsWriting (omega arith)

-- What the logging thread has taken is written.
written_out :
    (s : System) × Run 4
      (writes ∷ wakes ∷ appends line ∷ locks ∷ tests ∷ appends line ∷ enters ∷ starts ∷ [])
      s
    × (s.backend.output ≡ write line ∷ write line ∷ flush ∷ [])
unfolding program taken two_lines
written_out = (_, then_step taken.1 (do_write [] _ refl (omega arith) refl refl), refl)

abbrev some_config : Config
some_config = record {
  basename = [];
  roll_size = 2;
  flush_interval = 3;
  check_every_n = 2;
  hostname = [];
  pid = 42;
  strftime = λ now. [];
}

-- The file takes one byte at a time.
abbrev slow : Moment
slow = record {
  answers = record { count = 1; error = 0 } ∷ record { count = 1; error = 0 } ∷ [];
  check_time = 90000;
  roll_time = 90001;
}

slow_is_good : AllGood slow.answers
slow_is_good = (omega arith, refl, (omega arith, refl, tt))

perform-history_example :
    (l : LogFile) × (perform written_out.0.backend.output
        (slow ∷ slow ∷ [])
        (LogFile.make some_config 90000)
      ≡ some l)
    × (stored l ++ (contents written_out.0.backend.buffers_to_write ++ pending written_out.0.shared)
        ≡ 7 ∷ 8 ∷ 7 ∷ 8 ∷ [])
    × (contents written_out.0.backend.buffers_to_write ++ pending written_out.0.shared ≡ []
        → stored l ≡ 7 ∷ 8 ∷ 7 ∷ 8 ∷ [])
perform-history_example =
    perform-history written_out.1 (λ e. e, (λ e. e, never_overran)) some_config 90000
      (slow ∷ slow ∷ []) (omega arith)
      (subst (λ cs. AreGood cs (slow ∷ slow ∷ [])) (sym written_out.2)
        (slow_is_good, omega arith, (slow_is_good, omega arith, tt)))
