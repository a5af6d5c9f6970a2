-- ===== src/AsyncLogging/Statements/Examples.antt =====
-- A statement whose line goes to the front end, with a stream and buffers of 200 bytes.
use multi_thread_log.Common.{
  ℕ, ◌≡◌, inl, inr, refl, sym, subst, zero, suc, some, List, [], ◌∷◌, ◌++◌, arith, codes, replicate,
  length-replicate,
}
use multi_thread_log.AsyncLogging.{
  append, init, refill, start_backend, zeroed, is_null, write, flush, exchange, process,
  drop_excess, finish_round, non_empty, write_all, reclaim, pop_back,
}
use multi_thread_log.AsyncLogging.Contents.{contents, pending}
use multi_thread_log.AsyncLogging.Pipeline.{perform, AreGood}
use multi_thread_log.AsyncLogging.Statements.{Statement, IsUsual, Emits, stored-appended}
use multi_thread_log.AsyncLogging.Steps.{
  System, appends, starts, enters, tests, locks, wakes, writes, do_append, do_start, do_enter,
  do_test, do_wait, do_wake, do_write, Run, begin, then_step,
}
use multi_thread_log.Common.Decimal.{print_blank, print_zero, padded, decimal, digits_before}
use multi_thread_log.Common.Int.{◌+ℤ◌, quot, rem}
use multi_thread_log.CurrentThread.{tid, cache_tid}
use multi_thread_log.FileUtil.AppendFile.{Answer}
use multi_thread_log.FileUtil.AppendFile.Looping.{AllGood}
use multi_thread_log.LogFile
use multi_thread_log.LogFile.{LogFile, Config, Moment}
use multi_thread_log.LogFile.Stored.{stored}
use multi_thread_log.LogStream
use multi_thread_log.LogStream.Convert.{digit_at, convert_loop, convert}
use multi_thread_log.LogStream.FixedBuffer
use multi_thread_log.Logging.{make_logger, put_func, destroy_logger, is_logged, log_statement}
use multi_thread_log.Logging.Impl.{
  refresh_time, put_time, put_errno, put_head, make_impl, put_finish, finish,
}
use multi_thread_log.Logging.Puts.{Puts-c_string}
use multi_thread_log.Logging.Sample.{
  some_tm, some_tm-IsShort, some_env, some_globals, some_call, some_file, some_thread, some_world,
  some_call-IsPrintable,
}
use multi_thread_log.Timestamp.{print_tm}
use multi_thread_log.TimeZone.Zone.{valid}

abbrev some_statement : Statement
some_statement = record {
  env = some_env;
  globals = some_globals;
  time = 1000007;
  memory = replicate 200 0;
  call = some_call;
  file = some_file;
  line = 42;
  body = λ b. LogStream.put_c_string b (some (codes "hello" ++ 0 ∷ []));
  thread = some_thread;
  world = some_world;
}

some_statement-IsUsual : IsUsual some_statement
unfolding is_logged valid
some_statement-IsUsual = record {
  text = codes "hello";
  room = 32;
  tm = some_tm;
  logged = refl;
  clock = refl;
  short = some_tm-IsShort;
  shown = inr refl;
  tid_pos = omega arith;
  tid_small = omega arith;
  own = inl refl;
  printable = some_call-IsPrintable;
  puts = Puts-c_string 32 (codes "hello") (omega arith) (omega arith);
  spare = omega arith;
  fits = omega (arith, length-replicate {A = ℕ} 200 0);
}

abbrev some_line : List ℕ
some_line = codes "20211217 08:05:09.000007Z  4711 TRACE main hello - a.cc:42\n"

-- The statement, run.
some_statement-Emits : Emits some_statement some_line
unfolding log_statement make_logger destroy_logger is_logged put_func refresh_time put_time
    put_errno put_head make_impl put_finish finish tid cache_tid print_tm print_blank print_zero
    padded decimal digits_before ◌+ℤ◌ quot rem valid LogStream.put_c_string LogStream.put_piece
    LogStream.put_char LogStream.put_int LogStream.format_integer LogStream.make_fmt convert
    convert_loop digit_at FixedBuffer.make FixedBuffer.append FixedBuffer.add FixedBuffer.c_string
    FixedBuffer.store FixedBuffer.to_string
some_statement-Emits = record { thread = _; world = _; returns = refl; emitted = refl }

-- The line is appended, and a round of the logging thread writes it.
written_out :
    (s : System) × Run 200
      (writes ∷ wakes ∷ locks ∷ tests ∷ appends some_line ∷ enters ∷ starts ∷ [])
      s
    × (s.backend.output ≡ write some_line ∷ flush ∷ [])
    × (contents s.backend.buffers_to_write ++ pending s.shared ≡ [])
unfolding append refill init zeroed start_backend exchange is_null process drop_excess finish_round
    non_empty write_all reclaim pop_back FixedBuffer.make FixedBuffer.bzero FixedBuffer.reset
    FixedBuffer.add FixedBuffer.c_string FixedBuffer.store FixedBuffer.append FixedBuffer.to_string
written_out = (
  _,
  then_step
      (then_step
        (then_step
          (then_step
            (then_step (then_step (then_step begin (do_start refl refl)) (do_enter refl refl refl))
              (do_append (replicate 200 0) some_line [] _ refl (omega arith) refl refl))
            (do_test refl refl refl))
          (do_wait refl refl refl))
        (do_wake refl refl))
      (do_write [] _ refl (omega arith) refl refl),
  refl,
  refl,
)

-- The file takes one byte at a time.
abbrev one_byte : Answer
one_byte = record { count = 1; error = 0 }

AllGood-replicate : (n : ℕ) → AllGood (replicate n one_byte)
AllGood-replicate zero = tt
AllGood-replicate (suc n) = (omega arith, refl, AllGood-replicate n)

abbrev slow : Moment
slow = record { answers = replicate 80 one_byte; check_time = 90000; roll_time = 90001 }

abbrev some_config : Config
some_config = record {
  basename = [];
  roll_size = 2000;
  flush_interval = 3;
  check_every_n = 1024;
  hostname = [];
  pid = 42;
  strftime = λ now. [];
}

stored-appended_example :
    (l : LogFile) × (perform written_out.0.backend.output
        (slow ∷ [])
        (LogFile.make some_config 90000)
      ≡ some l)
    × (stored l ++ (contents written_out.0.backend.buffers_to_write ++ pending written_out.0.shared)
        ≡ some_line)
stored-appended_example =
    stored-appended written_out.1
      (λ e. e, (λ e. e, (λ e. e, (λ e. e, (λ e. e, (λ e. e, (λ e. e, tt))))))) (some_statement ∷ [])
      (
        some_statement-IsUsual,
        some_statement-Emits,
        omega (arith, length-replicate {A = ℕ} 200 0),
        tt,
      )
      some_config 90000 (slow ∷ []) (omega arith)
      (subst (λ cs. AreGood cs (slow ∷ [])) (sym written_out.2)
        (AllGood-replicate 80, omega (arith, length-replicate 80 one_byte), tt))
