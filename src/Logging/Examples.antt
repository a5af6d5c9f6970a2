-- ===== src/Logging/Examples.antt =====
-- Statements at concrete inputs.
use multi_thread_log.Common.{
  ℕ, ◌/◌, ◌≡◌, inl, inr, refl, some, none, List, [], ◌∷◌, ◌++◌, arith, codes, replicate,
  length-replicate,
}
use multi_thread_log.Common.Int.{pos, ◌+ℤ◌}
use multi_thread_log.LogStream
use multi_thread_log.LogStream.FixedBuffer.{k_small_buffer}
use multi_thread_log.LogStream.Convert.Decimal.{IsDecimal}
use multi_thread_log.Common.Decimal.{print_blank, print_zero, padded, decimal}
use multi_thread_log.TimeZone.Zone.{valid}
use multi_thread_log.Timestamp.{print_tm}
use multi_thread_log.Logging.{is_logged, log_statement}
use multi_thread_log.Logging.Source.{of_array, of_pointer}
use multi_thread_log.Logging.Source.Basename.{IsBasename, of_array-IsBasename}
use multi_thread_log.Logging.Level.{trace}
use multi_thread_log.Logging.Puts.{Puts-c_string}
use multi_thread_log.Logging.Logged.{HasLogged, line_text, log_statement-HasLogged}
use multi_thread_log.Logging.Sample.{
  some_tm, some_tm-IsShort, some_env, some_globals, some_call, some_file, some_thread, some_world,
  some_call-IsPrintable,
}

log_statement-HasLogged_example :
    (e d : List ℕ) × IsDecimal (pos 0) e
    × IsDecimal (pos 42) d
    × HasLogged some_env some_globals
        (replicate k_small_buffer 0)
        trace
        some_world
        (line_text some_env none some_tm 1000007 some_call some_file e d (codes "hello"))
        (pos (1000007 / 1000000))
        (log_statement some_env some_globals
          (record { micro_seconds_since_epoch = pos 1000007 })
          (replicate k_small_buffer 0)
          some_call
          some_file
          42
          (λ b. LogStream.put_c_string b (some (codes "hello" ++ 0 ∷ [])))
          (some_thread, some_world))
unfolding is_logged valid
log_statement-HasLogged_example =
    log_statement-HasLogged some_env some_globals 1000007 (replicate k_small_buffer 0) some_call
      some_file 42 (λ b. LogStream.put_c_string b (some (codes "hello" ++ 0 ∷ []))) (codes "hello")
      32 some_thread some_world some_tm refl refl some_tm-IsShort (inr refl) (omega arith)
      (omega arith) (inl refl) some_call-IsPrintable
      (Puts-c_string 32 (codes "hello") (omega arith) (omega arith)) (omega arith)
      (omega (arith, length-replicate {A = ℕ} k_small_buffer 0))

-- The text of it.
line_runs :
    line_text some_env none some_tm 1000007 some_call some_file [] (codes "42") (codes "hello")
    ≡ codes "20211217 08:05:09.000007Z  4711 TRACE main hello - a.cc:42\n"
unfolding print_tm print_blank print_zero padded decimal ◌+ℤ◌ valid
line_runs = refl

of_array-IsBasename_example :
    IsBasename (codes "log/tests/a.cc") (of_array (codes "log/tests/a.cc"))
    × IsBasename (codes "log/tests/a.cc") (of_pointer (codes "log/tests/a.cc"))
of_array-IsBasename_example = of_array-IsBasename (codes "log/tests/a.cc")
