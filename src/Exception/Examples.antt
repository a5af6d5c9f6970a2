-- ===== src/Exception/Examples.antt =====
-- An exception that leaves a task.
use multi_thread_log.Common.{◌≡◌, refl, none, some, [], ◌∷◌, codes}
use multi_thread_log.CurrentThread.StackTrace.{stack_trace, trace_loop, frame_line}
use multi_thread_log.Exception.{make, c_str, what, trace, exception, report}

report_runs :
    report (codes "ThreadPool") (codes "pool") (
      exception
        (make (λ s. none) (some (codes "self" ∷ codes "bin(main+0x1)" ∷ [])) (codes "no disk")))
    ≡ codes "exception caught in ThreadPool pool\nreason: no disk\nstack trace: bin(main+0x1)\n\n"
unfolding report make c_str what trace stack_trace trace_loop frame_line
report_runs = refl
