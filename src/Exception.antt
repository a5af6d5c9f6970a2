-- ===== src/Exception.antt =====
-- `Exception` of Exception.h and Exception.cc, and how the functions that run in threads catch exceptions, in Thread.cc and
-- ThreadPool.cc. Texts are `std::string`s; a text that goes through `c_str()` and `%s` ends at its first zero byte.
mod Examples
use multi_thread_log.Common.{
  ℕ, ◌≡◌, refl, Bool, false, Option, none, some, List, [], ◌∷◌, ◌++◌, ◌==◌, if◌then◌else◌, codes,
}
use multi_thread_log.CurrentThread.StackTrace.{stack_trace}

pub record Exception : Type 0 where
  pub message : List ℕ
  pub stack : List ℕ

-- The constructor, at what `backtrace_symbols` and the demangling answer.
unfoldable pub make : (List ℕ → Option (List ℕ)) → Option (List (List ℕ)) → List ℕ → Exception
make cxa_demangle symbols msg = record {
  message = msg;
  stack = stack_trace cxa_demangle symbols false;
}

unfoldable pub c_str : List ℕ → List ℕ
c_str [] = []
c_str (c ∷ s) = let rest = c_str s in if c == 0 then [] else c ∷ rest

-- `what` and `stackTrace`
unfoldable pub what : Exception → List ℕ
unfolding c_str
what ex = c_str ex.message

unfoldable pub trace : Exception → List ℕ
unfolding c_str
trace ex = c_str ex.stack

-- How a function that a thread runs ends: it returns, or throws an `Exception`, another `std::exception` with its text, or
-- something else. What becomes of the process then: nothing, `abort`, or the exception goes on.
pub data Ending : Type 0 where
  finished : Ending
  exception : Exception → Ending
  std_exception : List ℕ → Ending
  unknown : Ending

pub data After : Type 0 where
  goes_on aborts rethrows : After

unfoldable pub after : Ending → After
after finished = goes_on
after (exception ex) = aborts
after (std_exception text) = aborts
after unknown = rethrows

-- What is printed to `stderr`, for the kind of thread and the name.
abbrev pub caught_in : List ℕ → List ℕ → List ℕ → List ℕ
caught_in caught kind name = caught ++ (kind ++ (b' ' ∷ (name ++ b'\n' ∷ [])))

abbrev pub reason : List ℕ → List ℕ
reason text = codes "reason: " ++ (text ++ b'\n' ∷ [])

unfoldable pub report : List ℕ → List ℕ → Ending → List ℕ
unfolding c_str what trace
report kind name finished = []
report kind name (exception ex) =
    caught_in (codes "exception caught in ") kind (c_str name)
    ++ (reason (what ex) ++ (codes "stack trace: " ++ (trace ex ++ b'\n' ∷ [])))
report kind name (std_exception text) =
    caught_in (codes "exception caught in ") kind (c_str name) ++ reason (c_str text)
report kind name unknown = caught_in (codes "unknown exception caught in ") kind (c_str name)
