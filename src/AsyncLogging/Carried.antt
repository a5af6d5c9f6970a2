-- ===== src/AsyncLogging/Carried.antt =====
-- What the whole system carries, and what a run adds to it.
use multi_thread_log.Common.{
  ℕ, ◌≡◌, inl, refl, ◌∙◌, List, [], ◌∷◌, ◌++◌, length, replicate, length-replicate,
}
use multi_thread_log.LogStream.FixedBuffer
use multi_thread_log.AsyncLogging.{Backend, init, start_backend, zeroed}
use multi_thread_log.AsyncLogging.Contents.{
  IsFresh, IsShared, contents, pending, written, accepted, content_fresh, IsFresh-IsBuffer,
}
use multi_thread_log.AsyncLogging.Exchange.{IsResting, IsWriting}
use multi_thread_log.AsyncLogging.Steps.{
  Pc, idle, entering, writing, System, Event, appends, overruns, initial,
}

-- What the logging thread's variables are at each place.
abbrev pub IsBackend : ℕ → Pc → Backend → Type 0
IsBackend n idle t = t ≡ start_backend n
IsBackend n entering t = t ≡ start_backend n
IsBackend n writing t = IsWriting n t
IsBackend n _ t = IsResting n t

pub record IsSystem (n : ℕ) (s : System) : Type 0 where
  pub shared_in : IsShared n s.shared
  pub backend_in : IsBackend n s.pc s.backend

-- All bytes on their way: in the log file, with the logging thread, and with the front end.
abbrev pub carried : System → List ℕ
carried s = written s.backend.output ++ (contents s.backend.buffers_to_write ++ pending s.shared)

-- What an event adds to them.
abbrev pub added : ℕ → Event → List ℕ
added n (appends line) = accepted n line
added n _ = []

-- What the lines of a run come to, in the order of the calls of `append`.
abbrev pub history : ℕ → List Event → List ℕ
history n [] = []
history n (e ∷ es) = history n es ++ added n e

abbrev pub IsOverrun : Event → Type 0
IsOverrun overruns = Unit
IsOverrun _ = ⊥

-- No round met more than 25 buffers.
abbrev pub IsLossless : List Event → Type 0
IsLossless [] = Unit
IsLossless (e ∷ es) = (¬ IsOverrun e) × IsLossless es

pub zeroed-IsFresh : (n : ℕ) → IsFresh n (zeroed n)
unfolding zeroed FixedBuffer.bzero FixedBuffer.make
zeroed-IsFresh n =
    (refl, length-replicate (length (replicate {A = ℕ} n 0)) 0 ∙ length-replicate n 0)

pub start_backend-IsResting : (n : ℕ) → IsResting n (start_backend n)
unfolding start_backend
start_backend-IsResting n = record {
  first_in = zeroed-IsFresh n;
  second_in = zeroed-IsFresh n;
  none_left = refl;
}

pub init-IsShared : (n : ℕ) → IsShared n (init n)
unfolding init
init-IsShared n = record {
  current_in = IsFresh-IsBuffer n (zeroed n) (zeroed-IsFresh n);
  buffers_in = tt;
  next_in = inl (zeroed-IsFresh n);
}

pub initial-IsSystem : (n : ℕ) → IsSystem n (initial n)
initial-IsSystem n = record { shared_in = init-IsShared n; backend_in = refl }

pub initial-carried : (n : ℕ) → carried (initial n) ≡ []
unfolding init start_backend
initial-carried n = content_fresh n (zeroed n) (zeroed-IsFresh n)
