-- ===== src/AsyncLogging/System.antt =====
-- The whole system: what holds after every run, whatever the interleaving.
use multi_thread_log.Common.{
  ℕ, ◌≡◌, sym, ap, ap₂, ◌∙◌, Option, some, List, [], ◌∷◌, ◌++◌, append-nil, append_assoc, subst,
}
use multi_thread_log.AsyncLogging.{Shared, Backend, flush, exchange, start_backend}
use multi_thread_log.AsyncLogging.Contents.{
  IsShared, contents, pending, written, written-append, accepted,
}
use multi_thread_log.AsyncLogging.Append.{Appends, append-Appends}
use multi_thread_log.AsyncLogging.Exchange.{IsResting, Exchanged, exchange-Exchanged}
use multi_thread_log.AsyncLogging.Round.{Rounded, process_fits, process_overruns}
use multi_thread_log.AsyncLogging.Steps.{
  writing, System, Event, Step, do_append, do_start, do_enter, do_stop, do_test, do_leave, do_wait,
  do_exchange, do_wake, do_write, do_overrun, Run, begin, then_step,
}
use multi_thread_log.AsyncLogging.Carried.{
  IsSystem, carried, added, history, IsOverrun, IsLossless, start_backend-IsResting,
  initial-IsSystem, initial-carried,
}

-- A step keeps the system usable, and adds to the bytes carried what its event adds, unless it
-- overruns.
record Kept (n : ℕ) (s t : System) (e : Event) : Type 0 where
  system : IsSystem n t
  bytes : (¬ IsOverrun e) → carried t ≡ carried s ++ added n e

Rounded-some :
    {n : ℕ} {t b : Backend} {bytes : List ℕ} {r : Option Backend}
    → Rounded n t bytes r
    → r ≡ some b
    → IsResting n b × (written b.output ≡ written t.output ++ bytes)
Rounded-some {n} {t} {b} {bytes} w e =
    let same : w.after ≡ b = cc (w.returns, e) in
    subst (λ x. IsResting n x × (written x.output ≡ written t.output ++ bytes)) same
      (w.resting, w.handed)

Appends-some :
    {n : ℕ} {s sh : Shared} {line : List ℕ} {r : Option Shared}
    → Appends n s line r
    → r ≡ some sh
    → IsShared n sh × (pending sh ≡ pending s ++ accepted n line)
Appends-some {n} {s} {sh} {line} w e =
    let same : w.after ≡ sh = cc (w.returns, e) in
    subst (λ x. IsShared n x × (pending x ≡ pending s ++ accepted n line)) same
      (w.after_in, w.handed)

exchange-carried :
    (n : ℕ) (s : System)
    → IsShared n s.shared
    → IsResting n s.backend
    → carried (record {
      shared = (exchange s.shared s.backend).0;
      backend = (exchange s.shared s.backend).1;
      pc = writing;
    })
      ≡ carried s ++ []
unfolding exchange
exchange-carried n s v r =
    ap (λ bs. written s.backend.output ++ bs)
      (ap₂ (λ bs cs. bs ++ cs) x.taken x.left
        ∙ append-nil (pending s.shared)
        ∙ sym (ap (λ ps. contents ps ++ pending s.shared) r.none_left))
    ∙ sym (append-nil _)
  where
    x : Exchanged n s.shared (exchange s.shared s.backend)
    x = exchange-Exchanged n s.shared s.backend v r

append-carried :
    (before left there line after : List ℕ)
    → after ≡ there ++ line
    → before ++ (left ++ after) ≡ (before ++ (left ++ there)) ++ line
append-carried before left there line after e =
    ap (λ bs. before ++ (left ++ bs)) e
    ∙ ap (λ bs. before ++ bs) (sym (append_assoc left there line))
    ∙ sym (append_assoc before (left ++ there) line)

write-carried :
    (b t : Backend) (there : List ℕ)
    → b.buffers_to_write ≡ []
    → written b.output ≡ written t.output ++ contents t.buffers_to_write
    → written b.output ++ (contents b.buffers_to_write ++ there)
      ≡ (written t.output ++ (contents t.buffers_to_write ++ there)) ++ []
write-carried b t there e h =
    ap₂ (λ bs ps. bs ++ (contents ps ++ there)) h e
    ∙ append_assoc (written t.output) (contents t.buffers_to_write) there
    ∙ sym (append-nil _)

Step-Kept : {n : ℕ} {s t : System} {e : Event} → Step n s t e → IsSystem n s → Kept n s t e
Step-Kept {n} {s} {t} (do_append memory line rest sh size nn r e) v =
    let w = Appends-some (append-Appends n s.shared memory line rest v.shared_in size nn) r in
    rw e (record {
      system = record { shared_in = w.0; backend_in = v.backend_in };
      bytes =
          λ _. append-carried _ (contents s.backend.buffers_to_write) (pending s.shared) _ _ w.1;
    })
Step-Kept {n} {s} {t} (do_start p e) v = rw e (record {
  system = record {
    shared_in = record {
      current_in = v.shared_in.current_in;
      buffers_in = v.shared_in.buffers_in;
      next_in = v.shared_in.next_in;
    };
    backend_in = rw p at v.backend_in;
  };
  bytes = λ _. sym (append-nil _);
})
Step-Kept {n} {s} {t} (do_enter p on e) v =
    let same : s.backend ≡ start_backend n = rw p at v.backend_in in
    rw e (record {
      system = record { shared_in = v.shared_in; backend_in = start_backend-IsResting n };
      bytes = λ _.
          ap (λ b. written b.output ++ (contents b.buffers_to_write ++ pending s.shared)) (sym same)
          ∙ sym (append-nil _);
    })
Step-Kept {n} {s} {t} (do_stop e) v = rw e (record {
  system = record {
    shared_in = record {
      current_in = v.shared_in.current_in;
      buffers_in = v.shared_in.buffers_in;
      next_in = v.shared_in.next_in;
    };
    backend_in = v.backend_in;
  };
  bytes = λ _. sym (append-nil _);
})
Step-Kept {n} {s} {t} (do_test p q e) v = rw e (record {
  system = record { shared_in = v.shared_in; backend_in = rw p at v.backend_in };
  bytes = λ _. sym (append-nil _);
})
Step-Kept {n} {s} {t} (do_leave p q e) v =
    let r : IsResting n s.backend = rw p at v.backend_in in
    rw e (record {
      system = record {
        shared_in = v.shared_in;
        backend_in = record {
          first_in = r.first_in;
          second_in = r.second_in;
          none_left = r.none_left;
        };
      };
      bytes = λ _.
          ap (λ bs. bs ++ (contents s.backend.buffers_to_write ++ pending s.shared))
            (written-append s.backend.output (flush ∷ []) ∙ append-nil _)
          ∙ sym (append-nil _);
    })
Step-Kept {n} {s} {t} (do_wait p q e) v = rw e (record {
  system = record { shared_in = v.shared_in; backend_in = rw p at v.backend_in };
  bytes = λ _. sym (append-nil _);
})
Step-Kept {n} {s} {t} (do_exchange p q e) v =
    let r : IsResting n s.backend = rw p at v.backend_in in
    let x = exchange-Exchanged n s.shared s.backend v.shared_in r in
    rw e (record {
      system = record { shared_in = x.shared_in; backend_in = x.writing };
      bytes = λ _. exchange-carried n s v.shared_in r;
    })
Step-Kept {n} {s} {t} (do_wake p e) v =
    let r : IsResting n s.backend = rw p at v.backend_in in
    let x = exchange-Exchanged n s.shared s.backend v.shared_in r in
    rw e (record {
      system = record { shared_in = x.shared_in; backend_in = x.writing };
      bytes = λ _. exchange-carried n s v.shared_in r;
    })
Step-Kept {n} {s} {t} (do_write now b p few r e) v =
    let w = Rounded-some (process_fits n now s.backend (rw p at v.backend_in) few) r in
    rw e (record {
      system = record { shared_in = v.shared_in; backend_in = w.0 };
      bytes = λ _. write-carried b s.backend (pending s.shared) (w.0).none_left w.1;
    })
Step-Kept {n} {s} {t} (do_overrun now b p many r e) v =
    let w = Rounded-some (process_overruns n now s.backend (rw p at v.backend_in) many) r in
    rw e (record {
      system = record { shared_in = v.shared_in; backend_in = w.0 };
      bytes = λ no. absurd (no tt);
    })

-- Whatever the interleaving, every run leads to a usable state: the current buffer is there, and so are
-- the spare buffers that the logging thread relies on.
pub Run-IsSystem : {n : ℕ} {es : List Event} {s : System} → Run n es s → IsSystem n s
Run-IsSystem {n} begin = initial-IsSystem n
Run-IsSystem (then_step r st) = (Step-Kept st (Run-IsSystem r)).system

-- No line that is shorter than a buffer is lost, doubled or moved: in a run without an overrun the bytes in the
-- log file, those with the logging thread and those with the front end are, in this order, the lines of
-- the run, but for those as long as a buffer or longer, which are dropped.
pub Run-carried :
    {n : ℕ} {es : List Event} {s : System} → Run n es s → IsLossless es → carried s ≡ history n es
Run-carried {n} begin h = initial-carried n
Run-carried {n} (then_step {e = e} r st) h =
    (Step-Kept st (Run-IsSystem r)).bytes h.0 ∙ ap (λ bs. bs ++ added n e) (Run-carried r h.1)
