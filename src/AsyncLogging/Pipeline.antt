-- ===== src/AsyncLogging/Pipeline.antt =====
-- The whole way of the program's lines into the files: the calls that the logging thread of AsyncLogging.cc makes of its
-- `LogFile`, carried out by the one of LogFile.cc.
use multi_thread_log.Common.{
  ℕ, ◌<◌, ◌≤◌, ltb, lt→ltb, ◌≡◌, true, refl, sym, ap, ◌∙◌, Option, some, none, List, [], ◌∷◌, ◌++◌,
  append-nil, append_assoc, ◌>>=◌, length,
}
use multi_thread_log.FileUtil.AppendFile
use multi_thread_log.FileUtil.AppendFile.Looping.{AllGood}
use multi_thread_log.AsyncLogging.{Call, write, flush}
use multi_thread_log.AsyncLogging.Contents.{written, contents, pending}
use multi_thread_log.AsyncLogging.Steps.{System, Event, Run}
use multi_thread_log.AsyncLogging.Carried.{IsLossless, history}
use multi_thread_log.AsyncLogging.System.{Run-carried}
use multi_thread_log.LogFile
use multi_thread_log.LogFile.{LogFile, Config, Moment, roll_file}
use multi_thread_log.LogFile.Stored.{
  stored, closed_bytes, file_bytes, IsOpen, roll_file-stored, append-stored,
}

-- The calls `output.append` and `output.flush` of `threadFunc`, in order, each `append` with its moment.
pub perform : List Call → List Moment → LogFile → Option LogFile
perform [] ms l = some l
perform (flush ∷ cs) ms l = LogFile.flush l >>= λ l'. perform cs ms l'
perform (write bs ∷ cs) [] l = none
perform (write bs ∷ cs) (m ∷ ms) l = LogFile.append l bs m >>= λ l'. perform cs ms l'

-- In each moment no `fwrite` fails or takes nothing, and there is an answer for each byte.
abbrev pub AreGood : List Call → List Moment → Type 0
AreGood [] ms = Unit
AreGood (flush ∷ cs) ms = AreGood cs ms
AreGood (write bs ∷ cs) [] = ⊥
AreGood (write bs ∷ cs) (m ∷ ms) =
    AllGood m.answers × (length bs ≤ length m.answers) × AreGood cs ms

flush-stored :
    (l : LogFile)
    → IsOpen l
    → (l' : LogFile) × (LogFile.flush l ≡ some l') × (stored l' ≡ stored l) × IsOpen l'
unfolding LogFile.flush AppendFile.flush
flush-stored l (f, e) = (
  record l { file = some (AppendFile.flush f) },
  rw e refl,
  ap (λ p. closed_bytes l.closed ++ file_bytes p) (sym e),
  (AppendFile.flush f, refl),
)

pub perform-stored :
    (cs : List Call) (ms : List Moment) (l : LogFile)
    → IsOpen l
    → AreGood cs ms
    → (l' : LogFile) × (perform cs ms l ≡ some l')
      × (stored l' ≡ stored l ++ written cs)
      × IsOpen l'
unfolding perform
perform-stored [] ms l o g = (l, refl, sym (append-nil (stored l)), o)
perform-stored (flush ∷ cs) ms l o g =
    let w = flush-stored l o in
    let r = perform-stored cs ms w.0 w.3 g in
    (
      r.0,
      ap (λ x. x >>= λ l'. perform cs ms l') w.1 ∙ r.1,
      r.2 ∙ ap (λ s. s ++ written cs) w.2,
      r.3,
    )
perform-stored (write bs ∷ cs) [] l o g = absurd g
perform-stored (write bs ∷ cs) (m ∷ ms) l o g =
    let w = append-stored l bs m o g.0 g.1 in
    let r = perform-stored cs ms w.0 w.3 g.2 in
    (
      r.0,
      ap (λ x. x >>= λ l'. perform cs ms l') w.1 ∙ r.1,
      r.2 ∙ ap (λ s. s ++ written cs) w.2 ∙ append_assoc (stored l) bs (written cs),
      r.3,
    )

roll_file-opens : (l : LogFile) (now : ℕ) → ltb l.last_roll now ≡ true → IsOpen (roll_file l now).0
unfolding roll_file
roll_file-opens l now e = rw e (AppendFile.make, refl)

-- A new `LogFile` has a file open, and nothing in it, if the clock does not stand at 0.
make-stored :
    (c : Config) (now : ℕ)
    → 0 < now
    → IsOpen (LogFile.make c now) × (stored (LogFile.make c now) ≡ [])
unfolding LogFile.make
make-stored c now h = (roll_file-opens blank now (lt→ltb 0 now h), roll_file-stored blank now)
  where
    blank : LogFile
    blank = record {
      config = c;
      count = 0;
      start_of_period = 0;
      last_roll = 0;
      last_flush = 0;
      file = none;
      name = [];
      closed = [];
    }

-- If the logging thread has not been overrun, and the calls that it has made are carried out by a
-- `LogFile` that is made when the clock does not stand at 0, where no `fwrite` fails or takes nothing
-- and there is an answer for each byte, they return, and the bytes in the files, however often a
-- new one has been started, then those with the logging thread and those with the front end are, in
-- this order, the lines of the run, but for those as long as a buffer or longer. Once nothing is with
-- the logging thread or the front end, the files hold all of them.
pub perform-history :
    {n : ℕ} {es : List Event} {s : System}
    → Run n es s
    → IsLossless es
    → (c : Config) (now : ℕ) (ms : List Moment) → 0 < now
    → AreGood s.backend.output ms
    → (l : LogFile) × (perform s.backend.output ms (LogFile.make c now) ≡ some l)
      × (stored l ++ (contents s.backend.buffers_to_write ++ pending s.shared) ≡ history n es)
      × (contents s.backend.buffers_to_write ++ pending s.shared ≡ [] → stored l ≡ history n es)
perform-history {n} {es} {s} r h c now ms clock good =
    let fresh = make-stored c now clock in
    let w = perform-stored s.backend.output ms (LogFile.make c now) fresh.0 good in
    let held : stored w.0 ≡ written s.backend.output =
      w.2 ∙ ap (λ b. b ++ written s.backend.output) fresh.1 in
    let rest = contents s.backend.buffers_to_write ++ pending s.shared in
    let all : stored w.0 ++ rest ≡ history n es = ap (λ b. b ++ rest) held ∙ Run-carried r h in
    (w.0, w.1, all, λ e. sym (append-nil (stored w.0)) ∙ ap (λ b. stored w.0 ++ b) (sym e) ∙ all)
