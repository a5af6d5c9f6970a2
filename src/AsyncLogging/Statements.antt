-- ===== src/AsyncLogging/Statements.antt =====
-- The whole way of a statement such as `LOG_INFO << ...`: from Logging.cc through AsyncLogging.cc into the files of LogFile.cc.
mod Examples
use multi_thread_log.Common.{
  ℕ, ◌+◌, ◌/◌, ◌^◌, ◌<◌, ◌≤◌, ◌≡◌, ◌⊎◌, refl, sym, ap, ap₂, ◌∙◌, true, false, Option, some, List,
  [], ◌∷◌, ◌++◌, append-nil, append_assoc, drop, append_cancel, length, arith, lt→ltb, subst,
}
use multi_thread_log.AsyncLogging.Contents.{contents, pending, accepted}
use multi_thread_log.AsyncLogging.Pipeline.{perform, AreGood, perform-history}
use multi_thread_log.AsyncLogging.Steps.{System, Event, appends, Run}
use multi_thread_log.AsyncLogging.Carried.{IsLossless, history, added}
use multi_thread_log.Common.Int.{pos, eqb_ℤ}
use multi_thread_log.CurrentThread.Tid.{IsOwn}
use multi_thread_log.LogFile
use multi_thread_log.LogFile.{LogFile, Config, Moment}
use multi_thread_log.LogFile.Stored.{stored}
use multi_thread_log.LogStream.FixedBuffer.{FixedBuffer}
use multi_thread_log.Logging.{LogCall, level_of, errno_of, World, is_logged, log_statement}
use multi_thread_log.Logging.Clock.{clock_time, IsShown}
use multi_thread_log.Logging.Impl.{Env, ThreadState}
use multi_thread_log.Logging.Level.{Globals}
use multi_thread_log.Logging.Logged.{log_statement-HasLogged}
use multi_thread_log.Logging.Puts.{Puts}
use multi_thread_log.Logging.Source.{SourceFile}
use multi_thread_log.Logging.Pieces.{func_text}
use multi_thread_log.Logging.Statement.{IsPrintable}
use multi_thread_log.Logging.Texts.{IsShort}
use multi_thread_log.TimeZone.{Tm}

-- A statement at `time` microseconds after the epoch, with the state in which its thread reaches it; `memory` is that of its
-- stream.
pub record Statement : Type 0 where
  pub env : Env
  pub globals : Globals
  pub time : ℕ
  pub memory : List ℕ
  pub call : LogCall
  pub file : SourceFile
  pub line : ℕ
  pub body : FixedBuffer → Option FixedBuffer
  pub thread : ThreadState
  pub world : World

-- What `log_statement-HasLogged` asks of it, with the text of the program and the room to spare.
pub record IsUsual (st : Statement) : Type 0 where
  pub text : List ℕ
  pub room : ℕ
  pub tm : Tm
  pub logged : is_logged st.globals st.call ≡ true
  pub clock : clock_time st.env st.globals.log_time_zone (pos (st.time / 1000000)) ≡ some tm
  pub short : IsShort tm
  pub shown :
      IsShown st.env st.globals.log_time_zone st.thread
      ⊎ (eqb_ℤ (pos (st.time / 1000000)) st.thread.last_second ≡ false)
  pub tid_pos : 0 < st.env.gettid
  pub tid_small : st.env.gettid < 10 ^ 10
  pub own : IsOwn st.env.gettid st.thread.current
  pub printable : IsPrintable room st.env st.call st.file st.line
  pub puts : Puts room text st.body
  pub spare : 32 ≤ room
  pub fits :
      length (st.env.strerror (errno_of st.call))
        + length (func_text st.call)
        + length text
        + length st.file.chars
        + 128
        + room
      ≤ length st.memory

-- The statement returned, and handed `line` to the output function.
pub record Emits (st : Statement) (line : List ℕ) : Type 0 where
  pub thread : ThreadState
  pub world : World
  pub returns :
      log_statement st.env st.globals
        (record { micro_seconds_since_epoch = pos st.time })
        st.memory
        st.call
        st.file
        st.line
        st.body
        (st.thread, st.world)
      ≡ some (thread, world)
  pub emitted : world.emitted ≡ st.world.emitted ++ (st.globals.output, line) ∷ []

-- The line is shorter than the memory of the stream.
length-Emits :
    (st : Statement) (line : List ℕ) → IsUsual st → Emits st line → length line < length st.memory
length-Emits st line u em =
    let h =
      log_statement-HasLogged st.env st.globals st.time st.memory st.call st.file st.line st.body
        u.text u.room st.thread st.world u.tm u.logged u.clock u.short u.shown u.tid_pos u.tid_small
        u.own u.printable u.puts u.spare u.fits in
    let r = h.4 in
    let same : r.world ≡ em.world = cc (r.returns, em.returns) in
    let one : (st.globals.output, line) ∷ [] ≡ (st.globals.output, _) ∷ [] =
      append_cancel st.world.emitted _ _
        (sym em.emitted ∙ (sym (ap (λ w. w.emitted) same) ∙ r.emitted)) in
    let text : line ≡ _ = cc one in subst (λ x. length x < length st.memory) (sym text) r.shorter

-- The lines that the calls of `append` in a run were given, in their order.
abbrev pub appended_by : Event → List (List ℕ)
appended_by (appends line) = line ∷ []
appended_by _ = []

abbrev pub appended : List Event → List (List ℕ)
appended [] = []
appended (e ∷ es) = appended es ++ appended_by e

abbrev pub concat : List (List ℕ) → List ℕ
concat [] = []
concat (line ∷ lines) = line ++ concat lines

-- Each line is that of one statement, whose stream is no larger than a buffer of the front end, which has `n` bytes.
abbrev pub AreEmitted : ℕ → List Statement → List (List ℕ) → Type 0
AreEmitted n [] [] = Unit
AreEmitted n (st ∷ sts) (line ∷ lines) =
    IsUsual st × Emits st line × (length st.memory ≤ n) × AreEmitted n sts lines
AreEmitted n _ _ = ⊥

abbrev AreShorter : ℕ → List (List ℕ) → Type 0
AreShorter n [] = Unit
AreShorter n (line ∷ lines) = (length line < n) × AreShorter n lines

AreEmitted-AreShorter :
    (n : ℕ) (sts : List Statement) (lines : List (List ℕ))
    → AreEmitted n sts lines
    → AreShorter n lines
AreEmitted-AreShorter n [] [] h = tt
AreEmitted-AreShorter n [] (line ∷ lines) h = absurd h
AreEmitted-AreShorter n (st ∷ sts) [] h = absurd h
AreEmitted-AreShorter n (st ∷ sts) (line ∷ lines) h =
    (omega (arith, length-Emits st line h.0 h.1, h.2), AreEmitted-AreShorter n sts lines h.3)

AreShorter-append :
    (n : ℕ) (xs ys : List (List ℕ)) → AreShorter n (xs ++ ys) → AreShorter n xs × AreShorter n ys
AreShorter-append n [] ys h = (tt, h)
AreShorter-append n (x ∷ xs) ys h = let r = AreShorter-append n xs ys h.1 in ((h.0, r.0), r.1)

concat-append : (xs ys : List (List ℕ)) → concat (xs ++ ys) ≡ concat xs ++ concat ys
concat-append [] ys = refl
concat-append (x ∷ xs) ys =
    ap (λ r. x ++ r) (concat-append xs ys) ∙ sym (append_assoc x (concat xs) (concat ys))

added-appended_by :
    (n : ℕ) (e : Event) → AreShorter n (appended_by e) → added n e ≡ concat (appended_by e)
added-appended_by n (appends line) h = rw (lt→ltb (length line) n h.0) (sym (append-nil line))
added-appended_by n _ h = refl

history-appended :
    (n : ℕ) (es : List Event) → AreShorter n (appended es) → history n es ≡ concat (appended es)
history-appended n [] h = refl
history-appended n (e ∷ es) h =
    let r = AreShorter-append n (appended es) (appended_by e) h in
    ap₂ (λ a b. a ++ b) (history-appended n es r.0) (added-appended_by n e r.1)
    ∙ sym (concat-append (appended es) (appended_by e))

-- A program logs by statements whose streams are no larger than a buffer of the front end, and each call of `append` in a run
-- is given what one of them handed to the output function. If the logging thread has not been overrun, and its calls are
-- carried out by a `LogFile` that is made when the clock does not stand at 0, where no `fwrite` fails or takes nothing and
-- there is an answer for each byte, then they return, and the bytes in the files, those with the logging thread and those
-- with the front end are, in this order, all the lines, whole, in the order of the calls.
pub stored-appended :
    {n : ℕ} {es : List Event} {s : System}
    → Run n es s
    → IsLossless es
    → (sts : List Statement) → AreEmitted n sts (appended es)
    → (c : Config) (now : ℕ) (ms : List Moment) → 0 < now
    → AreGood s.backend.output ms
    → (l : LogFile) × (perform s.backend.output ms (LogFile.make c now) ≡ some l)
      × (stored l ++ (contents s.backend.buffers_to_write ++ pending s.shared)
          ≡ concat (appended es))
stored-appended {n} {es} {s} r lossless sts emitted c now ms clock good =
    let w = perform-history r lossless c now ms clock good in
    (w.0, w.1, w.2 ∙ history-appended n es (AreEmitted-AreShorter n sts (appended es) emitted))
