-- ===== src/ThreadPool/Stopping/Asleep.antt =====
-- No worker of a pool that has been stopped sleeps: what `notEmpty_.notifyAll()` in `stop` is for.
use multi_thread_log.Common.{
  ℕ, zero, suc, ◌≡◌, ◌≢◌, inl, inr, refl, sym, ap, subst, ◌∙◌, Bool, true, false, ◌&&◌, Option,
  none, some, List, [], ◌∷◌, ◌++◌, if◌then◌else◌, Bool-cases,
}
use multi_thread_log.Common.Lists.{get_elem?, set}
use multi_thread_log.ThreadPool.{
  Task, Pool, make, run_locked, is_full, is_empty, pop_front, take_locked, Worker, starting,
  testing, taking, sleeping, working, exited, System, Event, notify_all, Step, do_start, do_stop,
  do_run_here, do_run, do_refuse, do_init, do_test, do_take, do_take_nothing, do_wait, do_wake,
  do_finish, Run, begin, then_step,
}
use multi_thread_log.ThreadPool.Order.{}

abbrev pub AreAwake : List Worker → Type 0
AreAwake [] = Unit
AreAwake (w ∷ ws) = (w ≢ sleeping) × AreAwake ws

pub set-AreAwake :
    (ws : List Worker) (i : ℕ) (v : Worker) → v ≢ sleeping → AreAwake ws → AreAwake (set ws i v)
set-AreAwake [] i v n a = tt
set-AreAwake (w ∷ ws) zero v n a = (n, a.1)
set-AreAwake (w ∷ ws) (suc i) v n a = (a.0, set-AreAwake ws i v n a.1)

pub get_elem?-AreAwake :
    (ws : List Worker) (i : ℕ) → AreAwake ws → get_elem? ws i ≡ some sleeping → ⊥
get_elem?-AreAwake [] i a e = cc e
get_elem?-AreAwake (w ∷ ws) zero a e = a.0 (cc e)
get_elem?-AreAwake (w ∷ ws) (suc i) a e = get_elem?-AreAwake ws i a.1 e

pub notify_all-AreAwake : (ws : List Worker) → AreAwake (notify_all ws)
unfolding notify_all
notify_all-AreAwake [] = tt
notify_all-AreAwake (starting ∷ ws) = (λ e. cc e, notify_all-AreAwake ws)
notify_all-AreAwake (testing ∷ ws) = (λ e. cc e, notify_all-AreAwake ws)
notify_all-AreAwake (taking ∷ ws) = (λ e. cc e, notify_all-AreAwake ws)
notify_all-AreAwake (sleeping ∷ ws) = (λ e. cc e, notify_all-AreAwake ws)
notify_all-AreAwake (working task ∷ ws) = (λ e. cc e, notify_all-AreAwake ws)
notify_all-AreAwake (exited ∷ ws) = (λ e. cc e, notify_all-AreAwake ws)

pub notify_all-same : (ws : List Worker) → AreAwake ws → notify_all ws ≡ ws
unfolding notify_all
notify_all-same [] a = refl
notify_all-same (starting ∷ ws) a = ap (λ vs. starting ∷ vs) (notify_all-same ws a.1)
notify_all-same (testing ∷ ws) a = ap (λ vs. testing ∷ vs) (notify_all-same ws a.1)
notify_all-same (taking ∷ ws) a = ap (λ vs. taking ∷ vs) (notify_all-same ws a.1)
notify_all-same (sleeping ∷ ws) a = absurd (a.0 refl)
notify_all-same (working task ∷ ws) a = ap (λ vs. working task ∷ vs) (notify_all-same ws a.1)
notify_all-same (exited ∷ ws) a = ap (λ vs. exited ∷ vs) (notify_all-same ws a.1)

-- `take` and `run` leave `running` alone; a wait is in a pool that runs.
pub take_locked-running :
    (p q : Pool) (o : Option Task) → take_locked p ≡ some (o, q) → q.running ≡ p.running
unfolding take_locked pop_front
take_locked-running p q o e = elim (Bool-cases (p.running && is_empty p.queue)) [
  | inl empty ↦ absurd (cc (rw empty at e))
  | inr there ↦ popped p.queue (rw there at e)
]
  where
    popped : (ts : List Task) → some (pop_front p ts) ≡ some (o, q) → q.running ≡ p.running
    popped [] k = let same : p ≡ q = cc k in ap (λ r. r.running) (sym same)
    popped (t ∷ ts) k =
        let same : record p { queue = ts } ≡ q = cc k in ap (λ r. r.running) (sym same)

pub take_locked-waits : (p : Pool) → take_locked p ≡ none → p.running ≡ true
unfolding take_locked
take_locked-waits p e = elim (Bool-cases p.running) [
  | inl on ↦ on
  | inr off ↦ absurd (cc (rw off at e))
]

run_locked-running :
    (p q : Pool) (task : Task) → p.running ≡ true → run_locked p task ≡ some q → q.running ≡ true
unfolding run_locked
run_locked-running p q task on e = elim (Bool-cases (is_full p)) [
  | inl full ↦ absurd (cc (rw (on, full) at e))
  | inr room ↦
      let same : record p { queue = p.queue ++ task ∷ [] } ≡ q = cc (rw (on, room) at e) in
      ap (λ r. r.running) (sym same) ∙ on
]

-- Nobody sleeps if the pool is stopped.
abbrev pub IsAwake : System → Type 0
IsAwake s = s.pool.running ≡ false → AreAwake s.workers

pub Step-IsAwake : {s t : System} {e : Event} → Step s t e → IsAwake s → IsAwake t
Step-IsAwake (do_start n none_there h) a = rw h (λ off. absurd (cc off))
Step-IsAwake {s} (do_stop h) a = rw h (λ off. notify_all-AreAwake s.workers)
Step-IsAwake (do_run_here task none_there h) a = rw h a
Step-IsAwake {s} (do_run task p ws w on r woken h) a =
    rw h (λ off. absurd (cc (run_locked-running s.pool p task on r, off)))
Step-IsAwake {s} (do_refuse task p w off r h) a = rw h (λ k. a off)
Step-IsAwake {s} (do_init i w h) a =
    rw h (λ off. set-AreAwake s.workers i testing (λ e. cc e) (a off))
Step-IsAwake {s} {t} (do_test i w h) a =
    subst IsAwake (sym h) (λ off. set-AreAwake s.workers i _ (not_asleep s.pool.running) (a off))
  where
    not_asleep : (b : Bool) → (if b then taking else exited) ≢ sleeping
    not_asleep true e = cc e
    not_asleep false e = cc e
Step-IsAwake {s} (do_take i task p w r h) a = rw h (λ off.
    set-AreAwake s.workers i (working task) (λ e. cc e)
      (a (sym (take_locked-running s.pool p _ r) ∙ off)))
Step-IsAwake {s} (do_take_nothing i p w r h) a = rw h (λ off.
    set-AreAwake s.workers i testing (λ e. cc e) (a (sym (take_locked-running s.pool p _ r) ∙ off)))
Step-IsAwake {s} (do_wait i w r h) a = rw h (λ off. absurd (cc (take_locked-waits s.pool r, off)))
Step-IsAwake {s} (do_wake i w h) a =
    rw h (λ off. set-AreAwake s.workers i taking (λ e. cc e) (a off))
Step-IsAwake {s} (do_finish i task w h) a =
    rw h (λ off. set-AreAwake s.workers i testing (λ e. cc e) (a off))

pub Run-IsAwake : {n : ℕ} {es : List Event} {s : System} → Run n es s → IsAwake s
unfolding make
Run-IsAwake begin = λ off. tt
Run-IsAwake (then_step r st) = Step-IsAwake st (Run-IsAwake r)
