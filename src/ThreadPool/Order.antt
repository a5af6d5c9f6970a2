-- ===== src/ThreadPool/Order.antt =====
-- The order and the number of the tasks in the queue.
use multi_thread_log.Common.{
  ℕ, ◌<◌, ◌≤◌, ◌≡◌, refl, sym, ap, subst, ◌∙◌, true, false, ◌&&◌, Option, none, some, List, [], ◌∷◌,
  ◌++◌, length, arith, append-nil, append_assoc, length-append, ◌⊎◌, Bool-cases, inl, inr,
}
use multi_thread_log.ThreadPool.{
  Task, Pool, make, is_full, run_locked, is_empty, pop_front, take_locked, System, Event, accepts,
  takes, Step, do_start, do_stop, do_run_here, do_run, do_refuse, do_init, do_test, do_take,
  do_take_nothing, do_wait, do_wake, do_finish, Run, begin, then_step,
}

abbrev pub accepted_by : Event → List Task
accepted_by (accepts task) = task ∷ []
accepted_by _ = []

abbrev pub taken_by : Event → List Task
taken_by (takes task) = task ∷ []
taken_by _ = []

-- The tasks of a run in the order of its events.
abbrev pub accepted : List Event → List Task
accepted [] = []
accepted (e ∷ es) = accepted es ++ accepted_by e

abbrev pub taken : List Event → List Task
taken [] = []
taken (e ∷ es) = taken es ++ taken_by e

abbrev pub IsBounded : Pool → Type 0
IsBounded p = (p.max_queue_size ≡ 0) ⊎ (length p.queue ≤ p.max_queue_size)

record Pushed (p : Pool) (task : Task) (q : Pool) : Type 0 where
  last : q.queue ≡ p.queue ++ task ∷ []
  max_same : q.max_queue_size ≡ p.max_queue_size
  bounded : IsBounded q

room_for_one :
    (p : Pool) (task : Task)
    → is_full p ≡ false
    → (p.max_queue_size ≡ 0) ⊎ (length (p.queue ++ task ∷ []) ≤ p.max_queue_size)
room_for_one p task room = ground (arith, length-append p.queue (task ∷ []))

run_locked-Pushed :
    (p q : Pool) (task : Task) → p.running ≡ true → run_locked p task ≡ some q → Pushed p task q
unfolding run_locked
run_locked-Pushed p q task on e = elim (Bool-cases (is_full p)) [
  | inl full ↦ absurd (cc (rw (on, full) at e))
  | inr room ↦
      let same : record p { queue = p.queue ++ task ∷ [] } ≡ q = cc (rw (on, room) at e) in
      subst (Pushed p task) same
        (record { last = refl; max_same = refl; bounded = room_for_one p task room })
]

pub run_locked-stopped :
    (p q : Pool) (task : Task) → p.running ≡ false → run_locked p task ≡ some q → q ≡ p
unfolding run_locked
run_locked-stopped p q task off e = cc (rw off at e)

-- What a step does to the queue.
record Queued (s t : System) (e : Event) : Type 0 where
  order : s.pool.queue ++ accepted_by e ≡ taken_by e ++ t.pool.queue
  bounded : IsBounded t.pool
  max_same : t.pool.max_queue_size ≡ s.pool.max_queue_size

record Taken (p : Pool) (o : Option Task) (q : Pool) : Type 0 where
  fewer : length q.queue ≤ length p.queue
  rest : p.queue ≡ elim o [ none ↦ q.queue | some task ↦ task ∷ q.queue ]
  max_same : q.max_queue_size ≡ p.max_queue_size

take_locked-Taken : (p q : Pool) (o : Option Task) → take_locked p ≡ some (o, q) → Taken p o q
unfolding take_locked pop_front
take_locked-Taken p q o e = elim (Bool-cases (p.running && is_empty p.queue)) [
  | inl empty ↦ absurd (cc (rw empty at e))
  | inr there ↦ popped p.queue refl (rw there at e)
]
  where
    popped : (ts : List Task) → p.queue ≡ ts → some (pop_front p ts) ≡ some (o, q) → Taken p o q
    popped [] h k =
        let no_task : none ≡ o = cc k in
        let same : p ≡ q = cc k in
        subst (λ x. Taken p x q) no_task
          (subst (Taken p none) same (record { fewer = omega arith; rest = refl; max_same = refl }))
    popped (t ∷ ts) h k =
        let task : some t ≡ o = cc k in
        let same : record p { queue = ts } ≡ q = cc k in
        subst (λ x. Taken p x q) task
          (subst (Taken p (some t)) same
            (record { fewer = rw h (omega arith); rest = h; max_same = refl }))

still-IsBounded :
    (p q : Pool)
    → IsBounded p
    → q.max_queue_size ≡ p.max_queue_size
    → length q.queue ≤ length p.queue
    → IsBounded q
still-IsBounded p q (inl none_set) same fewer = inl (same ∙ none_set)
still-IsBounded p q (inr within) same fewer = inr (omega arith)

Step-Queued : {s t : System} {e : Event} → Step s t e → IsBounded s.pool → Queued s t e
Step-Queued {s} {t} (do_start n w h) b =
    rw h (record { order = append-nil _; bounded = b; max_same = refl })
Step-Queued {s} {t} (do_stop h) b =
    rw h (record { order = append-nil _; bounded = b; max_same = refl })
Step-Queued {s} {t} (do_run_here task w h) b =
    rw h (record { order = append-nil _; bounded = b; max_same = refl })
Step-Queued {s} {t} (do_run task p ws w on r woken h) b =
    let q = run_locked-Pushed s.pool p task on r in
    rw h (record { order = sym q.last; bounded = q.bounded; max_same = q.max_same })
Step-Queued {s} {t} (do_refuse task p w off r h) b =
    rw (h, run_locked-stopped s.pool p task off r)
      (record { order = append-nil _; bounded = b; max_same = refl })
Step-Queued {s} {t} (do_init i w h) b =
    rw h (record { order = append-nil _; bounded = b; max_same = refl })
Step-Queued {s} {t} (do_wait i w r h) b =
    rw h (record { order = append-nil _; bounded = b; max_same = refl })
Step-Queued {s} {t} (do_wake i w h) b =
    rw h (record { order = append-nil _; bounded = b; max_same = refl })
Step-Queued {s} {t} (do_test i w h) b =
    rw h (record { order = append-nil _; bounded = b; max_same = refl })
Step-Queued {s} {t} (do_take i task p w r h) b =
    let q = take_locked-Taken s.pool p (some task) r in
    rw h (record {
      order = append-nil _ ∙ q.rest;
      bounded = still-IsBounded s.pool p b q.max_same q.fewer;
      max_same = q.max_same;
    })
Step-Queued {s} {t} (do_take_nothing i p w r h) b =
    let q = take_locked-Taken s.pool p none r in
    rw h (record {
      order = append-nil _ ∙ q.rest;
      bounded = still-IsBounded s.pool p b q.max_same q.fewer;
      max_same = q.max_same;
    })
Step-Queued {s} {t} (do_finish i task w h) b =
    rw h (record { order = append-nil _; bounded = b; max_same = refl })

Run-IsBounded :
    {n : ℕ} {es : List Event} {s : System}
    → Run n es s
    → IsBounded s.pool × (s.pool.max_queue_size ≡ n)
unfolding make
Run-IsBounded {n} begin = (inr (omega arith), refl)
Run-IsBounded (then_step r st) =
    let h = Run-IsBounded r in let q = Step-Queued st h.0 in (q.bounded, q.max_same ∙ h.1)

-- In every run the tasks that `run` put into the queue are, in this order, those that the workers took from it
-- and those that are still in it: none is lost, doubled or overtaken.
pub Run-order :
    {n : ℕ} {es : List Event} {s : System} → Run n es s → accepted es ≡ taken es ++ s.pool.queue
unfolding make
Run-order begin = refl
Run-order (then_step {es} {e} {s} {t} r st) =
    ap (λ ts. ts ++ accepted_by e) (Run-order r)
    ∙ append_assoc (taken es) s.pool.queue (accepted_by e)
    ∙ ap (λ ts. taken es ++ ts) (Step-Queued st (Run-IsBounded r).0).order
    ∙ sym (append_assoc (taken es) (taken_by e) t.pool.queue)

-- In every run the queue is never longer than the bound that was set before, if one was set.
Run-length_queue :
    {n : ℕ} {es : List Event} {s : System} → Run n es s → 0 < n → length s.pool.queue ≤ n
Run-length_queue r h = ground (arith, Run-IsBounded r)
