-- ===== src/ThreadPool/Waking/Calls.antt =====
-- What a call of `run` or `take` leaves owed to the threads that wait.
use multi_thread_log.Common.{
  ℕ, ◌+◌, ◌-◌, ◌<◌, ◌≤◌, ◌≡◌, refl, sym, ap, ◌∙◌, inl, inr, Bool, true, false, none, some, List, [],
  ◌∷◌, ◌++◌, length, ltb, if◌then◌else◌, subst, length-append, arith, Bool-cases,
}
use multi_thread_log.ThreadPool.{Task, Pool, run_locked, take_locked, is_full, pop_front}
use multi_thread_log.ThreadPool.Waking.{
  Condition, sleep, notify, Monitor, run_ends, run, take_ends, take,
}

-- What `run` and `take` come to.
run_locked-full :
    (p : Pool) (task : Task) → p.running ≡ true → is_full p ≡ true → run_locked p task ≡ none
unfolding run_locked
run_locked-full p task on full = rw (on, full) refl

run_locked-room :
    (p : Pool) (task : Task)
    → p.running ≡ true
    → is_full p ≡ false
    → run_locked p task ≡ some (record p { queue = p.queue ++ task ∷ [] })
unfolding run_locked
run_locked-room p task on room = rw (on, room) refl

run_locked-off : (p : Pool) (task : Task) → p.running ≡ false → run_locked p task ≡ some p
unfolding run_locked
run_locked-off p task off = rw off refl

take_locked-empty : (p : Pool) → p.running ≡ true → p.queue ≡ [] → take_locked p ≡ none
unfolding take_locked
take_locked-empty p on e = rw (on, e) refl

pub take_locked-off : (p : Pool) → p.running ≡ false → p.queue ≡ [] → take_locked p ≡ some (none, p)
unfolding take_locked pop_front
take_locked-off p off e = rw (off, e) refl

pub take_locked-task :
    (p : Pool) (t : Task) (ts : List Task)
    → p.queue ≡ t ∷ ts
    → take_locked p ≡ some (some t, record p { queue = ts })
unfolding take_locked pop_front
take_locked-task p t ts e = elim (Bool-cases p.running) [
  | inl on ↦ rw (on, e) refl
  | inr off ↦ rw (off, e) refl
]

-- As long as a thread sleeps, `owed` others have been woken; `spare` of them are not counted.
abbrev pub IsAwake : ℕ → ℕ → Condition → Type 0
IsAwake owed spare c = 0 < c.sleeping → owed ≤ c.woken + spare

-- The spare one of `take` or `run` is the thread that has the lock.
pub record AreAwake (n takers callers : ℕ) (m : Monitor) : Type 0 where
  pub bound_is : m.pool.max_queue_size ≡ n
  pub for_tasks : IsAwake (length m.pool.queue) takers m.not_empty
  pub for_places : IsAwake (n - length m.pool.queue) callers m.not_full
  pub if_stopped : m.pool.running ≡ false → (m.not_empty.sleeping ≡ 0) × (m.not_full.sleeping ≡ 0)

notify-IsAwake :
    (owed spare : ℕ) (c : Condition) → IsAwake owed spare c → IsAwake (owed + 1) spare (notify c)
unfolding notify
notify-IsAwake owed spare c h = ground arith

pub IsAwake-notify :
    (owed spare : ℕ) (c : Condition) → IsAwake owed spare c → IsAwake owed spare (notify c)
unfolding notify
IsAwake-notify owed spare c h = ground arith

pub notify-sleeping : (c : Condition) → c.sleeping ≡ 0 → (notify c).sleeping ≡ 0
unfolding notify
notify-sleeping c h = ground arith

-- A thread that waits in `run` found no free place.
run-full :
    (n : ℕ) (m : Monitor)
    → AreAwake n 0 1 m
    → m.pool.running ≡ true
    → is_full m.pool ≡ true
    → AreAwake n 0 0 (run_ends m none)
unfolding run_ends sleep
run-full n m v on full = record {
  bound_is = v.bound_is;
  for_tasks = v.for_tasks;
  for_places = λ h. ground (arith, v.bound_is);
  if_stopped = λ h. absurd (ground arith);
}

-- A task more, and a thread more that has been woken for it.
run-pushed :
    (n : ℕ) (m : Monitor) (task : Task)
    → AreAwake n 0 1 m
    → m.pool.running ≡ true
    → AreAwake n 0 0 (run_ends m (some (record (m.pool) { queue = m.pool.queue ++ task ∷ [] })))
unfolding run_ends
run-pushed n m task v on =
    let longer = length-append m.pool.queue (task ∷ []) in
    let p = record (m.pool) { queue = m.pool.queue ++ task ∷ [] } in
    let m' = record m { pool = p; not_empty = notify m.not_empty } in
    subst (λ b. AreAwake n 0 0 (if b then m' else m)) (sym on)
      (record {
        bound_is = v.bound_is;
        for_tasks = λ h.
            omega (arith, longer, notify-IsAwake (length m.pool.queue) 0 m.not_empty v.for_tasks h);
        for_places = λ h. omega (arith, longer, v.for_places h);
        if_stopped = λ h. absurd (ground arith);
      })

-- Of a pool that has been stopped nobody waits.
stopped-AreAwake :
    (n takers callers : ℕ) (m : Monitor)
    → AreAwake n takers callers m
    → m.pool.running ≡ false
    → AreAwake n 0 0 m
stopped-AreAwake n takers callers m v off = record {
  bound_is = v.bound_is;
  for_tasks = λ h. absurd (omega (arith, (v.if_stopped off).0));
  for_places = λ h. absurd (omega (arith, (v.if_stopped off).1));
  if_stopped = v.if_stopped;
}

pub run-AreAwake :
    (n : ℕ) (m : Monitor) (task : Task) → AreAwake n 0 1 m → AreAwake n 0 0 (run task m)
unfolding run run_ends
run-AreAwake n m task v = elim (Bool-cases m.pool.running) [
  | inl on ↦ elim (Bool-cases (is_full m.pool)) [
    | inl full ↦
        subst (λ o. AreAwake n 0 0 (run_ends m o)) (sym (run_locked-full m.pool task on full))
          (run-full n m v on full)
    | inr room ↦
        subst (λ o. AreAwake n 0 0 (run_ends m o)) (sym (run_locked-room m.pool task on room))
          (run-pushed n m task v on)
  ]
  | inr off ↦
      let ends : run_ends m (run_locked m.pool task) ≡ m =
        ap (run_ends m) (run_locked-off m.pool task off)
        ∙ ap (λ b. if b then record m { not_empty = notify m.not_empty } else m) off in
      subst (AreAwake n 0 0) (sym ends) (stopped-AreAwake n 0 1 m v off)
]

take-none :
    (n : ℕ) (m : Monitor)
    → AreAwake n 1 0 m
    → m.pool.running ≡ true
    → m.pool.queue ≡ []
    → AreAwake n 0 0 (take_ends m none)
unfolding take_ends sleep
take-none n m v on e = record {
  bound_is = v.bound_is;
  for_tasks = λ h. rw e (omega arith);
  for_places = v.for_places;
  if_stopped = λ h. absurd (ground arith);
}

-- A free place more, and a thread more that has been woken for it.
take-task :
    (n : ℕ) (m : Monitor) (task : Task) (rest : List Task)
    → AreAwake n 1 0 m
    → m.pool.queue ≡ task ∷ rest
    → AreAwake n 0 0 (take_ends m (some (some task, record (m.pool) { queue = rest })))
unfolding take_ends
take-task n m task rest v e =
    let shorter : length m.pool.queue ≡ length rest + 1 = rw e (omega arith) in
    record {
      bound_is = v.bound_is;
      for_tasks = λ h. omega (arith, shorter, v.for_tasks h);
      for_places = places (ltb 0 m.pool.max_queue_size) refl shorter;
      if_stopped =
          λ h. ((v.if_stopped h).0, asleep (ltb 0 m.pool.max_queue_size) (v.if_stopped h).1);
    }
  where
    places :
        (b : Bool)
        → ltb 0 m.pool.max_queue_size ≡ b
        → length m.pool.queue ≡ length rest + 1
        → IsAwake (n - length rest) 0 (if b then notify m.not_full else m.not_full)
    places true h shorter = λ k.
        omega (arith, shorter, notify-IsAwake (n - length m.pool.queue) 0 m.not_full v.for_places k)
    places false h shorter = λ k. ground (arith, v.bound_is)

    asleep :
        (b : Bool)
        → m.not_full.sleeping ≡ 0
        → (if b then notify m.not_full else m.not_full).sleeping ≡ 0
    asleep true h = notify-sleeping m.not_full h
    asleep false h = h

pub take-AreAwake : (n : ℕ) (m : Monitor) → AreAwake n 1 0 m → AreAwake n 0 0 (take m)
unfolding take take_ends
take-AreAwake n m v = by_queue m.pool.queue refl
  where
    by_queue : (ts : List Task) → m.pool.queue ≡ ts → AreAwake n 0 0 (take m)
    by_queue [] e = elim (Bool-cases m.pool.running) [
      | inl on ↦
          subst (λ o. AreAwake n 0 0 (take_ends m o)) (sym (take_locked-empty m.pool on e))
            (take-none n m v on e)
      | inr off ↦
          subst (λ o. AreAwake n 0 0 (take_ends m o)) (sym (take_locked-off m.pool off e))
            (stopped-AreAwake n 1 0 m v off)
    ]
    by_queue (t ∷ ts) e =
        subst (λ o. AreAwake n 0 0 (take_ends m o)) (sym (take_locked-task m.pool t ts e))
          (take-task n m t ts v e)
