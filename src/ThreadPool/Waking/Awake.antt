-- ===== src/ThreadPool/Waking/Awake.antt =====
-- No thread sleeps over a task or a free place.
use multi_thread_log.Common.{ℕ, ◌-◌, ◌≤◌, ◌≡◌, refl, ◌⊎◌, inl, inr, true, length, arith, Bool-cases}
use multi_thread_log.ThreadPool.{make}
use multi_thread_log.ThreadPool.Waking.{
  Condition, notify_all, leave, Monitor, start, stop, Reachable, made, starts, stops, runs, runs_on,
  takes, takes_on, wakes_empty, wakes_full,
}
use multi_thread_log.ThreadPool.Waking.Calls.{
  IsAwake, AreAwake, IsAwake-notify, notify-sleeping, run-AreAwake, take-AreAwake,
}

Reachable-AreAwake : {n : ℕ} {m : Monitor} → Reachable n m → AreAwake n 0 0 m
unfolding make start stop notify_all leave
Reachable-AreAwake made = record {
  bound_is = refl;
  for_tasks = λ h. omega arith;
  for_places = λ h. absurd (omega arith);
  if_stopped = λ h. (refl, refl);
}
Reachable-AreAwake (starts m r) =
    let v = Reachable-AreAwake r in
    record {
      bound_is = v.bound_is;
      for_tasks = v.for_tasks;
      for_places = v.for_places;
      if_stopped = λ h. absurd (ground arith);
    }
Reachable-AreAwake (stops m r) =
    let v = Reachable-AreAwake r in
    record {
      bound_is = v.bound_is;
      for_tasks = λ h. absurd (omega arith);
      for_places = λ h. absurd (omega arith);
      if_stopped = λ h. (refl, refl);
    }
Reachable-AreAwake (runs m task r) =
    let v = Reachable-AreAwake r in
    run-AreAwake _ m task (record {
      bound_is = v.bound_is;
      for_tasks = v.for_tasks;
      for_places = λ h. omega (arith, v.for_places h);
      if_stopped = v.if_stopped;
    })
Reachable-AreAwake (runs_on m task r w) =
    let v = Reachable-AreAwake r in
    run-AreAwake _ (record m { not_full = leave m.not_full }) task
      (record {
        bound_is = v.bound_is;
        for_tasks = v.for_tasks;
        for_places = λ h. omega (arith, w, v.for_places h);
        if_stopped = v.if_stopped;
      })
Reachable-AreAwake (takes m r) =
    let v = Reachable-AreAwake r in
    take-AreAwake _ m (record {
      bound_is = v.bound_is;
      for_tasks = λ h. omega (arith, v.for_tasks h);
      for_places = v.for_places;
      if_stopped = v.if_stopped;
    })
Reachable-AreAwake (takes_on m r w) =
    let v = Reachable-AreAwake r in
    take-AreAwake _ (record m { not_empty = leave m.not_empty })
      (record {
        bound_is = v.bound_is;
        for_tasks = λ h. omega (arith, w, v.for_tasks h);
        for_places = v.for_places;
        if_stopped = v.if_stopped;
      })
Reachable-AreAwake (wakes_empty m r) =
    let v = Reachable-AreAwake r in
    record {
      bound_is = v.bound_is;
      for_tasks = IsAwake-notify _ 0 m.not_empty v.for_tasks;
      for_places = v.for_places;
      if_stopped = λ h. (notify-sleeping m.not_empty (v.if_stopped h).0, (v.if_stopped h).1);
    }
Reachable-AreAwake (wakes_full m r) =
    let v = Reachable-AreAwake r in
    record {
      bound_is = v.bound_is;
      for_tasks = v.for_tasks;
      for_places = IsAwake-notify _ 0 m.not_full v.for_places;
      if_stopped = λ h. ((v.if_stopped h).0, notify-sleeping m.not_full (v.if_stopped h).1);
    }

-- No wake-up is lost, in whatever order threads call `run` and `take`, go on after a wait, and the pool is started and
-- stopped: as long as a thread sleeps in `take`, as many others as there are tasks in the queue have been woken for
-- them; as long as one sleeps in `run`, as many as there are free places; and of a stopped pool nobody sleeps.
pub Reachable-woken :
    {n : ℕ} {m : Monitor}
    → Reachable n m
    → ((m.not_empty.sleeping ≡ 0) ⊎ (length m.pool.queue ≤ m.not_empty.woken))
      × ((m.not_full.sleeping ≡ 0) ⊎ (n - length m.pool.queue ≤ m.not_full.woken))
      × ((m.pool.running ≡ true) ⊎ ((m.not_empty.sleeping ≡ 0) × (m.not_full.sleeping ≡ 0)))
Reachable-woken {n} {m} r =
    let v = Reachable-AreAwake r in
    (
      awake _ m.not_empty v.for_tasks,
      awake _ m.not_full v.for_places,
      elim (Bool-cases m.pool.running) [ inl on ↦ inl on | inr off ↦ inr (v.if_stopped off) ],
    )
  where
    awake : (owed : ℕ) (c : Condition) → IsAwake owed 0 c → (c.sleeping ≡ 0) ⊎ (owed ≤ c.woken)
    awake owed c h = ground arith
