-- ===== src/Mutex/Examples.antt =====
-- A thread that has locked the mutex.
use multi_thread_log.Common.{ℕ, ◌≡◌, ◌↔◌, refl, true, some, arith}
use multi_thread_log.Mutex.{
  MutexLock, holding, start, step, assign_holder, set_place, is_locked_by_this_thread, take_lock,
  assign_lock, locking, taken, Reachable, at_start, next,
}
use multi_thread_log.Mutex.Holder.{Reachable-holder}
use multi_thread_log.Mutex.Places.{owns}

abbrev locked_by_7 : MutexLock
locked_by_7 = record {
  owner = some 7;
  holder = 7;
  place = set_place 7 holding (set_place 7 locking start.place);
}

locked_by_7-Reachable : Reachable locked_by_7
unfolding step assign_holder set_place
locked_by_7-Reachable =
    next _ _
      (next _ _ at_start
        (taken take_lock 7 start (record start { owner = some 7 }) refl (omega arith) refl))
      (taken assign_lock 7
        (record start { owner = some 7; place = set_place 7 locking start.place })
        (record start { owner = some 7; holder = 7; place = set_place 7 locking start.place }) refl
        (omega arith) refl)

Reachable-holder_example :
    ((is_locked_by_this_thread 7 locked_by_7 ≡ true) ↔ (locked_by_7.place 7 ≡ holding))
    × (owns (locked_by_7.place 7) ≡ true → owns (locked_by_7.place 8) ≡ true → ◌≡◌ {A = ℕ} 7 8)
Reachable-holder_example = Reachable-holder locked_by_7 locked_by_7-Reachable 7 8 (omega arith)
