-- ===== src/Thread/Starting.antt =====
-- `start` returns when the new thread has told its number.
use multi_thread_log.Common.{
  ℕ, ◌<◌, ◌≡◌, inl, inr, refl, sym, subst, Bool, true, false, not, ◌&&◌, some, arith, lt→ltb,
  Bool-cases,
}
use mathlib.Core.Option.{some-injective, none-ne-some}
use multi_thread_log.Common.Int.{pos}
use multi_thread_log.CountDownLatch
use multi_thread_log.CountDownLatch.{CountDownLatch, returned, waits, counts}
use multi_thread_log.CountDownLatch.Waiting.{Reachable-returned}
use multi_thread_log.CurrentThread
use multi_thread_log.CurrentThread.{CurrentThread}
use multi_thread_log.CurrentThread.Tid.{tid-IsCached}
use multi_thread_log.Thread.{
  Thread, make, start, await, is_asserted, join, run_tid, run_count_down, run_name, Child, unborn,
  born, told, running, ended, State, Reachable, made, refused, starts, awaits, tells, counts_down,
  ends, joins,
}

-- The thread has counted down.
abbrev pub HasBegun : Child → Type 0
HasBegun unborn = ⊥
HasBegun born = ⊥
HasBegun (told c) = ⊥
HasBegun (running c) = Unit
HasBegun (ended c a) = Unit

-- The latch is as the steps of the object and of the thread leave it, and the number is the thread's.
abbrev IsConsistent : ℕ → Thread → Child → Type 0
IsConsistent n th unborn = (th.started ≡ false) × (th.latch ≡ CountDownLatch.make (pos 1))
IsConsistent n th born = (th.started ≡ true) × CountDownLatch.Reachable 1 0 th.latch
IsConsistent n th (told c) =
    (th.started ≡ true) × CountDownLatch.Reachable 1 0 th.latch × (th.tid ≡ n)
IsConsistent n th (running c) =
    (th.started ≡ true) × CountDownLatch.Reachable 1 1 th.latch × (th.tid ≡ n)
IsConsistent n th (ended c a) =
    (th.started ≡ true) × CountDownLatch.Reachable 1 1 th.latch × (th.tid ≡ n)

not_both : (a : Bool) → a ≡ true → a ≡ false → ⊥
not_both a h k = absurd (ground arith)

start_lem :
    (created : Bool) (th th' : Thread)
    → start created th ≡ some th'
    → (th.started ≡ false) × (th' ≡ record th { started = created })
unfolding start
start_lem created th th' e = elim (Bool-cases th.started) [
  | inl h ↦ absurd (none-ne-some th' (rw h at e))
  | inr h ↦ (h, sym (some-injective (record th { started = created }) th' (rw h at e)))
]

join_lem :
    (th th' : Thread)
    → join th ≡ some th'
    → (th.started ≡ true) × (th' ≡ record th { joined = true })
unfolding join
join_lem th th' e = elim (Bool-cases (th.started && not th.joined)) [
  | inr h ↦ absurd (none-ne-some th' (rw h at e))
  | inl h ↦ (both h, sym (some-injective (record th { joined = true }) th' (rw h at e)))
]
  where
    both : (th.started && not th.joined) ≡ true → th.started ≡ true
    both h = ground arith

-- Starting again is refused, so the object is not yet started.
refused-IsConsistent :
    (n : ℕ) (th th' : Thread) (c : Child)
    → start false th ≡ some th'
    → IsConsistent n th c
    → IsConsistent n th' c
refused-IsConsistent n th th' unborn e v = rw (start_lem false th th' e).1 (refl, v.1)
refused-IsConsistent n th th' born e v =
    absurd (not_both th.started v.0 (start_lem false th th' e).0)
refused-IsConsistent n th th' (told c) e v =
    absurd (not_both th.started v.0 (start_lem false th th' e).0)
refused-IsConsistent n th th' (running c) e v =
    absurd (not_both th.started v.0 (start_lem false th th' e).0)
refused-IsConsistent n th th' (ended c a) e v =
    absurd (not_both th.started v.0 (start_lem false th th' e).0)

starts-IsConsistent :
    (n : ℕ) (th th' : Thread) (c : Child)
    → start true th ≡ some th'
    → IsConsistent n th c
    → IsConsistent n th' born
starts-IsConsistent n th th' unborn e v =
    rw (start_lem true th th' e).1
      (refl, subst (CountDownLatch.Reachable 1 0) (sym v.1) CountDownLatch.made)
starts-IsConsistent n th th' born e v = absurd (not_both th.started v.0 (start_lem true th th' e).0)
starts-IsConsistent n th th' (told c) e v =
    absurd (not_both th.started v.0 (start_lem true th th' e).0)
starts-IsConsistent n th th' (running c) e v =
    absurd (not_both th.started v.0 (start_lem true th th' e).0)
starts-IsConsistent n th th' (ended c a) e v =
    absurd (not_both th.started v.0 (start_lem true th th' e).0)

awaits-IsConsistent :
    (n t : ℕ) (th : Thread) (c : Child)
    → th.started ≡ true
    → IsConsistent n th c
    → IsConsistent n (await t th) c
unfolding await
awaits-IsConsistent n t th unborn e v = absurd (not_both th.started e v.0)
awaits-IsConsistent n t th born e v = (v.0, waits t 0 th.latch v.1)
awaits-IsConsistent n t th (told c) e v = (v.0, waits t 0 th.latch v.1, v.2)
awaits-IsConsistent n t th (running c) e v = (v.0, waits t 1 th.latch v.1, v.2)
awaits-IsConsistent n t th (ended c a) e v = (v.0, waits t 1 th.latch v.1, v.2)

joins-IsConsistent :
    (n : ℕ) (th th' : Thread) (c : Child)
    → join th ≡ some th'
    → IsConsistent n th c
    → IsConsistent n th' c
joins-IsConsistent n th th' unborn e v = absurd (not_both th.started (join_lem th th' e).0 v.0)
joins-IsConsistent n th th' born e v = rw (join_lem th th' e).1 v
joins-IsConsistent n th th' (told c) e v = rw (join_lem th th' e).1 v
joins-IsConsistent n th th' (running c) e v = rw (join_lem th th' e).1 v
joins-IsConsistent n th th' (ended c a) e v = rw (join_lem th th' e).1 v

tells-IsConsistent :
    (n : ℕ) (th : Thread) (c : CurrentThread)
    → 0 < n
    → IsConsistent n th born
    → IsConsistent n (run_tid n (th, CurrentThread.fresh)).0 (told c)
unfolding run_tid
tells-IsConsistent n th c h v =
    (v.0, v.1, (tid-IsCached n CurrentThread.fresh CurrentThread.fresh h (inl refl)).0)

counts_down-IsConsistent :
    (n : ℕ) (th : Thread) (c d : CurrentThread)
    → IsConsistent n th (told c)
    → IsConsistent n (run_count_down th) (running d)
unfolding run_count_down
counts_down-IsConsistent n th c d v = (v.0, counts 0 th.latch v.1, v.2)

Reachable-IsConsistent :
    (n : ℕ) (s : State) → 0 < n → Reachable n s → IsConsistent n s.thread s.child
unfolding make
Reachable-IsConsistent n s h (made num_created name) = (refl, refl)
Reachable-IsConsistent n s h (refused before th r e) =
    refused-IsConsistent n before.thread th before.child e (Reachable-IsConsistent n before h r)
Reachable-IsConsistent n s h (starts before th r e) =
    starts-IsConsistent n before.thread th before.child e (Reachable-IsConsistent n before h r)
Reachable-IsConsistent n s h (awaits before t r e) =
    awaits-IsConsistent n t before.thread before.child e (Reachable-IsConsistent n before h r)
Reachable-IsConsistent n s h (tells before r e) =
    tells-IsConsistent n before.thread (run_tid n (before.thread, CurrentThread.fresh)).1 h
      (subst (IsConsistent n before.thread) e (Reachable-IsConsistent n before h r))
Reachable-IsConsistent n s h (counts_down before c r e) =
    counts_down-IsConsistent n before.thread c (run_name before.thread c)
      (subst (IsConsistent n before.thread) e (Reachable-IsConsistent n before h r))
Reachable-IsConsistent n s h (ends before c e r w) =
    subst (IsConsistent n before.thread) w (Reachable-IsConsistent n before h r)
Reachable-IsConsistent n s h (joins before th r e) =
    joins-IsConsistent n before.thread th before.child e (Reachable-IsConsistent n before h r)

HasBegun-or_not :
    (n t : ℕ) (th : Thread) (c : Child)
    → 0 < n
    → IsConsistent n th c
    → (th.latch.waiter t ≡ returned → (th.tid ≡ n) × (is_asserted th ≡ true))
      × (HasBegun c → (await t th).latch.waiter t ≡ returned)
unfolding await
HasBegun-or_not n t th unborn h v =
    let r = subst (CountDownLatch.Reachable 1 0) (sym v.1) CountDownLatch.made in
    (λ e. absurd ((Reachable-returned 1 0 th.latch t r).1 (omega arith) e), λ b. absurd b)
HasBegun-or_not n t th born h v =
    (λ e. absurd ((Reachable-returned 1 0 th.latch t v.1).1 (omega arith) e), λ b. absurd b)
HasBegun-or_not n t th (told c) h v =
    (λ e. absurd ((Reachable-returned 1 0 th.latch t v.1).1 (omega arith) e), λ b. absurd b)
HasBegun-or_not n t th (running c) h v = (
  λ e. (v.2, lt→ltb 0 th.tid (omega (arith, v.2))),
  λ b. ((Reachable-returned 1 1 th.latch t v.1).2 (omega arith)).1,
)
HasBegun-or_not n t th (ended c a) h v = (
  λ e. (v.2, lt→ltb 0 th.tid (omega (arith, v.2))),
  λ b. ((Reachable-returned 1 1 th.latch t v.1).2 (omega arith)).1,
)

-- In whatever order the calls of the object and the steps of its thread, of number `n`, which is not 0, take place: when the wait
-- for the latch in `start` has returned, the object knows the thread's number, so that the assertion of `start` holds. Once the thread
-- has counted down, a wait for the latch returns as soon as it tests the count.
pub Reachable-asserted :
    (n : ℕ) (s : State) (t : ℕ)
    → 0 < n
    → Reachable n s
    → (s.thread.latch.waiter t ≡ returned → (s.thread.tid ≡ n) × (is_asserted s.thread ≡ true))
      × (HasBegun s.child → (await t s.thread).latch.waiter t ≡ returned)
Reachable-asserted n s t h r =
    HasBegun-or_not n t s.thread s.child h (Reachable-IsConsistent n s h r)
