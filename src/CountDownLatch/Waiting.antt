-- ===== src/CountDownLatch/Waiting.antt =====
-- `wait` returns after the last `countDown`, and no thread is left waiting.
use multi_thread_log.Common.{
  ℕ, suc, ◌≤◌, ◌<◌, ◌≡◌, ◌≢◌, inl, inr, refl, ap, ◌∙◌, Bool, true, false, ◌==◌, if◌then◌else◌,
  arith, ==_iff, Bool-cases,
}
use multi_thread_log.Common.Int.{ℤ, pos, negsuc, ◌-ℤ◌, ltb_ℤ, eqb_ℤ, int_laws}
use multi_thread_log.CountDownLatch.{
  Waiter, away, blocked, notified, returned, CountDownLatch, set_waiter, notify, wait, count_down,
  get_count, Reachable, made, waits, counts,
}

abbrev is_blocked : Waiter → Bool
is_blocked blocked = true
is_blocked _ = false

abbrev is_returned : Waiter → Bool
is_returned returned = true
is_returned _ = false

-- A thread waits only for a positive count, and returns only from one that is not.
record IsConsistent (n k : ℕ) (l : CountDownLatch) : Type 0 where
  counted : l.count ≡ pos n -ℤ pos k
  if_blocked : (t : ℕ) → is_blocked (l.waiter t) ≡ true → ltb_ℤ (pos 0) l.count ≡ true
  if_returned : (t : ℕ) → is_returned (l.waiter t) ≡ true → ltb_ℤ (pos 0) l.count ≡ false

wait-IsConsistent :
    (n k t : ℕ) (l : CountDownLatch) → IsConsistent n k l → IsConsistent n k (wait t l)
unfolding wait set_waiter
wait-IsConsistent n k t l v = record {
  counted = v.counted;
  if_blocked = λ u h. elim (Bool-cases (u == t)) [
    | inl e ↦ now_blocked (ltb_ℤ (pos 0) l.count) (rw e at h)
    | inr e ↦ v.if_blocked u (rw e at h)
  ];
  if_returned = λ u h. elim (Bool-cases (u == t)) [
    | inl e ↦ now_returned (ltb_ℤ (pos 0) l.count) (rw e at h)
    | inr e ↦ v.if_returned u (rw e at h)
  ];
}
  where
    now_blocked : (c : Bool) → is_blocked (if c then blocked else returned) ≡ true → c ≡ true
    now_blocked true h = refl
    now_blocked false h = absurd (ground arith)

    now_returned : (c : Bool) → is_returned (if c then blocked else returned) ≡ true → c ≡ false
    now_returned true h = absurd (ground arith)
    now_returned false h = refl

nobody_blocked : (w : Waiter) → is_blocked (notify w) ≡ false
nobody_blocked away = refl
nobody_blocked blocked = refl
nobody_blocked notified = refl
nobody_blocked returned = refl

notify-returned : (w : Waiter) → is_returned (notify w) ≡ is_returned w
notify-returned away = refl
notify-returned blocked = refl
notify-returned notified = refl
notify-returned returned = refl

-- The count after one call more.
less_one : (n k : ℕ) (c : ℤ) → c ≡ pos n -ℤ pos k → c -ℤ pos 1 ≡ pos n -ℤ pos (suc k)
less_one n k c e = rw e (omega int_laws)

still_positive :
    (c : ℤ)
    → ltb_ℤ (pos 0) c ≡ true
    → eqb_ℤ (c -ℤ pos 1) (pos 0) ≡ false
    → ltb_ℤ (pos 0) (c -ℤ pos 1) ≡ true
unfolding ◌-ℤ◌
still_positive (pos n) h k = ground arith
still_positive (negsuc n) h k = absurd (ground arith)

still_not : (c : ℤ) → ltb_ℤ (pos 0) c ≡ false → ltb_ℤ (pos 0) (c -ℤ pos 1) ≡ false
unfolding ◌-ℤ◌
still_not (pos n) h = ground arith
still_not (negsuc n) h = ground arith

zero_not : (c : ℤ) → eqb_ℤ c (pos 0) ≡ true → ltb_ℤ (pos 0) c ≡ false
zero_not c h = ground arith

count_down-IsConsistent :
    (n k : ℕ) (l : CountDownLatch) → IsConsistent n k l → IsConsistent n (suc k) (count_down l)
unfolding count_down
count_down-IsConsistent n k l v = elim (Bool-cases (eqb_ℤ (l.count -ℤ pos 1) (pos 0))) [
  | inl e ↦ rw e (record {
    counted = less_one n k l.count v.counted;
    if_blocked =
        λ t h. absurd (neither (is_blocked (notify (l.waiter t))) h (nobody_blocked (l.waiter t)));
    if_returned = λ t h. zero_not (l.count -ℤ pos 1) e;
  })
  | inr e ↦ rw e (record {
    counted = less_one n k l.count v.counted;
    if_blocked = λ t h. still_positive l.count (v.if_blocked t h) e;
    if_returned = λ t h. still_not l.count (v.if_returned t h);
  })
]
  where
    neither : (a : Bool) → a ≡ true → a ≡ false → ⊥
    neither a h k = absurd (ground arith)

Reachable-IsConsistent : (n k : ℕ) (l : CountDownLatch) → Reachable n k l → IsConsistent n k l
Reachable-IsConsistent n k l made = record {
  counted = omega int_laws;
  if_blocked = λ t h. absurd (ground arith);
  if_returned = λ t h. absurd (ground arith);
}
Reachable-IsConsistent n k l (waits t k' before r) =
    wait-IsConsistent n k' t before (Reachable-IsConsistent n k' before r)
Reachable-IsConsistent n k l (counts k' before r) =
    count_down-IsConsistent n k' before (Reachable-IsConsistent n k' before r)

waiter_wait :
    (t : ℕ) (l : CountDownLatch)
    → (wait t l).waiter t ≡ (if ltb_ℤ (pos 0) l.count then blocked else returned)
unfolding wait set_waiter
waiter_wait t l = rw ((==_iff t t).1 refl) refl

more_left : (n k : ℕ) → k < n → ltb_ℤ (pos 0) (pos n -ℤ pos k) ≡ true
unfolding ◌-ℤ◌
more_left n k h = ground arith

none_left : (n k : ℕ) → n ≤ k → ltb_ℤ (pos 0) (pos n -ℤ pos k) ≡ false
unfolding ◌-ℤ◌
none_left n k h = ground arith

-- In whatever order threads call `wait` and `countDown`, and however often a wait of the condition returns: after `k` calls of
-- `countDown` of a latch made with `n` the count is `n - k`. As long as `k < n` no thread has returned from `wait`. From the `n`th call
-- on no thread is in the wait of the condition without having been notified, and a thread that tests the count returns.
pub Reachable-returned :
    (n k : ℕ) (l : CountDownLatch) (t : ℕ)
    → Reachable n k l
    → (get_count l ≡ pos n -ℤ pos k)
      × (k < n → l.waiter t ≢ returned)
      × (n ≤ k → (l.waiter t ≢ blocked) × ((wait t l).waiter t ≡ returned))
unfolding get_count
Reachable-returned n k l t r =
    let v = Reachable-IsConsistent n k l r in
    (
      v.counted,
      λ h e.
          apart (ltb_ℤ (pos 0) l.count) (positive h v.counted) (v.if_returned t (ap is_returned e)),
      λ h. (
        λ e.
            apart (ltb_ℤ (pos 0) l.count) (v.if_blocked t (ap is_blocked e))
              (not_positive h v.counted),
        waiter_wait t l ∙ ap (λ c. if c then blocked else returned) (not_positive h v.counted),
      ),
    )
  where
    apart : (a : Bool) → a ≡ true → a ≡ false → ⊥
    apart a h k = absurd (ground arith)

    positive : k < n → l.count ≡ pos n -ℤ pos k → ltb_ℤ (pos 0) l.count ≡ true
    positive h e = ap (ltb_ℤ (pos 0)) e ∙ more_left n k h

    not_positive : n ≤ k → l.count ≡ pos n -ℤ pos k → ltb_ℤ (pos 0) l.count ≡ false
    not_positive h e = ap (ltb_ℤ (pos 0)) e ∙ none_left n k h
