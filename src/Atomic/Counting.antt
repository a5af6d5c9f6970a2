-- ===== src/Atomic/Counting.antt =====
-- Threads that count with an atomic integer of 32 bits get different numbers.
use multi_thread_log.Common.{
  ℕ, zero, suc, ◌+◌, ◌^◌, ◌%◌, ◌<◌, ◌≡◌, refl, sym, ap, Option, some, List, [], ◌∷◌, arith, lt→ltb,
  Bool-cases, ==_iff, inl, inr,
}
use multi_thread_log.Common.Int.{ℤ, pos, +ℤ_pos, eqb_ℤ, eq_of_parts}
use multi_thread_log.Atomic.{AtomicInteger, wrap, get, get_and_add, add_and_get, increment_and_get}

-- As long as the next number is in range, `incrementAndGet` of the number `n` leaves and returns `n + 1`.
increment_and_get_lem :
    (n : ℕ)
    → n + 1 < 2 ^ 31
    → increment_and_get 32 (record { value = pos n })
      ≡ (record { value = pos (n + 1) }, some (pos (n + 1)))
unfolding increment_and_get add_and_get get_and_add wrap
increment_and_get_lem n h =
    let small : (n + 1) % 4294967296 ≡ n + 1 = omega arith in
    rw (+ℤ_pos n 1) (rw (small, lt→ltb (n + 1) 2147483648 h) refl)

-- What `k` calls return, one after another, whichever threads they are of.
abbrev pub numbers : ℕ → AtomicInteger → List (Option ℤ)
numbers zero a = []
numbers (suc k) a = (increment_and_get 32 a).1 ∷ numbers k (increment_and_get 32 a).0

abbrev pub up_from : ℕ → ℕ → List (Option ℤ)
up_from zero n = []
up_from (suc k) n = some (pos (n + 1)) ∷ up_from k (n + 1)

-- They return the numbers that follow, each once.
pub numbers-up_from :
    (k n : ℕ) → n + k < 2 ^ 31 → numbers k (record { value = pos n }) ≡ up_from k n
numbers-up_from zero n h = refl
numbers-up_from (suc k) n h =
    rw (increment_and_get_lem n (omega arith))
      (ap (λ r. some (pos (n + 1)) ∷ r) (numbers-up_from k (n + 1) (omega arith)))

-- `get` returns the number and leaves it.
pub get_lem : (a : AtomicInteger) → get a ≡ (a, a.value)
unfolding get
get_lem a = elim (Bool-cases (eqb_ℤ a.value (pos 0))) [
  | inr e ↦ rw e refl
  | inl e ↦
      let same = eq_of_parts a.value (pos 0) ((==_iff _ _).0 e) in
      rw e (ap (λ v. (record { value = v }, a.value)) (sym same))
]
