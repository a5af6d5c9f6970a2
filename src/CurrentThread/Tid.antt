-- ===== src/CurrentThread/Tid.antt =====
-- The cached number of a thread and its text.
use multi_thread_log.Common.{ℕ, ◌<◌, ◌≡◌, refl, length, arith, ◌⊎◌, inl, inr, ne→==}
use multi_thread_log.Common.Decimal.{print_blank, snprintf}
use multi_thread_log.Common.Int.{pos}
use multi_thread_log.CurrentThread.{CurrentThread, cache_tid, tid, after_fork}

-- The number `n` is cached, with its text of at least five characters.
pub record IsCached (n : ℕ) (c : CurrentThread) : Type 0 where
  pub number : c.cached_tid ≡ n
  pub text : c.tid_string ≡ snprintf 32 (print_blank 5 (pos n))
  pub size : c.tid_string_length ≡ length (print_blank 5 (pos n))

pub cache_tid-IsCached : (n : ℕ) (c : CurrentThread) → c.cached_tid ≡ 0 → IsCached n (cache_tid n c)
unfolding cache_tid
cache_tid-IsCached n c e = rw e (record { number = refl; text = refl; size = refl })

-- Nothing is cached yet, or the thread's own number is.
abbrev pub IsOwn : ℕ → CurrentThread → Type 0
IsOwn n c = (c.cached_tid ≡ 0) ⊎ IsCached n c

-- In a thread whose number is not 0 and that has cached nothing or its own number, `tid` returns the number and
-- leaves it cached with its text. After a fork the number of the child is, whatever was cached before.
pub tid-IsCached :
    (n : ℕ) (c d : CurrentThread)
    → 0 < n
    → IsOwn n c
    → ((tid n c).1 ≡ n) × IsCached n (tid n c).0 × IsCached n (after_fork n d)
unfolding tid cache_tid after_fork
tid-IsCached n c d h (inl none_yet) = (
  rw none_yet refl,
  rw none_yet (record { number = refl; text = refl; size = refl }),
  record { number = refl; text = refl; size = refl },
)
tid-IsCached n c d h (inr v) =
    let known = ne→== c.cached_tid 0 (omega (arith, v.number)) in
    (rw known v.number, rw known v, record { number = refl; text = refl; size = refl })
