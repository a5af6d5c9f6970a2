-- ===== src/ThreadLocal/Own.antt =====
-- Each thread keeps its object.
use multi_thread_log.Common.{
  ℕ, ◌+◌, ◌≡◌, refl, ◌∙◌, Option, none, some, ◌==◌, inl, inr, Option-cases, Bool-cases, ==_iff,
}
use multi_thread_log.ThreadLocal.{
  ThreadLocal, value, value_or_new, set_specific, ThreadLocalSingleton, instance_at, instance_of,
  destructor_at, destructor,
}

set_specific_same :
    (t : ℕ) (object : Option ℕ) (specific : ℕ → Option ℕ)
    → set_specific t object specific t ≡ object
set_specific_same t object specific = rw ((==_iff t t).1 refl) refl

-- A second call of `value` in the same thread returns the same object and changes nothing.
pub value-value : (t : ℕ) (l : ThreadLocal) → value t (value t l).0 ≡ value t l
unfolding value value_or_new
value-value t l = elim (Option-cases (l.specific t)) [
  | inr (object, e) ↦ rw e (rw e refl)
  | inl e ↦ rw e (rw (set_specific_same t (some l.made) l.specific) refl)
]

-- In each thread the key holds what `t_value_` does.
abbrev pub IsPaired : ThreadLocalSingleton → Type 0
IsPaired l = (t : ℕ) → l.specific t ≡ l.t_value t

-- A call was made without a failed assertion, it left `t_value_` and the key the same, and the object is the thread's.
pub record Got (t : ℕ) (r : Option (ThreadLocalSingleton × ℕ)) : Type 0 where
  pub after : ThreadLocalSingleton
  pub object : ℕ
  pub returns : r ≡ some (after, object)
  pub paired : IsPaired after
  pub own : after.t_value t ≡ some object

set_specific-paired :
    (t : ℕ) (object : Option ℕ) (a b : ℕ → Option ℕ)
    → ((u : ℕ) → a u ≡ b u)
    → (u : ℕ) → set_specific t object a u ≡ set_specific t object b u
set_specific-paired t object a b h u = elim (Bool-cases (u == t)) [
  | inl e ↦ rw e refl
  | inr e ↦ rw e (h u)
]

pub instance_of-Got : (t : ℕ) (l : ThreadLocalSingleton) → IsPaired l → Got t (instance_of t l)
unfolding instance_of instance_at
instance_of-Got t l h = elim (Option-cases (l.t_value t)) [
  | inr (object, e) ↦
      rw e (record { after = l; object = object; returns = refl; paired = h; own = e })
  | inl e ↦
      rw (e, h t ∙ e)
        (record {
          after = record {
            t_value = set_specific t (some l.made) l.t_value;
            specific = set_specific t (some l.made) l.specific;
            made = l.made + 1;
          };
          object = l.made;
          returns = refl;
          paired = set_specific-paired t (some l.made) l.specific l.t_value h;
          own = set_specific_same t (some l.made) l.t_value;
        })
]

-- Nor does the assertion of `destructor` fail.
pub destructor-IsPaired :
    (t : ℕ) (l : ThreadLocalSingleton)
    → IsPaired l
    → (l' : ThreadLocalSingleton) × (destructor t l ≡ some l') × IsPaired l'
unfolding destructor destructor_at
destructor-IsPaired t l h = elim (Option-cases (l.t_value t)) [
  | inl e ↦ rw (h t ∙ e) (l, refl, h)
  | inr (object, e) ↦
      rw (h t ∙ e, e, (==_iff object object).1 refl)
        (
          record l {
            t_value = set_specific t none l.t_value;
            specific = set_specific t none l.specific;
          },
          refl,
          set_specific-paired t none l.specific l.t_value h,
        )
]
