-- ===== src/StringPiece/Texts.antt =====
-- The order of texts, and how the bytes that two texts have in common compare.
use multi_thread_log.Common.{
  ℕ, zero, suc, ◌≤◌, ◌≡◌, ◌⊎◌, inl, inr, refl, sym, subst, ◌∙◌, Bool, true, false, List, [], ◌∷◌,
  ◌++◌, ltb, ◌==◌, if◌then◌else◌, arith, length, Bool-cases, ==_iff,
}
use multi_thread_log.Common.Int.{ℤ, pos, negsuc}
use multi_thread_log.StringPiece.{compare_bytes}

-- The order of texts, as in a dictionary.
unfoldable pub less_text : List ℕ → List ℕ → Bool
less_text s [] = false
less_text [] (y ∷ t) = true
less_text (x ∷ s) (y ∷ t) = let rest = less_text s t in if x == y then rest else ltb x y

unfoldable pub equal_text : List ℕ → List ℕ → Bool
equal_text [] [] = true
equal_text [] (y ∷ t) = false
equal_text (x ∷ s) [] = false
equal_text (x ∷ s) (y ∷ t) = let rest = equal_text s t in if x == y then rest else false

-- How the common length of two texts compares, and what that says of the texts.
pub data Compared (s t : List ℕ) (r : ℤ) : Type 0 where
  below :
      r ≡ negsuc 0
      → less_text s t ≡ true
      → less_text t s ≡ false
      → equal_text s t ≡ false
      → Compared s t r
  above :
      r ≡ pos 1
      → less_text s t ≡ false
      → less_text t s ≡ true
      → equal_text s t ≡ false
      → Compared s t r
  same :
      r ≡ pos 0
      → less_text s t ≡ ltb (length s) (length t)
      → less_text t s ≡ ltb (length t) (length s)
      → equal_text s t ≡ (length s == length t)
      → Compared s t r

pub ltb-suc : (a b : ℕ) → ltb (suc a) (suc b) ≡ ltb a b
ltb-suc a b = ground arith

pub ==-suc : (a b : ℕ) → (suc a == suc b) ≡ (a == b)
==-suc a b = ground arith

pub Compared-cons : (x : ℕ) (s t : List ℕ) (r : ℤ) → Compared s t r → Compared (x ∷ s) (x ∷ t) r
unfolding less_text equal_text
Compared-cons x s t r (below e l g q) =
    let u = (==_iff x x).1 refl in below e (rw u l) (rw u g) (rw u q)
Compared-cons x s t r (above e l g q) =
    let u = (==_iff x x).1 refl in above e (rw u l) (rw u g) (rw u q)
Compared-cons x s t r (same e l g q) =
    let u = (==_iff x x).1 refl in
    same e (rw u (l ∙ sym (ltb-suc (length s) (length t))))
      (rw u (g ∙ sym (ltb-suc (length t) (length s))))
      (rw u (q ∙ sym (==-suc (length s) (length t))))

-- Texts that differ in the first byte.
pub Compared-differ :
    (x y : ℕ) (s t : List ℕ)
    → (x == y) ≡ false
    → Compared (x ∷ s) (y ∷ t) (if ltb x y then negsuc 0 else pos 1)
unfolding less_text equal_text
Compared-differ x y s t e = elim (Bool-cases (ltb x y)) [
  | inl l ↦ rw l (below refl (rw (e, l) refl) (rw (back, other_way l) refl) (rw e refl))
  | inr l ↦ rw l (above refl (rw (e, l) refl) (rw (back, one_way l) refl) (rw e refl))
]
  where
    back : (y == x) ≡ false
    back = ground arith

    other_way : ltb x y ≡ true → ltb y x ≡ false
    other_way l = ground arith

    one_way : ltb x y ≡ false → ltb y x ≡ true
    one_way l = ground arith

pub Compared-compare_bytes :
    (n : ℕ) (s t a b : List ℕ)
    → n ≤ length s
    → n ≤ length t
    → (length s ≤ n) ⊎ (length t ≤ n)
    → Compared s t (compare_bytes n (s ++ a) (t ++ b))
unfolding compare_bytes less_text equal_text
Compared-compare_bytes zero [] [] a b h k u = same refl refl refl refl
Compared-compare_bytes zero [] (y ∷ t) a b h k u =
    same refl (ground arith) (ground arith) (ground arith)
Compared-compare_bytes zero (x ∷ s) [] a b h k u =
    same refl (ground arith) (ground arith) (ground arith)
Compared-compare_bytes zero (x ∷ s) (y ∷ t) a b h k u = absurd (ground arith)
Compared-compare_bytes (suc n) [] t a b h k u = absurd (omega arith)
Compared-compare_bytes (suc n) (x ∷ s) [] a b h k u = absurd (omega arith)
Compared-compare_bytes (suc n) (x ∷ s) (y ∷ t) a b h k u = elim (Bool-cases (x == y)) [
  | inl e ↦
      subst (λ z. Compared (x ∷ s) (z ∷ t) (compare_bytes (suc n) (x ∷ (s ++ a)) (z ∷ (t ++ b))))
        ((==_iff x y).0 e)
        (rw ((==_iff x x).1 refl) (
          Compared-cons x s t _
            (Compared-compare_bytes n s t a b (omega arith) (omega arith) (shorter u))))
  | inr e ↦ rw e (Compared-differ x y s t e)
]
  where
    shorter : (suc (length s) ≤ suc n) ⊎ (suc (length t) ≤ suc n) → (length s ≤ n) ⊎ (length t ≤ n)
    shorter (inl v) = inl (omega arith)
    shorter (inr v) = inr (omega arith)
