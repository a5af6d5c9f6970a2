-- ===== src/LogStream/Convert/Numeral.antt =====
-- Positional notation, described by how it is read: independent of the loops that write it.
use multi_thread_log.Common.{
  ℕ, zero, suc, ◌∙◌, ◌+◌, ◌*◌, ◌<◌, ◌≡◌, ◌≢◌, ◌⊎◌, inl, inr, refl, ap, List, [], ◌∷◌, ◌++◌, arith,
}

-- A base, with the character of each digit and the digit of each character.
pub record Notation : Type 0 where
  pub radix : ℕ
  pub char : ℕ → ℕ
  pub digit : ℕ → ℕ
  pub radix_pos : 0 < radix
  pub digit-char : (k : ℕ) → k < radix → digit (char k) ≡ k

module _ (b : Notation) where
  open b use {radix, char, digit}

  -- Reading from the left, after `n`.
  abbrev pub read_from : ℕ → List ℕ → ℕ
  read_from n [] = n
  read_from n (c ∷ s) = read_from (n * radix + digit c) s

  abbrev pub AreDigits : List ℕ → Type 0
  AreDigits [] = Unit
  AreDigits (c ∷ s) = ((k : ℕ) × (k < radix) × (c ≡ char k)) × AreDigits s

  -- The first character is not zero.
  abbrev pub Leads : List ℕ → Type 0
  Leads [] = ⊥
  Leads (c ∷ s) = c ≢ char 0

  read_from-snoc :
      (n : ℕ) (s : List ℕ) (c : ℕ) → read_from n (s ++ c ∷ []) ≡ read_from n s * radix + digit c
  read_from-snoc n [] c = refl
  read_from-snoc n (x ∷ s) c = read_from-snoc (n * radix + digit x) s c

  AreDigits-snoc : (s : List ℕ) (k : ℕ) → AreDigits s → k < radix → AreDigits (s ++ char k ∷ [])
  AreDigits-snoc [] k h lt = ((k, lt, refl), tt)
  AreDigits-snoc (x ∷ s) k h lt = (h.0, AreDigits-snoc s k h.1 lt)

  Leads-append : (s t : List ℕ) → Leads s → Leads (s ++ t)
  Leads-append [] t h = absurd h
  Leads-append (x ∷ s) t h = h

-- `s` is the notation of `n`: digits only, which read as `n`, with no zero in front of others.
pub record IsNumeral (b : Notation) (n : ℕ) (s : List ℕ) : Type 0 where
  pub are_digits : AreDigits b s
  pub reads : read_from b 0 s ≡ n
  pub leads : ((n ≡ 0) × (s ≡ b.char 0 ∷ [])) ⊎ ((0 < n) × Leads b s)

module _ (b : Notation) where
  open b use {radix, char, digit}

  char-ne : (k : ℕ) → 0 < k → k < radix → char k ≢ char 0
  char-ne k h lt e = omega (arith, ap digit e, b.digit-char k lt, b.digit-char 0 b.radix_pos)

  pub IsNumeral-one : (k : ℕ) → k < radix → IsNumeral b k (char k ∷ [])
  IsNumeral-one k lt = record {
    are_digits = ((k, lt, refl), tt);
    reads = omega (arith, b.digit-char k lt);
    leads = first k lt;
  }
    where
      first :
          (j : ℕ)
          → j < radix
          → ((j ≡ 0) × (char j ∷ [] ≡ char 0 ∷ [])) ⊎ ((0 < j) × (char j ≢ char 0))
      first zero l = inl (refl, refl)
      first (suc j) l = inr (omega arith, char-ne (suc j) (omega arith) l)

  pub IsNumeral-snoc :
      (n k : ℕ) (s : List ℕ)
      → 0 < n
      → k < radix
      → IsNumeral b n s
      → IsNumeral b (n * radix + k) (s ++ char k ∷ [])
  IsNumeral-snoc n k s pos lt v = record {
    are_digits = AreDigits-snoc b s k v.are_digits lt;
    reads =
        read_from-snoc b 0 s (char k)
        ∙ ap (λ m. m * radix + digit (char k)) v.reads
        ∙ ap (λ d. n * radix + d) (b.digit-char k lt);
    leads = inr (grind (arith, b.radix_pos), Leads-append b s _ (front v.leads));
  }
    where
      front : ((n ≡ 0) × (s ≡ b.char 0 ∷ [])) ⊎ ((0 < n) × Leads b s) → Leads b s
      front (inl z) = absurd (omega arith)
      front (inr h) = h.1
