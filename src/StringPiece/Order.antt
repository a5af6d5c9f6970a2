-- ===== src/StringPiece/Order.antt =====
-- The comparisons of pieces are those of their texts.
mod Examples
use multi_thread_log.Common.{
  ℕ, zero, suc, ◌+◌, ◌≤◌, ◌<◌, ◌≡◌, ◌⊎◌, inl, inr, refl, sym, ap, ap₂, subst, ◌∙◌, Bool, true,
  false, not, ◌&&◌, ◌||◌, Option, none, some, List, [], ◌∷◌, ◌++◌, ltb, leb, ◌==◌, if◌then◌else◌,
  ◌>>=◌, arith, length, length-append, le→leb, Bool-cases, ==_iff, ne→==,
}
use multi_thread_log.Common.Int.{ℤ, pos, negsuc, ltb_ℤ, eqb_ℤ}
use multi_thread_log.StringPiece.{
  StringPiece, compare_bytes, memcmp, min_ℤ, equals, differs, predicate, less, less_or_equal,
  greater_or_equal, greater, compare,
}
use multi_thread_log.StringPiece.Texts.{
  below, above, same, less_text, equal_text, Compared, ltb-suc, ==-suc, Compared-cons,
  Compared-differ, Compared-compare_bytes,
}

-- The piece is of the text `s`, whatever stands behind it in memory.
pub record IsPiece (p : StringPiece) (s : List ℕ) : Type 0 where
  pub behind : List ℕ
  pub ptr_is : p.ptr ≡ s ++ behind
  pub size_is : p.size ≡ pos (length s)

ltb_ℤ_pos : (a b : ℕ) → ltb_ℤ (pos a) (pos b) ≡ ltb a b
ltb_ℤ_pos a b = ground arith

eqb_ℤ_pos : (a b : ℕ) → eqb_ℤ (pos a) (pos b) ≡ (a == b)
eqb_ℤ_pos a b = ground arith

memcmp_bytes :
    (n : ℕ) (s t a b : List ℕ)
    → n ≤ length s
    → n ≤ length t
    → memcmp (s ++ a) (t ++ b) (pos n) ≡ some (compare_bytes n (s ++ a) (t ++ b))
unfolding memcmp
memcmp_bytes n s t a b h k =
    rw
      (
        le→leb n (length (s ++ a)) (omega (arith, length-append s a)),
        le→leb n (length (t ++ b)) (omega (arith, length-append t b)),
      )
      refl

memcmp-min :
    (s t a b : List ℕ)
    → (r : ℤ) × (memcmp (s ++ a) (t ++ b) (min_ℤ (pos (length s)) (pos (length t))) ≡ some r)
      × Compared s t r
memcmp-min s t a b = elim (Bool-cases (ltb_ℤ (pos (length s)) (pos (length t)))) [
  | inl l ↦
      let shorter : length s ≤ length t = fewer l in
      (
        compare_bytes (length s) (s ++ a) (t ++ b),
        rw l (memcmp_bytes (length s) s t a b (omega arith) shorter),
        Compared-compare_bytes (length s) s t a b (omega arith) shorter (inl (omega arith)),
      )
  | inr l ↦
      let shorter : length t ≤ length s = not_fewer l in
      (
        compare_bytes (length t) (s ++ a) (t ++ b),
        rw l (memcmp_bytes (length t) s t a b shorter (omega arith)),
        Compared-compare_bytes (length t) s t a b shorter (omega arith) (inr (omega arith)),
      )
]
  where
    fewer : ltb_ℤ (pos (length s)) (pos (length t)) ≡ true → length s ≤ length t
    fewer l = ground arith

    not_fewer : ltb_ℤ (pos (length s)) (pos (length t)) ≡ false → length t ≤ length s
    not_fewer l = ground arith

-- What `memcmp` returns for the common length of two pieces.
memcmp-Compared :
    (p q : StringPiece) (s t : List ℕ)
    → IsPiece p s
    → IsPiece q t
    → (r : ℤ) × (memcmp p.ptr q.ptr (min_ℤ p.size q.size) ≡ some r) × Compared s t r
memcmp-Compared p q s t u v =
    rw (u.ptr_is, u.size_is, v.ptr_is, v.size_is) (memcmp-min s t u.behind v.behind)

-- The results of the comparisons, for a result of `memcmp`.
predicate_lem :
    (s t : List ℕ) (r : ℤ)
    → Compared s t r
    → ((ltb_ℤ r (pos 0) || (eqb_ℤ r (pos 0) && ltb (length s) (length t))) ≡ less_text s t)
      × ((ltb_ℤ r (pos 0) || (eqb_ℤ r (pos 0) && not (ltb (length t) (length s))))
          ≡ not (less_text t s))
      × ((ltb_ℤ (pos 0) r || (eqb_ℤ r (pos 0) && not (ltb (length s) (length t))))
          ≡ not (less_text s t))
      × ((ltb_ℤ (pos 0) r || (eqb_ℤ r (pos 0) && ltb (length t) (length s))) ≡ less_text t s)
      × ((if eqb_ℤ r (pos 0) then (if ltb (length s) (length t) then negsuc 0 else pos 1) else r)
          ≡ (if less_text s t then negsuc 0 else pos 1))
predicate_lem s t r (below e l g q) = rw (e, l, g) (refl, refl, refl, refl, refl)
predicate_lem s t r (above e l g q) = rw (e, l, g) (refl, refl, refl, refl, refl)
predicate_lem s t r (same e l g q) = rw (e, l, g) (refl, refl, refl, refl, refl)

predicate-Compared :
    (cmp auxcmp : ℤ → ℤ → Bool) (p q : StringPiece) (s t : List ℕ) (r : ℤ)
    → IsPiece p s
    → IsPiece q t
    → memcmp p.ptr q.ptr (min_ℤ p.size q.size) ≡ some r
    → predicate cmp auxcmp p q
      ≡ some (auxcmp r (pos 0) || (eqb_ℤ r (pos 0) && cmp (pos (length s)) (pos (length t))))
unfolding predicate
predicate-Compared cmp auxcmp p q s t r u v e = rw e (rw (u.size_is, v.size_is) refl)

-- Of two pieces, of any texts, `<`, `<=`, `>=` and `>` return whether the first text comes before the other in a dictionary,
-- does not come after it, does not come before it, or comes after it.
pub predicate-less_text :
    (p q : StringPiece) (s t : List ℕ)
    → IsPiece p s
    → IsPiece q t
    → (less p q ≡ some (less_text s t))
      × (less_or_equal p q ≡ some (not (less_text t s)))
      × (greater_or_equal p q ≡ some (not (less_text s t)))
      × (greater p q ≡ some (less_text t s))
predicate-less_text p q s t u v =
    let m = memcmp-Compared p q s t u v in
    let c = predicate_lem s t m.0 m.2 in
    let st = ltb_ℤ_pos (length s) (length t) in
    let ts = ltb_ℤ_pos (length t) (length s) in
    (
      predicate-Compared _ _ p q s t m.0 u v m.1
          ∙ ap (λ b. some (ltb_ℤ m.0 (pos 0) || (eqb_ℤ m.0 (pos 0) && b))) st
          ∙ ap some c.0,
      predicate-Compared _ _ p q s t m.0 u v m.1
          ∙ ap (λ b. some (ltb_ℤ m.0 (pos 0) || (eqb_ℤ m.0 (pos 0) && not b))) ts
          ∙ ap some c.1,
      predicate-Compared _ _ p q s t m.0 u v m.1
          ∙ ap (λ b. some (ltb_ℤ (pos 0) m.0 || (eqb_ℤ m.0 (pos 0) && not b))) st
          ∙ ap some c.2,
      predicate-Compared _ _ p q s t m.0 u v m.1
          ∙ ap (λ b. some (ltb_ℤ (pos 0) m.0 || (eqb_ℤ m.0 (pos 0) && b))) ts
          ∙ ap some c.3,
    )

-- Of two pieces, of any texts, `compare` returns a negative number if the first text comes before the other and a
-- positive one in all other cases, also where the texts are the same.
pub compare-less_text :
    (p q : StringPiece) (s t : List ℕ)
    → IsPiece p s
    → IsPiece q t
    → compare p q ≡ some (if less_text s t then negsuc 0 else pos 1)
unfolding compare
compare-less_text p q s t u v =
    let m = memcmp-Compared p q s t u v in
    let c = predicate_lem s t m.0 m.2 in
    rw m.1 (
      rw (u.size_is, v.size_is)
        (ap (λ b. some (if eqb_ℤ m.0 (pos 0) then (if b then negsuc 0 else pos 1) else m.0))
            (ltb_ℤ_pos (length s) (length t))
          ∙ ap some c.4))

equal_text-length :
    (s t : List ℕ) (r : ℤ)
    → Compared s t r
    → (length s == length t) ≡ false
    → equal_text s t ≡ false
equal_text-length s t r (below e l g q) h = q
equal_text-length s t r (above e l g q) h = q
equal_text-length s t r (same e l g q) h = q ∙ h

eqb-Compared :
    (s t : List ℕ) (r : ℤ)
    → Compared s t r
    → (length s == length t) ≡ true
    → eqb_ℤ r (pos 0) ≡ equal_text s t
eqb-Compared s t r (below e l g q) h = rw (e, q) refl
eqb-Compared s t r (above e l g q) h = rw (e, q) refl
eqb-Compared s t r (same e l g q) h = rw (e, q, h) refl

if_same : (c : Bool) (a : ℤ) → (if c then a else a) ≡ a
if_same true a = refl
if_same false a = refl

equals_lem :
    (p q : StringPiece) (s t : List ℕ)
    → IsPiece p s
    → IsPiece q t
    → equals p q ≡ some (equal_text s t)
unfolding equals
equals_lem p q s t u v =
    let m = memcmp-Compared p q s t u v in
    let sizes : eqb_ℤ p.size q.size ≡ (length s == length t) =
      ap₂ eqb_ℤ u.size_is v.size_is ∙ eqb_ℤ_pos (length s) (length t) in
    elim (Bool-cases (length s == length t)) [
      | inr other ↦ rw (sizes ∙ other) (ap some (sym (equal_text-length s t m.0 m.2 other)))
      | inl alike ↦
          let pq : p.size ≡ q.size =
            u.size_is ∙ ap pos ((==_iff (length s) (length t)).0 alike) ∙ sym v.size_is in
          let whole : min_ℤ p.size q.size ≡ p.size =
            ap (min_ℤ p.size) (sym pq) ∙ if_same (ltb_ℤ p.size p.size) p.size in
          let returns : memcmp p.ptr q.ptr p.size ≡ some m.0 =
            ap (memcmp p.ptr q.ptr) (sym whole) ∙ m.1 in
          rw (sizes ∙ alike, returns) (ap some (eqb-Compared s t m.0 m.2 alike))
    ]

-- Of two pieces, of any texts, `==` returns whether the texts are the same, and `!=` whether they are not.
pub equals-equal_text :
    (p q : StringPiece) (s t : List ℕ)
    → IsPiece p s
    → IsPiece q t
    → (equals p q ≡ some (equal_text s t)) × (differs p q ≡ some (not (equal_text s t)))
unfolding differs
equals-equal_text p q s t u v =
    let e = equals_lem p q s t u v in (e, ap (λ r. r >>= λ alike. some (not alike)) e)
