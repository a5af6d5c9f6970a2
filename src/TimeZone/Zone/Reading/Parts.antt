-- ===== src/TimeZone/Zone/Reading/Parts.antt =====
-- What each part of the reading makes of the bytes that stand for it.
use multi_thread_log.Common.{
  ℕ, suc, ◌+◌, ◌-◌, ◌*◌, ◌/◌, ◌%◌, ◌≡◌, refl, sym, ap, ◌∙◌, Bool, true, false, not, List, [], ◌∷◌,
  ◌++◌, append-nil, append_assoc, length, length-append, subst, take-append, drop-append, le→leb,
  lt→ltb, ◌==◌, if◌then◌else◌, arith,
}
use multi_thread_log.Common.Int.{ℤ, pos, negsuc, ltb_ℤ}
use multi_thread_log.TimeZone.Zone.{Transition, Localtime, Data}
use multi_thread_log.TimeZone.Zone.Reading.{
  returns, Reader, then_read, ◌>>=◌, give, read_bytes, int32_of, read_int32, read_uint8, times,
  read_localtime, push_with, push_transition, push_transitions, read_abbreviation,
}
use multi_thread_log.TimeZone.Zone.Reading.Kept.{AreResolved}
use multi_thread_log.TimeZone.Zone.Reading.Format.{
  write_int32, IsInt32, write_all, All, flag, write_localtime, gmttimes, indices,
}

pub big_endian-value :
    (u : ℕ) → ((u / 16777216 * 256 + u / 65536 % 256) * 256 + u / 256 % 256) * 256 + u % 256 ≡ u
big_endian-value u = omega arith

pub int32_of-write_int32 : (a : ℤ) → IsInt32 a → int32_of (write_int32 a) ≡ a
unfolding int32_of
int32_of-write_int32 (pos n) h = rw (big_endian-value n, lt→ltb n 2147483648 h.0) refl
int32_of-write_int32 (negsuc n) h = rw (big_endian-value (4294967295 - n)) (ground arith)

-- A part of the reading takes `bytes`, gives `x`, and goes from the data `d` to `d'`, whatever follows.
abbrev pub Reads : {A : Type 0} → Reader A → List ℕ → Data → A → Data → Type 0
Reads r bytes d x d' = (rest : List ℕ) → r (bytes ++ rest) d ≡ returns x rest d'

pub Reads-then :
    {A B : Type 0} (r : Reader A) (k : A → Reader B) (s t : List ℕ) (d d' d'' : Data) (x : A)
    (y : B)
    → Reads r s d x d'
    → Reads (k x) t d' y d''
    → Reads (r >>= k) (s ++ t) d y d''
Reads-then r k s t d d' d'' x y h g rest =
    ap (λ bytes. then_read (r bytes d) k) (append_assoc s t rest)
    ∙ ap (λ o. then_read o k) (h (t ++ rest))
    ∙ g rest

pub Reads-bytes : (s : List ℕ) (d : Data) → Reads (read_bytes (length s)) s d s d
unfolding read_bytes
Reads-bytes s d rest =
    rw
      (
        le→leb (length s) (length (s ++ rest)) (omega (arith, length-append s rest)),
        take-append s rest,
        drop-append s rest,
      )
      refl

pub Reads-int32 : (a : ℤ) (d : Data) → IsInt32 a → Reads read_int32 (write_int32 a) d a d
unfolding read_int32
Reads-int32 (pos n) d h rest =
    ap (λ o. then_read o (λ x. give (int32_of x))) (Reads-bytes (write_int32 (pos n)) d rest)
    ∙ ap (λ x. returns x rest d) (int32_of-write_int32 (pos n) h)
Reads-int32 (negsuc n) d h rest =
    ap (λ o. then_read o (λ x. give (int32_of x))) (Reads-bytes (write_int32 (negsuc n)) d rest)
    ∙ ap (λ x. returns x rest d) (int32_of-write_int32 (negsuc n) h)

pub Reads-times :
    {A : Type 0} (r : Reader A) (write : A → List ℕ) (p : A → Type 0) (d : Data)
    → ((x : A) → p x → Reads r (write x) d x d)
    → (xs : List A) → All p xs
    → Reads (times (length xs) r) (write_all write xs) d xs d
unfolding times
Reads-times r write p d h [] v rest = refl
Reads-times r write p d h (x ∷ xs) v rest =
    Reads-then r _ (write x) (write_all write xs) d d d x (x ∷ xs) (h x v.0)
      (λ rest. ap (λ o. then_read o (λ ys. give (x ∷ ys))) (Reads-times r write p d h xs v.1 rest))
      rest

pub flag-read : (b : Bool) → not (flag b == 0) ≡ b
flag-read true = refl
flag-read false = refl

pub Reads-localtime :
    (l : Localtime) (d : Data)
    → IsInt32 l.gmt_offset
    → Reads read_localtime
        (write_localtime l)
        d
        tt
        (record d { localtimes = d.localtimes ++ l ∷ [] })
unfolding read_localtime read_uint8
Reads-localtime l d h =
    Reads-then read_int32 _ (write_int32 l.gmt_offset) (flag l.is_dst ∷ l.arrb_idx ∷ []) d d _
      l.gmt_offset tt (Reads-int32 l.gmt_offset d h)
      (λ rest.
        ap
          (λ b. returns tt rest (record d {
            localtimes =
                d.localtimes
                ++ record { gmt_offset = l.gmt_offset; is_dst = b; arrb_idx = l.arrb_idx } ∷ [];
          }))
          (flag-read l.is_dst))

abbrev pub units : List Localtime → List (Unit {0})
units [] = []
units (l ∷ ls) = tt ∷ units ls

pub Reads-localtimes :
    (ls : List Localtime) (d : Data)
    → All (λ l. IsInt32 l.gmt_offset) ls
    → Reads
        (times (length ls) read_localtime)
        (write_all write_localtime ls)
        d
        (units ls)
        (record d { localtimes = d.localtimes ++ ls })
unfolding times
Reads-localtimes [] d v rest =
    ap (λ ls. returns [] rest (record d { localtimes = ls })) (sym (append-nil d.localtimes))
Reads-localtimes (l ∷ ls) d v rest =
    let d' = record d { localtimes = d.localtimes ++ l ∷ [] } in
    Reads-then read_localtime _ (write_localtime l) (write_all write_localtime ls) d d' _ tt _
      (Reads-localtime l d v.0)
      (λ rest.
        ap (λ o. then_read o (λ us. give (tt ∷ us))) (Reads-localtimes ls d' v.1 rest)
        ∙ ap (λ xs. returns (units (l ∷ ls)) rest (record d { localtimes = xs }))
            (append_assoc d.localtimes (l ∷ []) ls))
      rest

pub Reads-transitions :
    (ts : List Transition) (d : Data)
    → AreResolved d.localtimes ts
    → Reads
        (push_transitions (gmttimes ts) (indices ts))
        []
        d
        tt
        (record d { transitions = d.transitions ++ ts })
unfolding push_transitions push_transition push_with
Reads-transitions [] d v rest =
    ap (λ ts. returns tt rest (record d { transitions = ts })) (sym (append-nil d.transitions))
Reads-transitions (t ∷ ts) d v rest =
    let d' = record d { transitions = d.transitions ++ t ∷ [] } in
    let next : Unit {0} → Reader (Unit {0}) =
      λ pushed. push_transitions (gmttimes ts) (indices ts) in
    ap (λ o. then_read (push_with t.gmttime t.localtime_idx o rest d) next) (v.0).1
    ∙ ap
        (λ lt.
          then_read
            (returns tt rest (record d {
              transitions =
                  d.transitions
                  ++ record { gmttime = t.gmttime; localtime = lt; localtime_idx = t.localtime_idx }
                    ∷ [];
            }))
            next)
        (sym (v.0).2)
    ∙ Reads-transitions ts d' v.1 rest
    ∙ ap (λ xs. returns tt rest (record d { transitions = xs }))
        (append_assoc d.transitions (t ∷ []) ts)

pub length-gmttimes : (ts : List Transition) → length (gmttimes ts) ≡ length ts
length-gmttimes [] = refl
length-gmttimes (t ∷ ts) = ap suc (length-gmttimes ts)

pub length-indices : (ts : List Transition) → length (indices ts) ≡ length ts
length-indices [] = refl
length-indices (t ∷ ts) = ap suc (length-indices ts)

pub Reads-uint8 : (i : ℕ) (d : Data) → Reads read_uint8 (i ∷ []) d i d
unfolding read_uint8
Reads-uint8 i d rest = refl

pub All-trivial {ℓ} : {A : Type ℓ} (xs : List A) → All (λ x. Unit) xs
All-trivial [] = tt
All-trivial (x ∷ xs) = (tt, All-trivial xs)

-- A count is not negative.
pub Reads-unless :
    {A : Type 0} (n : ℕ) (r s : Reader A) (bytes : List ℕ) (d d' : Data) (x : A)
    → Reads s bytes d x d'
    → Reads (if ltb_ℤ (pos n) (pos 0) then r else s) bytes d x d'
Reads-unless n r s bytes d d' x h =
    let some_count : false ≡ ltb_ℤ (pos n) (pos 0) = ground arith in
    subst (λ b. Reads (if b then r else s) bytes d x d') some_count h

pub Reads-abbreviation :
    (s : List ℕ) (d : Data)
    → Reads (read_abbreviation (pos (length s))) s d tt (record d { abbreviation = s })
unfolding read_abbreviation
Reads-abbreviation s d =
    Reads-unless (length s) _ _ s d (record d { abbreviation = s }) tt
      (λ rest.
        ap
          (λ o. then_read o (λ names bytes d. returns tt bytes (record d { abbreviation = names })))
          (Reads-bytes s d rest))
