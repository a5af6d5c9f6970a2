-- ===== src/FileUtil/ReadSmallFile/Loop.antt =====
-- The loop of `readToString` reads the file's beginning, however few bytes each call returns.
use multi_thread_log.Common.{
  ℕ, zero, suc, ◌+◌, ◌-◌, ◌≤◌, ◌<◌, ◌≡◌, ◌≢◌, ◌⊎◌, inl, inr, refl, sym, ap, subst, ◌∙◌, min, false,
  Option, some, List, ltb, arith, length, length-take, length-drop, take, drop, drop-drop, take-add,
  take-all, Bool-cases, ltb→lt,
}
use multi_thread_log.FileUtil.ReadSmallFile.{
  Answer, failed, count, k_buffer_size, on_read, read_loop,
}

-- What is documented of `read`: it puts no more bytes than are asked for and than the file has, and none only where
-- none are asked for or the file ends. The number of an error is not 0.
pub record IsRead (read : List ℕ → ℕ → Answer) : Type 0 where
  pub bounded : (rest : List ℕ) (n k : ℕ) → read rest n ≡ count k → (k ≤ n) × (k ≤ length rest)
  pub ends : (rest : List ℕ) (n : ℕ) → read rest n ≡ count 0 → (n ≡ 0) ⊎ (length rest ≡ 0)
  pub errors : (rest : List ℕ) (n e : ℕ) → read rest n ≡ failed e → e ≢ 0

-- With `k` bytes read, of at most `max_size`, the next `read` fails.
abbrev pub FailsAt : (List ℕ → ℕ → Answer) → ℕ → List ℕ → ℕ → ℕ → Type 0
FailsAt read max_size file k error =
    (k < max_size) × (read (drop k file) (min (max_size - k) k_buffer_size) ≡ failed error)

-- The result is the file's beginning, of at most `max_size` bytes: all of that without a new error, or the bytes in front
-- of those that a failed `read` asked for, with its error number.
pub record HasRead (read : List ℕ → ℕ → Answer) (max_size : ℕ) (file : List ℕ) (err : ℕ)
    (r : Option (List ℕ × ℕ)) : Type 0 where
  pub content : List ℕ
  pub error : ℕ
  pub returns : r ≡ some (content, error)
  pub beginning : content ≡ take (length content) file
  pub bounded : length content ≤ max_size
  pub whole_or_error :
      ((content ≡ take max_size file) × (error ≡ err))
      ⊎ FailsAt read max_size file (length content) error

module _ (read : List ℕ → ℕ → Answer) (ok : IsRead read) (max_size : ℕ) (file : List ℕ)
    (err : ℕ) where
  -- With the first `k` bytes read and the rest left.
  on_read-HasRead :
      (k n : ℕ) (next : ℕ → Option (List ℕ × ℕ)) (answer : Answer)
      → read (drop k file) n ≡ answer
      → 0 < n
      → n ≡ min (max_size - length (take k file)) k_buffer_size
      → k ≤ length file
      → k ≤ max_size
      → ((m : ℕ) → 0 < m → m ≤ n → k + m ≤ length file → HasRead read max_size file err (next m))
      → HasRead read max_size file err (on_read answer (take k file) err next)
  unfolding on_read
  on_read-HasRead k n next (failed e) same some_asked asked inside room rec = record {
    content = take k file;
    error = e;
    returns = refl;
    beginning = ap (λ m. take m file) (omega (arith, length-take k file));
    bounded = omega (arith, length-take k file);
    whole_or_error = inr (
        subst (λ j. FailsAt read max_size file j e) long
          (omega (arith, long), subst (λ m. read (drop k file) m ≡ failed e) size same));
  }
    where
      long : k ≡ length (take k file)
      long = omega (arith, length-take k file)

      size : n ≡ min (max_size - k) k_buffer_size
      size = asked ∙ ap (λ m. min (max_size - m) k_buffer_size) (sym long)
  on_read-HasRead k n next (count zero) same some_asked asked inside room rec =
      let done : length file ≤ k = at_end (ok.ends (drop k file) n same) in
      record {
        content = take k file;
        error = err;
        returns = refl;
        beginning = ap (λ m. take m file) (omega (arith, length-take k file));
        bounded = omega (arith, length-take k file);
        whole_or_error =
            inl (take-all k file done ∙ sym (take-all max_size file (omega arith)), refl);
      }
    where
      at_end : (n ≡ 0) ⊎ (length (drop k file) ≡ 0) → length file ≤ k
      at_end (inl e) = omega arith
      at_end (inr e) = omega (arith, length-drop k file)
  on_read-HasRead k n next (count (suc m)) same some_asked asked inside room rec =
      let b = ok.bounded (drop k file) n (suc m) same in
      rec (suc m) (omega arith) b.0 (omega (arith, b.1, length-drop k file))

  pub read_loop-HasRead :
      (fuel k : ℕ)
      → k ≤ length file
      → k ≤ max_size
      → max_size < k + fuel
      → HasRead read max_size file err
          (read_loop read fuel max_size (take k file) (drop k file) err)
  unfolding read_loop
  read_loop-HasRead zero k inside room enough = absurd (omega arith)
  read_loop-HasRead (suc fuel) k inside room enough =
      elim (Bool-cases (ltb (length (take k file)) max_size)) [
        | inl more ↦
            let left = ltb→lt (length (take k file)) max_size more in
            rw more (
              on_read-HasRead k (min (max_size - length (take k file)) k_buffer_size) _
                (read (drop k file) (min (max_size - length (take k file)) k_buffer_size)) refl
                (omega arith) refl inside room
                (λ m some_read few fits.
                  rw (sym (take-add k m file), drop-drop k m file)
                    (read_loop-HasRead fuel (k + m) fits (omega (arith, length-take k file))
                      (omega arith))))
        | inr full ↦ rw full (record {
          content = take k file;
          error = err;
          returns = refl;
          beginning = ap (λ m. take m file) (omega (arith, length-take k file));
          bounded = omega (arith, length-take k file);
          whole_or_error =
              inl (ap (λ m. take m file) (omega (arith, length-take k file, filled full)), refl);
        })
      ]
    where
      filled : ltb (length (take k file)) max_size ≡ false → max_size ≤ length (take k file)
      filled e = ground arith
