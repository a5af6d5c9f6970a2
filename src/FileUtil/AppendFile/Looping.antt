-- ===== src/FileUtil/AppendFile/Looping.antt =====
-- What the loop of `AppendFile::append` puts into the file.
use multi_thread_log.Common.{
  ℕ, ◌+◌, ◌-◌, ◌≤◌, ◌<◌, ◌≡◌, inl, inr, refl, sym, ap, subst, ◌∙◌, false, some, List, [], ◌∷◌, ◌++◌,
  ◌==◌, length, take, drop, min, arith, append-nil, append_assoc, length-drop, drop-drop, take-add,
  take-append-drop, drop-all, Bool-cases, ==_iff,
}
use multi_thread_log.FileUtil.AppendFile.{Answer, AppendFile, write, append_loop}

-- The loop added `taken` bytes of `logline` from `written` on, and counted nothing.
pub record Looped (f : AppendFile) (logline : List ℕ) (written : ℕ) (g : AppendFile) : Type 0 where
  pub taken : ℕ
  pub within : written + taken ≤ length logline
  pub content : g.file ≡ f.file ++ take taken (drop written logline)
  pub count_same : g.writen_bytes ≡ f.writen_bytes
  pub flushes_same : g.flushes ≡ f.flushes

-- No call of `fwrite` failed, and each took something.
abbrev pub AllGood : List Answer → Type 0
AllGood [] = Unit
AllGood (a ∷ answers) = (0 < a.count) × (a.error ≡ 0) × AllGood answers

module _ (logline : List ℕ) where
  stopped : (f : AppendFile) (written : ℕ) → written ≤ length logline → Looped f logline written f
  stopped f written h = record {
    taken = 0;
    within = omega arith;
    content = sym (append-nil f.file);
    count_same = refl;
    flushes_same = refl;
  }

  step-within :
      (f : AppendFile) (written : ℕ) (a : Answer)
      → written ≤ length logline
      → (written + (write f (drop written logline) a).1 ≤ length logline)
        × ((write f (drop written logline) a).1 ≡ min a.count (length logline - written))
  unfolding write
  step-within f written a h = omega (arith, length-drop written logline)

  stepped :
      (f g : AppendFile) (written : ℕ) (a : Answer)
      → written ≤ length logline
      → let r = write f (drop written logline) a in
        Looped r.0 logline (written + r.1) g → Looped f logline written g
  unfolding write
  stepped f g written a h w =
      let n = min a.count (length (drop written logline)) in
      record {
        taken = n + w.taken;
        within = omega (arith, w.within);
        content =
            w.content
            ∙ append_assoc f.file _ _
            ∙ ap (λ t. f.file ++ t)
                (ap (λ t. take n (drop written logline) ++ take w.taken t)
                    (sym (drop-drop written n logline))
                  ∙ sym (take-add n w.taken (drop written logline)));
        count_same = w.count_same;
        flushes_same = w.flushes_same;
      }

  pub append_loop-Looped :
      (f g : AppendFile) (written : ℕ) (answers : List Answer)
      → written ≤ length logline
      → append_loop f logline written answers ≡ some g
      → Looped f logline written g
  unfolding append_loop
  append_loop-Looped f g written [] h e = elim (Bool-cases (written == length logline)) [
    | inl t ↦
        let same : f ≡ g = cc (rw t at e) in
        subst (Looped f logline written) same (stopped f written h)
    | inr t ↦ absurd (cc (rw t at e))
  ]
  append_loop-Looped f g written (a ∷ answers) h e =
      let r = write f (drop written logline) a in
      let fits = step-within f written a h in
      let on = λ (q : append_loop r.0 logline (written + r.1) answers ≡ some g).
        stepped f g written a h (append_loop-Looped r.0 g (written + r.1) answers fits.0 q) in
      elim (Bool-cases (written == length logline)) [
        | inl t ↦
            let same : f ≡ g = cc (rw t at e) in
            subst (Looped f logline written) same (stopped f written h)
        | inr t ↦ elim (Bool-cases (r.1 == length logline - written)) [
          | inl u ↦ on (rw (t, u) at e)
          | inr u ↦ elim (Bool-cases (a.error == 0)) [
            | inl x ↦ on (rw (t, u, x) at e)
            | inr x ↦
                let same : r.0 ≡ g = cc (rw (t, u, x) at e) in
                stepped f g written a h (
                  subst (Looped r.0 logline (written + r.1)) same
                    (stopped r.0 (written + r.1) fits.0))
          ]
        ]
      ]

  -- With good answers, one for each byte that is left, the loop ends and has written them all.
  pub append_loop_whole :
      (f : AppendFile) (written : ℕ) (answers : List Answer)
      → written ≤ length logline
      → AllGood answers
      → length logline ≤ written + length answers
      → (g : AppendFile) × (append_loop f logline written answers ≡ some g)
        × (g.file ≡ f.file ++ drop written logline)
  unfolding append_loop
  append_loop_whole f written [] h good enough = (
    f,
    rw ((==_iff written (length logline)).1 (omega arith)),
    rw (drop-all written logline (omega arith)) (sym (append-nil f.file)),
  )
  append_loop_whole f written (a ∷ answers) h good enough =
      let r = write f (drop written logline) a in
      let fits = step-within f written a h in
      elim (Bool-cases (written == length logline)) [
        | inl t ↦ (f, rw t, rw (drop-all written logline (ground arith)) (sym (append-nil f.file)))
        | inr t ↦
            let w =
              append_loop_whole r.0 (written + r.1) answers fits.0 good.2
                (ground (arith, fits.1)) in
            (w.0, returned w.0 t w.1, w.2 ∙ joined r.1)
      ]
    where
      joined :
          (n : ℕ)
          → (f.file ++ take n (drop written logline)) ++ drop (written + n) logline
            ≡ f.file ++ drop written logline
      joined n =
          append_assoc f.file _ _
          ∙ ap (λ t. f.file ++ t)
              (ap (λ t. take n (drop written logline) ++ t) (sym (drop-drop written n logline))
                ∙ take-append-drop n (drop written logline))

      returned :
          (g : AppendFile)
          → (written == length logline) ≡ false
          → append_loop
              (write f (drop written logline) a).0
              logline
              (written + (write f (drop written logline) a).1)
              answers
            ≡ some g
          → append_loop f logline written (a ∷ answers) ≡ some g
      returned g t e =
          elim (Bool-cases ((write f (drop written logline) a).1 == length logline - written)) [
            | inl u ↦ rw (t, u) e
            | inr u ↦ rw (t, u, (==_iff a.error 0).1 good.1) e
          ]
