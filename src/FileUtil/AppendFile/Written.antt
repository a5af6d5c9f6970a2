-- ===== src/FileUtil/AppendFile/Written.antt =====
-- What `AppendFile::append` puts into the file, and what it counts.
use multi_thread_log.Common.{
  ℕ, ◌+◌, ◌-◌, ◌≤◌, ◌<◌, ◌≡◌, ◌≢◌, inl, inr, refl, ap, subst, some, List, ◌∷◌, ◌++◌, length, take,
  min, arith, Option-cases, ne→==,
}
use multi_thread_log.FileUtil.AppendFile.{Answer, AppendFile, write, append_loop, append}
use multi_thread_log.FileUtil.AppendFile.Looping.{AllGood, append_loop-Looped, append_loop_whole}

-- A call that returns has put a prefix of `logline` behind what was written before, and counts
-- all of `logline`.
pub append_prefix :
    (f g : AppendFile) (logline : List ℕ) (answers : List Answer)
    → append f logline answers ≡ some g
    → (n : ℕ) × (n ≤ length logline)
      × (g.file ≡ f.file ++ take n logline)
      × (g.writen_bytes ≡ f.writen_bytes + length logline)
      × (g.flushes ≡ f.flushes)
unfolding append
append_prefix f g logline answers e = elim (Option-cases (append_loop f logline 0 answers)) [
  | inl n ↦ absurd (cc (rw n at e))
  | inr (h, q) ↦
      let w = append_loop-Looped logline f h 0 answers (omega arith) q in
      let same : record h { writen_bytes = h.writen_bytes + length logline } ≡ g = cc (rw q at e) in
      subst
        (λ x.
          (n : ℕ) × (n ≤ length logline)
          × (x.file ≡ f.file ++ take n logline)
          × (x.writen_bytes ≡ f.writen_bytes + length logline)
          × (x.flushes ≡ f.flushes))
        same
        (
          w.taken,
          omega (arith, w.within),
          w.content,
          ap (λ k. k + length logline) w.count_same,
          w.flushes_same,
        )
]

-- If no call of `fwrite` fails and each takes something, at most as many calls as there are bytes put
-- all of `logline` into the file, and all of it is counted.
pub append_whole :
    (f : AppendFile) (logline : List ℕ) (answers : List Answer)
    → AllGood answers
    → length logline ≤ length answers
    → (g : AppendFile) × (append f logline answers ≡ some g)
      × (g.file ≡ f.file ++ logline)
      × (g.writen_bytes ≡ f.writen_bytes + length logline)
unfolding append
append_whole f logline answers good enough =
    let w = append_loop_whole logline f 0 answers (omega arith) good (omega arith) in
    let l = append_loop-Looped logline f w.0 0 answers (omega arith) w.1 in
    (
      record (w.0) { writen_bytes = (w.0).writen_bytes + length logline },
      rw w.1,
      w.2,
      ap (λ k. k + length logline) l.count_same,
    )

-- If the first call of `fwrite` takes fewer bytes than `logline` has and leaves an error, only those are in the
-- file, but all of `logline` is counted.
pub append_miscounts :
    (f : AppendFile) (logline : List ℕ) (a : Answer) (answers : List Answer)
    → a.count < length logline
    → a.error ≢ 0
    → (g : AppendFile) × (append f logline (a ∷ answers) ≡ some g)
      × (g.file ≡ f.file ++ take a.count logline)
      × (g.writen_bytes ≡ f.writen_bytes + length logline)
unfolding append append_loop write
append_miscounts f logline a answers h bad =
    let few : min a.count (length logline) ≡ a.count = omega arith in
    (
      record {
        file = f.file ++ take a.count logline;
        writen_bytes = f.writen_bytes + length logline;
        flushes = f.flushes;
      },
      rw (
        few,
        ne→== 0 (length logline) (omega arith),
        ne→== a.count (length logline - 0) (omega arith),
        ne→== a.error 0 bad,
      ),
      refl,
      refl,
    )
