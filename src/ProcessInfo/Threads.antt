-- ===== src/ProcessInfo/Threads.antt =====
-- The threads and the open files of the process, as its directories list them.
use multi_thread_log.Common.{
  ℕ, ◌+◌, ◌≡◌, refl, sym, ap, ◌∙◌, true, false, some, List, [], ◌∷◌, ◌++◌, append-nil, append_assoc,
  arith, codes, length, drop, Bool-cases, inl, inr,
}
use mathlib.Core.List.{Perm}
use mathlib.Core.List.Perm
use native.Mathlib.Nat.{suc-add}
use multi_thread_log.Common.Decimal.{decimal}
use multi_thread_log.Common.Int.{ℤ, pos, ◌≤ℤ◌, ltb_ℤ}
use multi_thread_log.ProcessInfo.{
  Process, starts_with, find_text, fd_dir_filter, task_dir_filter, scan_dir, opened_files, insert,
  sort, threads, threads_line, num_threads_of,
}
use multi_thread_log.Common.Atoi.{starts_with_digit, atoi}
use multi_thread_log.Common.Atoi.Numbers.{starts_with_digit-decimal, atoi-decimal, IsBlank, IsEnd}

-- A directory lists the numbers `ids`, and names that begin with no digit.
pub data IsListing : List ℕ → List (List ℕ) → Type 0 where
  nothing : IsListing [] []
  number :
      (n : ℕ) (ids : List ℕ) (names : List (List ℕ))
      → IsListing ids names
      → IsListing (n ∷ ids) (decimal n ∷ names)
  other :
      (name ids : List ℕ) (names : List (List ℕ))
      → starts_with_digit name ≡ false
      → IsListing ids names
      → IsListing ids (name ∷ names)

abbrev pub pids_of : List ℕ → List ℤ
pids_of [] = []
pids_of (n ∷ ids) = pos n ∷ pids_of ids

number_name : (n : ℕ) → starts_with_digit (decimal n) ≡ true
number_name n = ap starts_with_digit (sym (append-nil (decimal n))) ∙ starts_with_digit-decimal n []

number_value : (n : ℕ) → atoi (decimal n) ≡ pos n
number_value n = ap atoi (sym (append-nil (decimal n))) ∙ atoi-decimal [] n [] tt refl

scan_dir-task :
    (ids : List ℕ) (names : List (List ℕ)) (acc : List ℤ)
    → IsListing ids names
    → scan_dir task_dir_filter acc names ≡ acc ++ pids_of ids
unfolding scan_dir task_dir_filter
scan_dir-task ids names acc nothing = sym (append-nil acc)
scan_dir-task ids names acc (number n ids' names' l) =
    rw (number_name n, number_value n)
      (scan_dir-task ids' names' (acc ++ pos n ∷ []) l
        ∙ append_assoc acc (pos n ∷ []) (pids_of ids'))
scan_dir-task ids names acc (other name ids' names' e l) = rw e (scan_dir-task ids' names' acc l)

scan_dir-fd :
    (ids : List ℕ) (names : List (List ℕ)) (acc : ℕ)
    → IsListing ids names
    → scan_dir fd_dir_filter acc names ≡ acc + length ids
unfolding scan_dir fd_dir_filter
scan_dir-fd ids names acc nothing = omega arith
scan_dir-fd ids names acc (number n ids' names' l) =
    rw (number_name n) (omega (arith, scan_dir-fd ids' names' (acc + 1) l))
scan_dir-fd ids names acc (other name ids' names' e l) = rw e (scan_dir-fd ids' names' acc l)

-- In ascending order.
abbrev pub IsAbove : ℤ → List ℤ → Type 0
IsAbove x [] = Unit
IsAbove x (y ∷ ys) = (x ≤ℤ y) × IsAbove x ys

abbrev pub IsSorted : List ℤ → Type 0
IsSorted [] = Unit
IsSorted (x ∷ xs) = IsAbove x xs × IsSorted xs

IsAbove-trans : (x y : ℤ) (zs : List ℤ) → x ≤ℤ y → IsAbove y zs → IsAbove x zs
IsAbove-trans x y [] h k = tt
IsAbove-trans x y (z ∷ zs) h k = (omega (arith, k.0), IsAbove-trans x y zs h k.1)

IsAbove-insert : (y x : ℤ) (zs : List ℤ) → y ≤ℤ x → IsAbove y zs → IsAbove y (insert x zs)
unfolding insert
IsAbove-insert y x [] h k = (h, tt)
IsAbove-insert y x (z ∷ zs) h k = elim (Bool-cases (ltb_ℤ z x)) [
  | inl e ↦ rw e (k.0, IsAbove-insert y x zs h k.1)
  | inr e ↦ rw e (h, k)
]

IsSorted-insert : (x : ℤ) (ys : List ℤ) → IsSorted ys → IsSorted (insert x ys)
unfolding insert
IsSorted-insert x [] h = (tt, tt)
IsSorted-insert x (y ∷ ys) h = elim (Bool-cases (ltb_ℤ y x)) [
  | inl e ↦ rw e (IsAbove-insert y x ys (below e) h.0, IsSorted-insert x ys h.1)
  | inr e ↦ rw e ((not_below e, IsAbove-trans x y ys (not_below e) h.0), h)
]
  where
    below : ltb_ℤ y x ≡ true → y ≤ℤ x
    below e = ground arith

    not_below : ltb_ℤ y x ≡ false → x ≤ℤ y
    not_below e = ground arith

Perm-insert : (x : ℤ) (ys : List ℤ) → Perm (insert x ys) (x ∷ ys)
unfolding insert
Perm-insert x [] = Perm.rfl
Perm-insert x (y ∷ ys) = elim (Bool-cases (ltb_ℤ y x)) [
  | inl e ↦ rw e (Perm.trans (Perm.cons y (Perm-insert x ys)) (Perm.swap x y ys))
  | inr e ↦ rw e Perm.rfl
]

IsSorted-sort : (xs : List ℤ) → IsSorted (sort xs) × Perm (sort xs) xs
unfolding sort
IsSorted-sort [] = (tt, Perm.rfl)
IsSorted-sort (x ∷ xs) =
    let w = IsSorted-sort xs in
    (IsSorted-insert x (sort xs) w.0, Perm.trans (Perm-insert x (sort xs)) (Perm.cons x w.1))

-- Where the directory of the tasks lists the numbers `ids` in any order, that of the descriptors the
-- numbers `fds`, and neither another name that begins with a digit: `threads` returns the numbers
-- `ids` in ascending order, and `openedFiles` returns how many `fds` there are.
pub threads-IsSorted :
    (p : Process) (ids fds : List ℕ)
    → IsListing ids (p.directory (codes "/proc/self/task"))
    → IsListing fds (p.directory (codes "/proc/self/fd"))
    → IsSorted (threads p) × Perm (threads p) (pids_of ids) × (opened_files p ≡ length fds)
unfolding threads opened_files
threads-IsSorted p ids fds h k =
    let s = IsSorted-sort (pids_of ids) in
    let tasks = scan_dir-task ids (p.directory (codes "/proc/self/task")) [] h in
    let files = scan_dir-fd fds (p.directory (codes "/proc/self/fd")) 0 k in
    rw tasks (s.0, s.1, omega (arith, files))

-- The pattern does not stand anywhere before `after`.
abbrev pub IsFirst : List ℕ → List ℕ → List ℕ → Type 0
IsFirst text [] after = starts_with text after ≡ true
IsFirst text (c ∷ before) after =
    (starts_with text (c ∷ (before ++ after)) ≡ false) × IsFirst text before after

find_text-IsFirst :
    (text before after : List ℕ)
    → IsFirst text before after
    → find_text text (before ++ after) ≡ some (length before)
unfolding find_text
find_text-IsFirst text [] [] h = rw h refl
find_text-IsFirst text [] (c ∷ after) h = rw h refl
find_text-IsFirst text (c ∷ before) after h = rw (h.0, find_text-IsFirst text before after h.1) refl

drop_behind : (n : ℕ) (s t : List ℕ) → drop (length s + n) (s ++ t) ≡ drop n t
drop_behind n [] t = ap (λ m. drop m t) (omega arith)
drop_behind n (x ∷ s) t = rw suc-add (drop_behind n s t)

-- Where the first `Threads:` of the status is followed by blanks, the notation of a number and no digit, `numThreads`
-- returns that number.
num_threads_of-decimal :
    (before blanks : List ℕ) (n : ℕ) (rest : List ℕ)
    → IsFirst (codes "Threads:") before (codes "Threads:" ++ (blanks ++ (decimal n ++ rest)))
    → IsBlank blanks
    → IsEnd rest
    → num_threads_of (before ++ (codes "Threads:" ++ (blanks ++ (decimal n ++ rest)))) ≡ pos n
unfolding num_threads_of threads_line
num_threads_of-decimal before blanks n rest h b e =
    rw
      (
        find_text-IsFirst (codes "Threads:") before _ h,
        drop_behind 8 before (codes "Threads:" ++ (blanks ++ (decimal n ++ rest))),
      )
      (atoi-decimal blanks n rest b e)
