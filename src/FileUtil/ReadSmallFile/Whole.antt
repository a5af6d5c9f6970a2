-- ===== src/FileUtil/ReadSmallFile/Whole.antt =====
-- What `readFile` returns.
mod Examples
use multi_thread_log.Common.{
  ℕ, zero, suc, ◌≤◌, ◌<◌, ◌≡◌, ◌≢◌, ◌⊎◌, inl, inr, refl, sym, ap, ◌∙◌, Bool, true, false, Option,
  none, some, List, [], ◌∷◌, ◌>>=◌, if◌then◌else◌, arith, length, take,
}
use multi_thread_log.FileUtil.ReadSmallFile.{
  Answer, failed, Opening, refused, opened, Kind, regular, directory, other, Stat, Statting,
  unknown, known, eisdir, System, Contents, Pointers, make, make_opened, stat_kind, stat_file,
  read_loop, read_to_string, read_file,
}
use multi_thread_log.FileUtil.ReadSmallFile.Loop.{IsRead, FailsAt, HasRead, read_loop-HasRead}

-- The error number and the size after `fstat`, if it is asked.
abbrev pub kind_error : Kind → ℕ
kind_error regular = 0
kind_error directory = eisdir
kind_error other = 0

abbrev pub stat_error : Bool → Statting → ℕ
stat_error false a = 0
stat_error true (unknown e) = e
stat_error true (known s) = kind_error s.st_mode

abbrev pub kind_size : Kind → ℕ → Option ℕ
kind_size regular n = some n
kind_size directory n = none
kind_size other n = none

abbrev pub stat_size : Bool → Statting → Option ℕ
stat_size false a = none
stat_size true (unknown e) = none
stat_size true (known s) = kind_size s.st_mode s.st_size

-- `c` has the beginning of `file`, of at most `max_size` bytes, and all of that unless there is an error; the error is that
-- of the `read` that failed behind what `c` has, or else that of `fstat`.
pub record IsContents (sys : System) (p : Pointers) (max_size : ℕ) (file : List ℕ) (c : Contents)
    : Type 0 where
  pub beginning : c.content ≡ take (length c.content) file
  pub bounded : length c.content ≤ max_size
  pub whole : c.error ≡ 0 → c.content ≡ take max_size file
  pub whole_or_error :
      ((c.content ≡ take max_size file) × (c.error ≡ stat_error p.file_size (sys.fstat file)))
      ⊎ FailsAt sys.read max_size file (length c.content) c.error
  pub size : c.file_size ≡ stat_size p.file_size (sys.fstat file)

-- The file was refused and only the error number is set, or the contents are right.
abbrev pub Outcome : System → Pointers → ℕ → Contents → Opening → Option Contents → Type 0
Outcome sys p max_size old (refused e) r = r ≡ some (record old { error = e })
Outcome sys p max_size old (opened file) r =
    (c : Contents) × (r ≡ some c) × IsContents sys p max_size file c

stat_kind_lem :
    (k : Kind) (s : Stat) (c : Contents)
    → c.error ≡ 0
    → c.file_size ≡ none
    → ((stat_kind k s c).error ≡ kind_error k)
      × ((stat_kind k s c).file_size ≡ kind_size k s.st_size)
unfolding stat_kind
stat_kind_lem regular s c e f = (e, refl)
stat_kind_lem directory s c e f = (refl, f)
stat_kind_lem other s c e f = (e, f)

stat_file_lem :
    (p : Pointers) (wanted : Bool) (a : Statting) (c : Contents)
    → c.error ≡ 0
    → c.file_size ≡ none
    → ((if wanted then stat_file p a c else c).error ≡ stat_error wanted a)
      × ((if wanted then stat_file p a c else c).file_size ≡ stat_size wanted a)
unfolding stat_file
stat_file_lem p false a c e f = (e, f)
stat_file_lem p true (unknown n) c e f = (refl, f)
stat_file_lem p true (known s) c e f =
    stat_kind_lem s.st_mode s
      (record c {
        modify_time = if p.modify_time then some s.st_mtime else c.modify_time;
        create_time = if p.create_time then some s.st_ctime else c.create_time;
      })
      e f

read_to_string-Outcome :
    (sys : System) (p : Pointers) (max_size : ℕ) (old : Contents)
    → IsRead sys.read
    → old.file_size ≡ none
    → (o : Opening)
    → Outcome sys p max_size old o (read_to_string sys p max_size (make_opened o) old)
unfolding read_to_string make_opened
read_to_string-Outcome sys p max_size old ok unset (refused e) = refl
read_to_string-Outcome sys p max_size old ok unset (opened file) =
    let cleared = record old { error = 0; content = [] } in
    let c : Contents = if p.file_size then stat_file p (sys.fstat file) cleared else cleared in
    let found = stat_file_lem p p.file_size (sys.fstat file) cleared refl unset in
    let w =
      read_loop-HasRead sys.read ok max_size file c.error (suc max_size) 0 (omega arith)
        (omega arith) (omega arith) in
    (
      record c { content = w.content; error = w.error },
      ap (λ r. r >>= λ r. some (record c { content = r.0; error = r.1 })) w.returns,
      record {
        beginning = w.beginning;
        bounded = w.bounded;
        whole = all_read w.content w.error c.error w.whole_or_error;
        whole_or_error = with_stat w.content w.error c.error found.0 w.whole_or_error;
        size = found.1;
      },
    )
  where
    all_read :
        (content : List ℕ) (error err : ℕ)
        → ((content ≡ take max_size file) × (error ≡ err))
          ⊎ FailsAt sys.read max_size file (length content) error
        → error ≡ 0
        → content ≡ take max_size file
    all_read content error err (inl w) e = w.0
    all_read content error err (inr w) e = absurd (ok.errors _ _ error w.1 e)

    with_stat :
        (content : List ℕ) (error err : ℕ)
        → err ≡ stat_error p.file_size (sys.fstat file)
        → ((content ≡ take max_size file) × (error ≡ err))
          ⊎ FailsAt sys.read max_size file (length content) error
        → ((content ≡ take max_size file) × (error ≡ stat_error p.file_size (sys.fstat file)))
          ⊎ FailsAt sys.read max_size file (length content) error
    with_stat content error err found (inl w) = inl (w.0, w.1 ∙ found)
    with_stat content error err found (inr w) = inr w

-- `readFile`, with no size known before, of a system whose `read` does what is documented: if the file cannot be opened the
-- error number is returned and nothing else is touched. Otherwise it returns, with the file's beginning, of at most
-- `max_size` bytes: all of that with the error number of `fstat`, 0 if there is none, or, with the error number of a failed
-- `read`, every byte in front of those that it asked for. With 0 nothing is missing.
pub read_file-Outcome :
    (sys : System) (p : Pointers) (filename : List ℕ) (max_size : ℕ) (old : Contents)
    → IsRead sys.read
    → old.file_size ≡ none
    → Outcome sys p max_size old (sys.open_file filename) (read_file sys p filename max_size old)
unfolding read_file make
read_file-Outcome sys p filename max_size old ok unset =
    read_to_string-Outcome sys p max_size old ok unset (sys.open_file filename)
