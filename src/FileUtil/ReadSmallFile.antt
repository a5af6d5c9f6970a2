-- ===== src/FileUtil/ReadSmallFile.antt =====
-- `ReadSmallFile` and `readFile`: the beginning of a file in memory. A file is given by what stands in it from the
-- descriptor's offset on; what the system answers is a parameter.
pub mod Loop
pub mod Whole
use multi_thread_log.Common.{
  ℕ, zero, suc, ◌+◌, ◌-◌, ◌*◌, ◌≤◌, ◌<◌, ◌≡◌, min, Bool, true, false, Option, none, some, List, [],
  ◌∷◌, ◌++◌, ltb, ◌==◌, if◌then◌else◌, ◌>>=◌, length, take, drop,
}

abbrev pub k_buffer_size : ℕ
k_buffer_size = 64 * 1024

-- The answer to `read` and `pread`: an error number, or how many bytes are now in the buffer.
pub data Answer : Type 0 where
  failed : ℕ → Answer
  count : ℕ → Answer

-- The answer to `open`: an error number, or the file.
pub data Opening : Type 0 where
  refused : ℕ → Opening
  opened : List ℕ → Opening

pub data Kind : Type 0 where
  regular directory other : Kind

-- `struct stat`, and the answer to `fstat`.
pub record Stat : Type 0 where
  pub st_mode : Kind
  pub st_size : ℕ
  pub st_mtime : ℕ
  pub st_ctime : ℕ

pub data Statting : Type 0 where
  unknown : ℕ → Statting
  known : Stat → Statting

-- The error number EISDIR.
abbrev pub eisdir : ℕ
eisdir = 21

pub record System : Type 0 where
  pub open_file : List ℕ → Opening
  pub fstat : List ℕ → Statting
  -- From the offset, the number of bytes asked for.
  pub pread : List ℕ → ℕ → Answer
  pub read : List ℕ → ℕ → Answer

-- `file` is the file that `fd_` refers to; without one `fd_` is negative.
pub record ReadSmallFile : Type 0 where
  pub file : Option (List ℕ)
  pub err : ℕ

-- The constructor.
unfoldable pub make_opened : Opening → ReadSmallFile
make_opened (refused e) = record { file = none; err = e }
make_opened (opened file) = record { file = some file; err = 0 }

unfoldable pub make : System → List ℕ → ReadSmallFile
unfolding make_opened
make sys filename = make_opened (sys.open_file filename)

-- `readToBuffer`, which asks for one byte less than the buffer holds: the error number, and the bytes in the buffer
-- before the terminator, as many as `*size` says, unless the call failed.
buffered : List ℕ → ℕ → Answer → ℕ × Option (List ℕ)
buffered file err (failed e) = (e, none)
buffered file err (count n) = (err, some (take n file))

unfoldable pub read_to_buffer : System → ReadSmallFile → ℕ × Option (List ℕ)
unfolding buffered
read_to_buffer sys f = elim f.file [
  | none ↦ (f.err, none)
  | some file ↦ buffered file f.err (sys.pread file (k_buffer_size - 1))
]

-- What `readToString` does with the answer to a `read`: it stops at an error and at the end of the file.
unfoldable pub on_read : Answer → List ℕ → ℕ → (ℕ → Option (List ℕ × ℕ)) → Option (List ℕ × ℕ)
on_read (failed e) content err next = some (content, e)
on_read (count zero) content err next = some (content, err)
on_read (count (suc n)) content err next = next (suc n)

-- The loop of `readToString`, from the content so far and the rest of the file: the content and the error number. `none`
-- is that there is not enough fuel.
unfoldable pub read_loop : (List ℕ → ℕ → Answer) → ℕ → ℕ → List ℕ → List ℕ → ℕ → Option (List ℕ × ℕ)
unfolding on_read
read_loop read zero max_size content rest err = none
read_loop read (suc fuel) max_size content rest err =
    if ltb (length content) max_size
    then on_read (read rest (min (max_size - length content) k_buffer_size)) content err
        (λ n. read_loop read fuel max_size (content ++ take n rest) (drop n rest) err)
    else some (content, err)

-- What `readToString` leaves at its pointers: the content, and the size and the times if it found them out.
pub record Contents : Type 0 where
  pub error : ℕ
  pub content : List ℕ
  pub file_size : Option ℕ
  pub modify_time : Option ℕ
  pub create_time : Option ℕ

-- The first part of `readToString`.
unfoldable pub stat_kind : Kind → Stat → Contents → Contents
stat_kind regular s c = record c { file_size = some s.st_size }
stat_kind directory s c = record c { error = eisdir }
stat_kind other s c = c

-- Which of the pointers for the size and the times are not null.
pub record Pointers : Type 0 where
  pub file_size : Bool
  pub modify_time : Bool
  pub create_time : Bool

unfoldable pub stat_file : Pointers → Statting → Contents → Contents
unfolding stat_kind
stat_file p (unknown e) c = record c { error = e }
stat_file p (known s) c = stat_kind s.st_mode s (record c {
  modify_time = if p.modify_time then some s.st_mtime else c.modify_time;
  create_time = if p.create_time then some s.st_ctime else c.create_time;
})

-- `readToString`, for `old` at its pointers; without the pointer for the size `fstat` is not
-- called.
unfoldable pub read_to_string : System → Pointers → ℕ → ReadSmallFile → Contents → Option Contents
unfolding read_loop stat_file
read_to_string sys p max_size f old = elim f.file [
  | none ↦ some (record old { error = f.err })
  | some file ↦
      let cleared = record old { error = f.err; content = [] } in
      let c = if p.file_size then stat_file p (sys.fstat file) cleared else cleared in
      (read_loop sys.read (suc max_size) max_size [] file c.error >>= λ r.
      some (record c { content = r.0; error = r.1 }))
]

unfoldable pub read_file : System → Pointers → List ℕ → ℕ → Contents → Option Contents
unfolding make read_to_string
read_file sys p filename max_size old = read_to_string sys p max_size (make sys filename) old
