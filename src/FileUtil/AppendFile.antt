-- ===== src/FileUtil/AppendFile.antt =====
-- `AppendFile`. What `fwrite_unlocked` and `ferror` answer is the environment's choice: a list of
-- answers, one for each call, each with the number of bytes taken and the error state after it.
pub mod Looping
pub mod Written
mod Examples
use multi_thread_log.Common.{
  ℕ, ◌+◌, ◌-◌, ◌≡◌, Bool, true, false, Option, none, some, List, [], ◌∷◌, ◌++◌, ◌==◌, if◌then◌else◌,
  ◌>>=◌, length, take, drop, min,
}

pub record Answer : Type 0 where
  pub count : ℕ
  pub error : ℕ

-- `file` is what the stream has taken since it was opened, behind what the file held before, with the
-- bytes that are still in the stream's buffer; `flushes` counts the calls of `fflush`.
pub record AppendFile : Type 0 where
  pub file : List ℕ
  pub writen_bytes : ℕ
  pub flushes : ℕ

-- The constructor, for a file that can be opened.
abbrev pub make : AppendFile
make = record { file = []; writen_bytes = 0; flushes = 0 }

-- `fwrite` takes no more than it is given.
unfoldable pub write : AppendFile → List ℕ → Answer → AppendFile × ℕ
write f bytes a =
    let n = min a.count (length bytes) in (record f { file = f.file ++ take n bytes }, n)

-- The loop of `append`, from `written` bytes of `logline` on. A round ends the loop if the bytes that
-- are left were taken, or if the stream has an error. `none`: the answers ran out.
unfoldable pub append_loop : AppendFile → List ℕ → ℕ → List Answer → Option AppendFile
unfolding write
append_loop f logline written [] = if written == length logline then some f else none
append_loop f logline written (a ∷ answers) =
    let r = write f (drop written logline) a in
    let next = append_loop r.0 logline (written + r.1) answers in
    if written == length logline
    then some f
    else if r.1 == length logline - written
    then next
    else if a.error == 0
    then next
    else some r.0

-- `append` counts the bytes that it was given, also when some were not written.
unfoldable pub append : AppendFile → List ℕ → List Answer → Option AppendFile
unfolding append_loop
append f logline answers = do
  g ← append_loop f logline 0 answers
  some (record g { writen_bytes = g.writen_bytes + length logline })

unfoldable pub flush : AppendFile → AppendFile
flush f = record f { flushes = f.flushes + 1 }
