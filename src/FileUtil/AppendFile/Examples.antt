-- ===== src/FileUtil/AppendFile/Examples.antt =====
-- Calls of `AppendFile::append` at concrete answers.
use multi_thread_log.Common.{ℕ, ◌+◌, ◌≡◌, refl, some, List, [], ◌∷◌, ◌++◌, length, arith, codes}
use multi_thread_log.FileUtil.AppendFile.{Answer, AppendFile, make, append, append_loop, write}
use multi_thread_log.FileUtil.AppendFile.Looping.{AllGood}
use multi_thread_log.FileUtil.AppendFile.Written.{append_whole}

abbrev line : List ℕ
line = codes "line"

-- A short write, then the rest.
abbrev good_answers : List Answer
good_answers =
    record { count = 1; error = 0 }
    ∷ record { count = 9; error = 0 }
    ∷ record { count = 9; error = 0 }
    ∷ record { count = 9; error = 0 }
    ∷ []

good_answers-AllGood : AllGood good_answers
good_answers-AllGood =
    (omega arith, refl, (omega arith, refl, (omega arith, refl, (omega arith, refl, tt))))

append_whole_example :
    (g : AppendFile) × (append make line good_answers ≡ some g)
    × (g.file ≡ [] ++ line)
    × (g.writen_bytes ≡ 0 + length line)
append_whole_example = append_whole make line good_answers good_answers-AllGood (omega arith)

-- An error after two bytes.
abbrev full_disk : Answer
full_disk = record { count = 2; error = 28 }

stopped :
    append make line (full_disk ∷ [])
    ≡ some (record { file = codes "li"; writen_bytes = 4; flushes = 0 })
unfolding append append_loop write
stopped = refl
