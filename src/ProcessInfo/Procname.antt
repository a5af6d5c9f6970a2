-- ===== src/ProcessInfo/Procname.antt =====
-- The name of the program.
use multi_thread_log.Common.{
  ℕ, ◌+◌, ◌-◌, ◌≡◌, refl, sym, ap, ◌∙◌, some, List, ◌∷◌, ◌++◌, arith, length, length-append,
  append_assoc, lt→ltb, le→leb, take-append, drop-behind,
}
use multi_thread_log.Logging.Source.Basename.{IsFree}
use multi_thread_log.ProcessInfo.{between, procname_of, rfind_char}
use multi_thread_log.ProcessInfo.Find.{find_char-IsFree, rfind_char-IsFree}
use multi_thread_log.StringPiece.{as_string}

-- What stands in /proc/self/stat is a number, the name in parentheses and more: whatever the name is, also with
-- parentheses in it, it is found, if there is no `(` before and no `)` after.
pub procname_of-IsFree :
    (before name after : List ℕ)
    → IsFree b'(' before
    → IsFree b')' after
    → as_string (procname_of (before ++ b'(' ∷ (name ++ b')' ∷ after))) ≡ some name
unfolding procname_of between as_string
procname_of-IsFree before name after h k =
    let stat = before ++ b'(' ∷ (name ++ b')' ∷ after) in
    let lp = length before in
    let rp = length (before ++ b'(' ∷ name) in
    let wide : rp ≡ lp + (length name + 1) = omega (arith, length-append before (b'(' ∷ name)) in
    let found : rfind_char b')' stat ≡ some rp =
      ap (rfind_char b')') (sym (append_assoc before (b'(' ∷ name) (b')' ∷ after)))
      ∙ rfind_char-IsFree b')' (before ++ b'(' ∷ name) after k in
    let size : rp - lp - 1 ≡ length name = omega (arith, wide) in
    rw
      (
        find_char-IsFree b'(' before (name ++ b')' ∷ after) h,
        found,
        lt→ltb lp rp (omega (arith, wide)),
        size,
        drop-behind before (name ++ b')' ∷ after) b'(',
      )
      (rw
        (
          le→leb (length name) (length (name ++ b')' ∷ after))
              (omega (arith, length-append name (b')' ∷ after))),
          take-append name (b')' ∷ after),
        )
        refl)
