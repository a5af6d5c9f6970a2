-- ===== src/CurrentThread/StackTrace.antt =====
-- `stackTrace` of CurrentThread.cc. The frames that `backtrace_symbols` describes and the demangling of the compiler's library
-- are parameters: `none` where they fail. The text of a frame has no zero byte.
pub mod Shown
mod Examples
use multi_thread_log.Common.{
  ℕ, ◌+◌, ◌-◌, ◌≡◌, refl, Bool, true, false, Option, none, some, List, [], ◌∷◌, ◌++◌, ltb, ◌==◌,
  if◌then◌else◌, length, take, drop, codes,
}

-- Where the pointers `left_par` and `plus` stand; `none` is a null pointer.
pub record Marks : Type 0 where
  pub left_par : Option ℕ
  pub plus : Option ℕ

-- The loop over the text of a frame, from `at` on.
unfoldable pub mark : ℕ → ℕ → Marks → Marks
mark c at m =
    if c == b'('
    then record m { left_par = some at }
    else if c == b'+'
    then record m { plus = some at }
    else m

unfoldable pub scan : List ℕ → ℕ → Marks → Marks
unfolding mark
scan [] at m = m
scan (c ∷ s) at m = scan s (at + 1) (mark c at m)

-- What stands behind `left_par` while the byte at `plus` is a terminator.
unfoldable pub mangled : List ℕ → ℕ → ℕ → List ℕ
mangled s left_par plus =
    if ltb left_par plus
    then take (plus - (left_par + 1)) (drop (left_par + 1) s)
    else drop (left_par + 1) s

unfoldable pub with_name : List ℕ → ℕ → ℕ → Option (List ℕ) → List ℕ
with_name s left_par plus none = s
with_name s left_par plus (some demangled) = take (left_par + 1) s ++ (demangled ++ drop plus s)

-- Both have to be found, and the demangling to succeed.
unfoldable pub demangled_line : (List ℕ → Option (List ℕ)) → List ℕ → Option ℕ → Option ℕ → List ℕ
unfolding with_name mangled
demangled_line cxa_demangle s (some left_par) (some plus) =
    with_name s left_par plus (cxa_demangle (mangled s left_par plus))
demangled_line cxa_demangle s (some left_par) none = s
demangled_line cxa_demangle s none plus = s

-- The line of a frame.
unfoldable pub frame_line : (List ℕ → Option (List ℕ)) → Bool → List ℕ → List ℕ
unfolding scan demangled_line
frame_line cxa_demangle demangle s =
    let m = scan s 0 (record { left_par = none; plus = none }) in
    if demangle then demangled_line cxa_demangle s m.left_par m.plus else s

-- The loop over the frames.
unfoldable pub trace_loop : (List ℕ → Option (List ℕ)) → Bool → List (List ℕ) → List ℕ → List ℕ
unfolding frame_line
trace_loop cxa_demangle demangle [] stack = stack
trace_loop cxa_demangle demangle (s ∷ strings) stack =
    trace_loop cxa_demangle demangle strings
      (stack ++ (frame_line cxa_demangle demangle s ++ b'\n' ∷ []))

-- The 0-th frame is that of the function itself.
unfoldable pub stack_trace : (List ℕ → Option (List ℕ)) → Option (List (List ℕ)) → Bool → List ℕ
unfolding trace_loop
stack_trace cxa_demangle none demangle = []
stack_trace cxa_demangle (some []) demangle = []
stack_trace cxa_demangle (some (self ∷ strings)) demangle =
    trace_loop cxa_demangle demangle strings []
