-- ===== src/CurrentThread/StackTrace/Shown.antt =====
-- The lines of a stack trace.
use multi_thread_log.Common.{
  ℕ, ◌+◌, ◌-◌, ◌≡◌, ◌⊎◌, inl, inr, refl, sym, ap, ◌∙◌, Bool, true, false, Option, none, some, List,
  [], ◌∷◌, ◌++◌, append-nil, append_assoc, length, length-append, drop, take-append, drop-append,
  drop-behind, take-behind, arith, lt→ltb,
}
use multi_thread_log.CurrentThread.StackTrace.{
  Marks, mark, scan, mangled, with_name, demangled_line, frame_line, trace_loop, stack_trace,
}
use multi_thread_log.Logging.Source.Basename.{IsFree}

-- How `backtrace_symbols` describes a frame: the object, the function's name and the offset in it, or without them.
pub data Frame : Type 0 where
  symbol : List ℕ → List ℕ → List ℕ → Frame
  bare : List ℕ → Frame

abbrev pub text : Frame → List ℕ
text (symbol object name offset) = object ++ b'(' ∷ (name ++ b'+' ∷ offset)
text (bare s) = s

abbrev pub IsFrame : Frame → Type 0
IsFrame (symbol object name offset) = IsFree b'(' name × IsFree b'(' offset × IsFree b'+' offset
IsFrame (bare s) = IsFree b'(' s ⊎ IsFree b'+' s

abbrev pub AreFrames : List Frame → Type 0
AreFrames [] = Unit
AreFrames (f ∷ fs) = IsFrame f × AreFrames fs

-- What is shown: the name demangled, if that succeeds.
abbrev pub or_mangled : List ℕ → Option (List ℕ) → List ℕ
or_mangled name none = name
or_mangled name (some demangled) = demangled

abbrev pub shown : (List ℕ → Option (List ℕ)) → Frame → List ℕ
shown cxa_demangle (symbol object name offset) =
    object ++ b'(' ∷ (or_mangled name (cxa_demangle name) ++ b'+' ∷ offset)
shown cxa_demangle (bare s) = s

abbrev pub texts : List Frame → List (List ℕ)
texts [] = []
texts (f ∷ fs) = text f ∷ texts fs

abbrev pub lines : (Frame → List ℕ) → List Frame → List ℕ
lines line [] = []
lines line (f ∷ fs) = line f ++ b'\n' ∷ lines line fs

IsFree-append : (c : ℕ) (s t : List ℕ) → IsFree c s → IsFree c t → IsFree c (s ++ t)
IsFree-append c [] t h k = k
IsFree-append c (x ∷ s) t (n, h) k = (n, IsFree-append c s t h k)

left_par-scan :
    (s : List ℕ) (at : ℕ) (m : Marks) → IsFree b'(' s → (scan s at m).left_par ≡ m.left_par
unfolding scan mark
left_par-scan [] at m h = refl
left_par-scan (c ∷ s) at m (n, h) = left_par-scan s (at + 1) (mark c at m) h ∙ ground arith

plus-scan : (s : List ℕ) (at : ℕ) (m : Marks) → IsFree b'+' s → (scan s at m).plus ≡ m.plus
unfolding scan mark
plus-scan [] at m h = refl
plus-scan (c ∷ s) at m (n, h) = plus-scan s (at + 1) (mark c at m) h ∙ ground arith

-- Each pointer ends at the last one of its character.
left_par-last :
    (s t : List ℕ) (at : ℕ) (m : Marks)
    → IsFree b'(' t
    → (scan (s ++ b'(' ∷ t) at m).left_par ≡ some (at + length s)
unfolding scan mark
left_par-last [] t at m h = left_par-scan t (at + 1) (mark b'(' at m) h ∙ ap some (omega arith)
left_par-last (c ∷ s) t at m h = left_par-last s t (at + 1) (mark c at m) h ∙ ap some (omega arith)

plus-last :
    (s t : List ℕ) (at : ℕ) (m : Marks)
    → IsFree b'+' t
    → (scan (s ++ b'+' ∷ t) at m).plus ≡ some (at + length s)
unfolding scan mark
plus-last [] t at m h = plus-scan t (at + 1) (mark b'+' at m) h ∙ ap some (omega arith)
plus-last (c ∷ s) t at m h = plus-last s t (at + 1) (mark c at m) h ∙ ap some (omega arith)

demangled_line-symbol :
    (cxa_demangle : List ℕ → Option (List ℕ)) (object name offset : List ℕ)
    → demangled_line cxa_demangle
        (text (symbol object name offset))
        (some (length object))
        (some (length (object ++ b'(' ∷ name)))
      ≡ shown cxa_demangle (symbol object name offset)
unfolding demangled_line mangled
demangled_line-symbol cxa_demangle object name offset =
    let s = text (symbol object name offset) in
    let lp = length object in
    let plus = length (object ++ b'(' ∷ name) in
    let wide : plus ≡ lp + (length name + 1) = omega (arith, length-append object (b'(' ∷ name)) in
    let size : plus - (lp + 1) ≡ length name = omega (arith, wide) in
    let rest : drop plus s ≡ b'+' ∷ offset =
      ap (drop plus) (sym (append_assoc object (b'(' ∷ name) (b'+' ∷ offset)))
      ∙ drop-append (object ++ b'(' ∷ name) (b'+' ∷ offset) in
    rw
      (
        lt→ltb lp plus (omega (arith, wide)),
        size,
        drop-behind object (name ++ b'+' ∷ offset) b'(',
        take-append name (b'+' ∷ offset),
      )
      (named (cxa_demangle name) rest)
  where
    named :
        (demangled : Option (List ℕ))
        → drop (length (object ++ b'(' ∷ name)) (text (symbol object name offset)) ≡ b'+' ∷ offset
        → with_name
            (text (symbol object name offset))
            (length object)
            (length (object ++ b'(' ∷ name))
            demangled
          ≡ object ++ b'(' ∷ (or_mangled name demangled ++ b'+' ∷ offset)
    named none rest = refl
    named (some d) rest =
        rw (take-behind object (name ++ b'+' ∷ offset) b'(', rest)
          (append_assoc object (b'(' ∷ []) (d ++ b'+' ∷ offset))

demangled_line-bare :
    (cxa_demangle : List ℕ → Option (List ℕ)) (s : List ℕ) (left_par plus : Option ℕ)
    → (left_par ≡ none) ⊎ (plus ≡ none)
    → demangled_line cxa_demangle s left_par plus ≡ s
unfolding demangled_line
demangled_line-bare cxa_demangle s (some l) (some p) h = absurd (ground arith)
demangled_line-bare cxa_demangle s (some l) none h = refl
demangled_line-bare cxa_demangle s none (some p) h = refl
demangled_line-bare cxa_demangle s none none h = refl

frame_line-shown :
    (cxa_demangle : List ℕ → Option (List ℕ)) (f : Frame)
    → IsFrame f
    → frame_line cxa_demangle true (text f) ≡ shown cxa_demangle f
unfolding frame_line
frame_line-shown cxa_demangle (bare s) (inl h) =
    demangled_line-bare cxa_demangle s _ _ (inl (left_par-scan s 0 _ h))
frame_line-shown cxa_demangle (bare s) (inr h) =
    demangled_line-bare cxa_demangle s _ _ (inr (plus-scan s 0 _ h))
frame_line-shown cxa_demangle (symbol object name offset) (n, p, q) =
    let nowhere : Marks = record { left_par = none; plus = none } in
    let left : (scan (text (symbol object name offset)) 0 nowhere).left_par ≡ some (length object) =
      left_par-last object (name ++ b'+' ∷ offset) 0 nowhere
        (IsFree-append b'(' name (b'+' ∷ offset) n (ground arith, p))
      ∙ ap some (omega arith) in
    let plus : (scan (text (symbol object name offset)) 0 nowhere).plus
        ≡ some (length (object ++ b'(' ∷ name)) =
      ap (λ s. (scan s 0 nowhere).plus) (sym (append_assoc object (b'(' ∷ name) (b'+' ∷ offset)))
      ∙ plus-last (object ++ b'(' ∷ name) offset 0 nowhere q
      ∙ ap some (omega arith) in
    rw (left, plus) (demangled_line-symbol cxa_demangle object name offset)

trace_loop-lines :
    (cxa_demangle : List ℕ → Option (List ℕ)) (demangle : Bool) (line : Frame → List ℕ)
    (fs : List Frame) (stack : List ℕ)
    → AreFrames fs
    → ((f : Frame) → IsFrame f → frame_line cxa_demangle demangle (text f) ≡ line f)
    → trace_loop cxa_demangle demangle (texts fs) stack ≡ stack ++ lines line fs
unfolding trace_loop
trace_loop-lines cxa_demangle demangle line [] stack h each = sym (append-nil stack)
trace_loop-lines cxa_demangle demangle line (f ∷ fs) stack (h, hs) each =
    trace_loop-lines cxa_demangle demangle line fs _ hs each
    ∙ (append_assoc stack _ (lines line fs)
        ∙ ap (λ r. stack ++ r)
            (append_assoc (frame_line cxa_demangle demangle (text f)) (b'\n' ∷ []) (lines line fs)
              ∙ ap (λ r. r ++ b'\n' ∷ lines line fs) (each f h)))

-- The trace has a line for each frame but that of `stackTrace` itself, in their order. With `demangle` a line is the frame's
-- text with the name of its function demangled, if the demangling succeeds, and otherwise as it is; without `demangle` it is
-- the text. A frame has an object, a name without `(` and an offset without `(` and `+`, or lacks `(` or `+`.
pub stack_trace-shown :
    (cxa_demangle : List ℕ → Option (List ℕ)) (self : List ℕ) (fs : List Frame)
    → AreFrames fs
    → (stack_trace cxa_demangle (some (self ∷ texts fs)) true ≡ lines (shown cxa_demangle) fs)
      × (stack_trace cxa_demangle (some (self ∷ texts fs)) false ≡ lines text fs)
unfolding stack_trace frame_line
stack_trace-shown cxa_demangle self fs h = (
  trace_loop-lines cxa_demangle true (shown cxa_demangle) fs [] h (frame_line-shown cxa_demangle),
  trace_loop-lines cxa_demangle false text fs [] h λ f _. refl,
)
