-- ===== src/CurrentThread/StackTrace/Examples.antt =====
-- A stack trace.
use multi_thread_log.Common.{
  refl, Option, none, length, ◌==◌, if◌then◌else◌, ℕ, ◌≡◌, inl, true, false, some, List, [], ◌∷◌,
  codes, arith,
}
use multi_thread_log.CurrentThread.StackTrace.{stack_trace}
use multi_thread_log.CurrentThread.StackTrace.Shown.{
  Frame, symbol, bare, texts, text, shown, lines, stack_trace-shown,
}

unfoldable example_demangle : List ℕ → Option (List ℕ)
example_demangle s = if length s == 14 then some (codes "Bar::test()") else none

stack_trace_runs :
    stack_trace example_demangle
      (some (codes "self" ∷ codes "bin(_ZN3Bar4testEv+0x79) [0x40]" ∷ codes "bin(main+0x1)" ∷ []))
      true
    ≡ codes "bin(Bar::test()+0x79) [0x40]\nbin(main+0x1)\n"
unfolding stack_trace example_demangle
stack_trace_runs = refl

abbrev frames : List Frame
frames =
    symbol (codes "bin") (codes "_ZN3Bar4testEv") (codes "0x79) [0x40]")
    ∷ (symbol (codes "bin") (codes "main") (codes "0x1)") ∷ (bare (codes "[0x7f]") ∷ []))

stack_trace-shown_example :
    (stack_trace example_demangle (some (codes "self" ∷ texts frames)) true
      ≡ lines (shown example_demangle) frames)
    × (stack_trace example_demangle (some (codes "self" ∷ texts frames)) false ≡ lines text frames)
stack_trace-shown_example =
    stack_trace-shown example_demangle (codes "self") frames
      (ground arith, (ground arith, (inl (ground arith), tt)))
