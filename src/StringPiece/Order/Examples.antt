-- ===== src/StringPiece/Order/Examples.antt =====
-- Pieces of short texts.
use multi_thread_log.Common.{◌≡◌, refl, true, not, some, [], ◌∷◌, ◌++◌, codes, if◌then◌else◌}
use multi_thread_log.Common.Int.{pos, negsuc}
use multi_thread_log.StringPiece.{
  StringPiece, less, less_or_equal, greater_or_equal, greater, compare, compare_bytes, memcmp,
  predicate,
}
use multi_thread_log.StringPiece.Order.{IsPiece, predicate-less_text, compare-less_text}
use multi_thread_log.StringPiece.Texts.{less_text}

abbrev app : StringPiece
app = record { ptr = codes "apple"; size = pos 3 }

abbrev apple : StringPiece
apple = record { ptr = codes "apple" ++ 0 ∷ []; size = pos 5 }

app-IsPiece : IsPiece app (codes "app")
app-IsPiece = record { behind = codes "le"; ptr_is = refl; size_is = refl }

apple-IsPiece : IsPiece apple (codes "apple")
apple-IsPiece = record { behind = 0 ∷ []; ptr_is = refl; size_is = refl }

predicate-less_text_example :
    (less app apple ≡ some (less_text (codes "app") (codes "apple")))
    × (less_or_equal app apple ≡ some (not (less_text (codes "apple") (codes "app"))))
    × (greater_or_equal app apple ≡ some (not (less_text (codes "app") (codes "apple"))))
    × (greater app apple ≡ some (less_text (codes "apple") (codes "app")))
predicate-less_text_example =
    predicate-less_text app apple (codes "app") (codes "apple") app-IsPiece apple-IsPiece

compare-less_text_example :
    compare app app ≡ some (if less_text (codes "app") (codes "app") then negsuc 0 else pos 1)
compare-less_text_example =
    compare-less_text app app (codes "app") (codes "app") app-IsPiece app-IsPiece

compare_runs :
    (compare app app ≡ some (pos 1))
    × (compare app apple ≡ some (negsuc 0))
    × (less app apple ≡ some true)
unfolding compare predicate memcmp compare_bytes
compare_runs = (refl, refl, refl)
