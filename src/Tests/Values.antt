-- ===== src/Tests/Values.antt =====
-- Sizes, words and views.
use charport.Prelude.{◌≡◌, ◌↔◌, true, [], ◌∷◌, ◌++◌, arith}
use charport.Interop.{strview_eq}
use charport.Interop.Views.{content, strview_eq_iff}
use charport.Sizes.{next_power_of_two}
use charport.Sizes.Rounding.{IsPowerFor, next_power_of_two-IsPowerFor}
use charport.Words.{little, big, to_bytes, read_u64}
use charport.Words.Laws.{differ, read_u64-to_bytes}
use charport.Tests.Data.{text, hi_view, a_view}

strview_eq_iff_example :
    (strview_eq text hi_view a_view ≡ true) ↔ (content text hi_view ≡ content text a_view)
strview_eq_iff_example = strview_eq_iff text hi_view a_view (omega arith) (omega arith)

next_power_of_two_example : IsPowerFor 100 (next_power_of_two 100)
next_power_of_two_example = next_power_of_two-IsPowerFor 100 (omega arith) (omega arith)

read_u64_example : read_u64 little (to_bytes big 8 258 ++ 7 ∷ []) (differ big little) ≡ 258
read_u64_example = read_u64-to_bytes little big 258 (7 ∷ []) (omega arith)
