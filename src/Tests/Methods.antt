-- ===== src/Tests/Methods.antt =====
-- The ALTREP methods of a charpack.
use charport.Prelude.{
  ℕ, ◌+◌, ◌*◌, ◌≤◌, ◌≡◌, ◌≢◌, ◌↔◌, false, true, List, [], ◌∷◌, length, All, arith, ok, some,
  collect, ◌>>=◌, refl, get_or,
}
use charport.Interop.{cetype_na, na_integer}
use charport.Words.{big}
use charport.Charpack.Layout.{offset_bytes, needs_wide}
use charport.Charpack.Encode.{encode, total}
use charport.Charpack.Access.{rec_at}
use charport.Charpack.Fill.{filled, materialized}
use charport.Charpack.State.Trip.{charsxp_of}
use charport.Charpack.Methods.{elt, no_na, extract_subset, ints, selected_int}
use charport.Charpack.Methods.Strings.{elt-encode, no_na_iff}
use charport.Charpack.Methods.Subset.{selection, extract_subset-encode}
use charport.Tests.Data.{three, three-Fits, test_strings, xlen_max, served}

elt-encode_example :
    (elt test_strings big true (filled (encode big false three)) 2 ≡ (
      collect (charsxp_of test_strings) three >>= λ xs.
      ok (get_or xs 2 test_strings.na_string, materialized xs)))
    × ((xs : List test_strings.Charsxp)
        → collect (charsxp_of test_strings) three ≡ ok xs
        → charsxp_of test_strings (rec_at three 2) ≡ ok (get_or xs 2 test_strings.na_string))
elt-encode_example = elt-encode test_strings big true false three 2 three-Fits (omega arith)

no_na_iff_example :
    (no_na test_strings big true (filled (encode big false three)) ≡ 1)
    ↔ All (λ q. q.tag ≢ cetype_na) three
no_na_iff_example = no_na_iff test_strings big true false three three-Fits

-- The third record, the first, and NA twice.
abbrev picks : List ℕ
picks = 3 ∷ 1 ∷ na_integer ∷ 9 ∷ []

picks_small :
    8
      + length picks
        * (offset_bytes (needs_wide (total (selection big false three three-Fits picks))) + 1)
      + total (selection big false three three-Fits picks)
    ≤ xlen_max
unfolding selected_int needs_wide
picks_small = omega arith

extract_subset-encode_example :
    extract_subset {C = ℕ} big xlen_max served (filled (encode big false three)) (ints picks)
    ≡ ok (
        some (
          filled (
            encode big
              (needs_wide (total (selection big false three three-Fits picks)))
              (selection big false three three-Fits picks))))
extract_subset-encode_example =
    extract_subset-encode big false three three-Fits xlen_max served picks (omega arith)
      (omega arith) picks_small (λ size. refl)
