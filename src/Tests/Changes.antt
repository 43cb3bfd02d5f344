-- ===== src/Tests/Changes.antt =====
-- A store of one string, changed and rebuilt, and a vector over it.
use charport.Charvec.Vector.Elements.{string_set_elt-IsCoherent}
use charport.Charvec.Assign.Correct.{store_assign-Updated}
use charport.Charvec.Rebuild.Strings.{rebuild_store-strings}
use charport.Interop.Views.{content}
use charport.Sizes.{check_r_string_len_int, check_r_string_len}
use charport.Tests.Data.{text, test_strings, a_view}
use charport.Charvec.Fill.Whole.{strings_of, Given}
use charport.Charvec.Rebuild.{rebuild_store, rebuild_loop, rebuild_block, measure, fill_block}
use charport.Charsxp.{charsxp_to_view, make_charsxp, classify_charsxp, to_base_encoding, ce_native}
use charport.Charvec.Vector.{
  materialize, live, Cache, string_set_elt, cache_put, chunk_len, chunk_size,
}
use charport.Charvec.Vector.Materialized.{IsShaped, materialize-strings}
use charport.Charvec.Vector.Coherence.{cached, in_chunk, IsCoherent, charsxp_of_str}
use charport.Charvec.Assign.{store_assign, with_row, store_reserve, place_row, moved}
use charport.Charvec.Store.{
  Store, table_size, new_store, new_table, checked_string_size, set_row, push_front, front_data,
}
use charport.Memory.{Mem, write, store_byte, at, read}
use charport.Interop.{strview_is_na, make_strview, cetype_ascii, cetype_utf8}
use charport.Charvec.Assign.Owned.{IsOwned, row_at, Apart, Updated, IsValue}
use charport.Prelude.{
  suc, ℕ, ◌<◌, ◌≢◌, ◌∷◌, ◌≡◌, [], map, some, Bool, none, false, arith, ok, inl, length, refl, ◌==◌,
  zero, List, ◌*◌, ◌/◌, Option, ◌+◌, ◌%◌, get_or, ◌∙◌, ap, collect,
}
use charport.Tests.Builders.{allocator, low}
use charport.Tests.Stores.{one_store, hi_string, hi_Given}

one_Given : (i : ℕ) → Given text (row_at one_store i)
one_Given zero = hi_Given
one_Given (suc i) = tt

one-Apart : (i j : ℕ) → i ≢ j → Apart (row_at one_store i) (row_at one_store j)
one-Apart zero zero ne = absurd (ne refl)
one-Apart zero (suc j) ne = tt
one-Apart (suc i) j ne = tt

one_IsOwned : IsOwned text one_store
one_IsOwned = record { low = low; given = one_Given; apart = one-Apart }

a_IsValue : IsValue text a_view
unfolding strview_is_na write store_byte
a_IsValue = record { given = (omega arith, omega arith, inl (λ e. omega arith)); tagged = refl }

-- "a" in the place of "hi".
abbrev overwritten : Mem
overwritten = write text (at 1 0) (read text (at 1 2) 1)

abbrev a_store : Store
a_store = with_row one_store 0 (make_strview (at 1 0) 1 cetype_ascii)

a_assigned : store_assign allocator text one_store 0 a_view ≡ ok (overwritten, a_store)
unfolding store_assign store_reserve place_row moved strview_is_na checked_string_size
    check_r_string_len set_row
a_assigned = refl

store_assign-Updated_example :
    (0 < table_size one_store.records)
    × Updated text overwritten one_store a_store 0 (content text a_view)
store_assign-Updated_example =
    store_assign-Updated allocator text overwritten one_store a_store 0 a_view one_IsOwned a_IsValue
      a_assigned

abbrev blank_string : test_strings.Charsxp
blank_string = some ([], ce_native)

abbrev is_blank_string : test_strings.Charsxp → Bool
is_blank_string none = false
is_blank_string (some y) = length y.0 == 0

no_cache : IsCoherent test_strings blank_string is_blank_string text one_store none
unfolding cached
no_cache = record { agrees = λ i full. absurd (ground (arith, full)) }

-- A cache that has "hi".
abbrev hi_chunks : List (Option (List test_strings.Charsxp))
hi_chunks = some (hi_string ∷ []) ∷ []

hi_of_str :
    charsxp_of_str test_strings blank_string is_blank_string (content text (row_at one_store 0))
    ≡ ok hi_string
unfolding charsxp_of_str content strview_is_na write store_byte read to_base_encoding
    charport.Charpack.State.has_byte
hi_of_str = refl

hi_chunk :
    (q j i : ℕ)
    → i ≡ q * chunk_size + j
    → is_blank_string
        (in_chunk test_strings blank_string is_blank_string (get_or hi_chunks q none) j)
      ≡ false
    → charsxp_of_str test_strings blank_string is_blank_string (content text (row_at one_store i))
      ≡ ok (in_chunk test_strings blank_string is_blank_string (get_or hi_chunks q none) j)
unfolding in_chunk
hi_chunk zero zero i e full =
    let start : i ≡ 0 = omega (arith, e) in
    ap
      (λ k.
        charsxp_of_str test_strings blank_string is_blank_string
          (content text (row_at one_store k)))
      start
    ∙ hi_of_str
hi_chunk zero (suc j) i e full = absurd (ground (arith, full))
hi_chunk (suc q) j i e full = absurd (ground (arith, full))

hi_cached : IsCoherent test_strings blank_string is_blank_string text one_store (some hi_chunks)
unfolding cached
hi_cached = record {
  agrees = λ i full. hi_chunk (i / chunk_size) (i % chunk_size) i (omega arith) full;
}

hi-IsShaped : IsShaped (length one_store.records.rows) (some hi_chunks)
unfolding chunk_len
hi-IsShaped = (refl, omega arith)

materialize-strings_example :
    materialize test_strings blank_string is_blank_string text (live one_store (some hi_chunks))
    ≡ collect (charsxp_of_str test_strings blank_string is_blank_string) (strings_of text one_store)
materialize-strings_example =
    materialize-strings test_strings blank_string is_blank_string text one_store (some hi_chunks)
      (hi_Given, tt) hi-IsShaped hi_cached

hi_IsValue : IsValue text (charsxp_to_view test_strings hi_string)
unfolding charsxp_to_view classify_charsxp strview_is_na write store_byte
hi_IsValue = record { given = (omega arith, omega arith, inl (λ e. omega arith)); tagged = refl }

hi_back : make_charsxp test_strings text (charsxp_to_view test_strings hi_string) ≡ ok hi_string
unfolding make_charsxp charsxp_to_view classify_charsxp strview_is_na check_r_string_len_int
    to_base_encoding write store_byte read charport.Charpack.State.has_byte
hi_back = refl

-- "hi" over itself.
abbrev rewritten : Mem
rewritten = write text (at 1 0) (read text (at 1 0) 2)

hi_assigned :
    string_set_elt test_strings blank_string is_blank_string allocator text
      (live one_store none)
      0
      hi_string
    ≡ ok (rewritten, live one_store none)
unfolding string_set_elt store_assign store_reserve place_row moved strview_is_na
    checked_string_size check_r_string_len set_row charsxp_to_view classify_charsxp cache_put
hi_assigned = refl

string_set_elt-IsCoherent_example :
    (st : Store) × (cache : Cache test_strings.Charsxp) × (live one_store none ≡ live st cache)
    × Updated text rewritten one_store st 0 (content text (charsxp_to_view test_strings hi_string))
    × IsCoherent test_strings blank_string is_blank_string rewritten st cache
string_set_elt-IsCoherent_example =
    string_set_elt-IsCoherent test_strings blank_string is_blank_string refl allocator text
      rewritten one_store none 0 hi_string (live one_store none) one_IsOwned no_cache hi_IsValue
      hi_back hi_assigned

abbrev with_block : Mem
with_block = record text { next = 4 }

abbrev packed_memory : Mem
packed_memory = write with_block (at 3 0) (read with_block (at 1 0) 2)

abbrev packed_store : Store
packed_store = record {
  slices = record { block = 3; size = 2 } ∷ [];
  records = record { rows = make_strview (at 3 0) 2 cetype_utf8 ∷ []; capacity = 1 };
}

one_rebuilt : rebuild_store allocator text one_store.records ≡ ok (packed_memory, packed_store)
unfolding rebuild_store new_store new_table charport.Charvec.Store.na_loop
    charport.Charvec.Store.reserve rebuild_loop rebuild_block measure fill_block push_front
    front_data set_row strview_is_na write store_byte
one_rebuilt = refl

rebuild_store-strings_example :
    strings_of packed_memory packed_store ≡ map (content text) one_store.records.rows
rebuild_store-strings_example =
    rebuild_store-strings allocator text packed_memory one_store.records packed_store low
      (hi_Given, tt) one_rebuilt
