-- ===== src/Tests/Stores.antt =====
-- Stores of one string, "hi", of "hi" and NA, and of three strings, in the memory of the test data.
use charport.Charpack.Methods.Selection.{by_subscript}
use charport.Charvec.Fill.Subset.{subset_store-strings}
use charport.Interop.Views.{content}
use charport.Sizes.{check_r_string_len, checked_u32, next_power_of_two, next_power_loop, round_up}
use charport.Interop.{strview_is_na, cetype_utf8, cetype_na, na_integer}
use charport.Tests.Builders.{allocator, after_hi, with_hi, allocator-IsReliable, low}
use charport.Charvec.Builder.{
  set_view, set_record, copy_record, fill_record, place_record, allocate_bytes, make_room,
  next_slice_size, initial_slice_heuristic, take_bytes,
}
use charport.Charvec.Builder.Serial as Serial
use charport.Charvec.Builder.Growable.{new_growable, append}
use charport.Charpack.Methods.{ints, selected_int}
use charport.Charvec.Builder.Serial.{
  set_strview, release_store, finish_store, new_builder, checked_vector_size, with_placed,
}
use charport.Tests.Data.{
  text, test_strings, hi_view, na_view, hi_view, hi_view, hi_view, hi_view, hi_view, hi_view,
  hi_view, hi_view, hi_view, hi_view, hi_view, hi_view, hi_view, hi_view, hi_view, hi_view, hi_view,
  hi_view, hi_view, hi_view, hi_view, hi_view, hi_view, hi_view, hi_view, hi_view, hi_view, hi_view,
  hi_view, hi_view, hi_view, hi_view, hi_view, hi_view, hi_view, hi_view, hi_view, hi_view, hi_view,
  hi_view,
}
use charport.Charvec.Fill.Total.{Serves}
use charport.Charvec.Builder.Growable.Append.{Outcome, IsGrowable, append-Outcome}
use charport.Charvec.Fill.Whole.{strings_of, Given, store_from_chars-strings, from_views-strings}
use charport.Charvec.Fill.{
  store_from_chars, from_views, subset_store, set_views, check_views, subset_rows, fill_given,
  released, copy_elements, copy_element,
}
use charport.Charsxp.{charsxp_to_view, classify_charsxp, ce_utf8, valid_view_encoding, view_is_na}
use charport.Memory.{write, store_byte, is_null, at, read}
use charport.Prelude.{
  List, ◌∷◌, [], All, some, none, arith, map, if◌then◌else◌, inl, refl, ◌||◌, ◌==◌, ◌≡◌, ok,
}
use charport.Charvec.Store.{
  Allocator, Store, prepend, new_store, new_table, checked_string_size, chain_is_empty, push_front,
  front_data, set_row,
}

-- What the tests build.
abbrev pair_store : Store
pair_store = record {
  slices = record { block = 3; size = 64 } ∷ [];
  records = with_hi.store.records;
}

abbrev pub hi_string : test_strings.Charsxp
hi_string = some (104 ∷ 105 ∷ [], ce_utf8)

abbrev two_strings : List test_strings.Charsxp
two_strings = hi_string ∷ none ∷ []

pub hi_Given : Given text hi_view
unfolding write store_byte
hi_Given = (omega arith, omega arith, inl (λ e. omega arith))

two_Given : All (Given text) (map (charsxp_to_view test_strings) two_strings)
unfolding charsxp_to_view classify_charsxp write store_byte
two_Given = ((omega arith, omega arith, inl (λ e. omega arith)), (tt, tt))

two_made : store_from_chars test_strings allocator text two_strings ≡ ok (after_hi, pair_store)
unfolding store_from_chars set_views set_strview set_view released release_store finish_store
    prepend charsxp_to_view classify_charsxp strview_is_na new_builder checked_vector_size new_store
    new_table charport.Charvec.Store.na_loop charport.Charvec.Store.reserve with_placed set_record
    copy_record fill_record checked_string_size check_r_string_len place_record allocate_bytes
    make_room chain_is_empty checked_u32 next_slice_size initial_slice_heuristic next_power_of_two
    next_power_loop round_up push_front front_data take_bytes set_row write store_byte read
two_made = refl

store_from_chars-strings_example :
    strings_of after_hi pair_store
    ≡ map (content text) (map (charsxp_to_view test_strings) two_strings)
store_from_chars-strings_example =
    store_from_chars-strings test_strings allocator text after_hi two_strings pair_store low
      two_Given two_made

views_made : from_views allocator text 2 (some (hi_view ∷ na_view ∷ [])) ≡ ok (after_hi, pair_store)
unfolding from_views check_views fill_given Serial.set released release_store finish_store prepend
    valid_view_encoding view_is_na new_builder checked_vector_size new_store new_table
    charport.Charvec.Store.na_loop charport.Charvec.Store.reserve with_placed set_record copy_record
    fill_record checked_string_size check_r_string_len place_record allocate_bytes make_room
    chain_is_empty checked_u32 next_slice_size initial_slice_heuristic next_power_of_two
    next_power_loop round_up push_front front_data take_bytes set_row write store_byte read
views_made = refl

from_views-strings_example :
    strings_of after_hi pair_store ≡ map (content text) (hi_view ∷ na_view ∷ [])
from_views-strings_example =
    from_views-strings allocator text after_hi (hi_view ∷ na_view ∷ []) pair_store low
      (hi_Given, (tt, tt)) views_made

abbrev pub one_store : Store
one_store = record { slices = []; records = record { rows = hi_view ∷ []; capacity = 1 } }

-- Subscripts 1 and NA.
subset_made :
    subset_store allocator text one_store (ints (1 ∷ na_integer ∷ [])) ≡ ok (after_hi, pair_store)
unfolding subset_store subset_rows selected_int copy_elements copy_element set_strview set_view
    released release_store finish_store prepend strview_is_na new_builder checked_vector_size
    new_store new_table charport.Charvec.Store.na_loop charport.Charvec.Store.reserve with_placed
    set_record copy_record fill_record checked_string_size check_r_string_len place_record
    allocate_bytes make_room chain_is_empty checked_u32 next_slice_size initial_slice_heuristic
    next_power_of_two next_power_loop round_up push_front front_data take_bytes set_row write
    store_byte read
subset_made = refl

subset_store-strings_example :
    strings_of after_hi pair_store
    ≡ by_subscript none (strings_of text one_store) (ints (1 ∷ na_integer ∷ []))
subset_store-strings_example =
    subset_store-strings allocator text after_hi one_store pair_store (ints (1 ∷ na_integer ∷ []))
      low (hi_Given, tt) subset_made

new_growable-IsGrowable : IsGrowable text new_growable
unfolding write store_byte
new_growable-IsGrowable = (
  record { known = omega arith; capacity_lem = refl; used_le = omega arith; bounded = omega arith },
  tt,
)

append-Outcome_example :
    Outcome text new_growable
      (if is_null (at 1 0) || cetype_utf8 == cetype_na
        then none
        else some (read text (at 1 0) 2, cetype_utf8))
      (append allocator text new_growable (at 1 0) 2 cetype_utf8).0
      (append allocator text new_growable (at 1 0) 2 cetype_utf8).1
append-Outcome_example =
    append-Outcome allocator text new_growable (at 1 0) 2 cetype_utf8 new_growable-IsGrowable

pub allocator-Serves : Serves allocator 3
allocator-Serves = record {
  slices = allocator-IsReliable;
  tables = λ k. refl;
  bounded = omega arith;
}
