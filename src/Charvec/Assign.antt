-- ===== src/Charvec/Assign.antt =====
-- src/charvec_altrep.h, store_reserve and store_assign: a record of a store changed in place.
pub mod Owned
pub mod Correct
use charport.Prelude.{
  ℕ, ◌&&◌, not, get_or, ltb, leb, ◌==◌, if◌then◌else◌, Result, ok, ◌>>=◌, ◌>>◌, require,
  out_of_bounds, Bool,
}
use charport.Memory.{Mem, Ptr, null, is_null, read, write}
use charport.Interop.{StrView, make_strview, strview_is_na, cetype_na, int_is_negative, size_of_int}
use charport.Charvec.Store.{
  Allocator, Store, empty_data, na_record, empty_record, checked_string_size, front_data,
  push_front, set_row, table_size,
}

abbrev pub with_row : Store → ℕ → StrView → Store
with_row store idx v = record store { records = set_row store.records idx v }

-- `current.len >= stored_len` of two `int`s, the second not negative.
abbrev pub holds_len : StrView → ℕ → Bool
holds_len current stored_len = not (int_is_negative current.len) && leb stored_len current.len

-- The end of store_reserve, once its arguments are checked.
unfoldable pub place_row :
    Allocator → Mem → Store → ℕ → StrView → ℕ → ℕ → Result (Ptr × Mem × Store)
place_row al m store idx current stored_len enc =
    if enc == cetype_na
    then ok (null, m, with_row store idx na_record)
    else if stored_len == 0
    then ok (empty_data, m, with_row store idx (empty_record enc))
    else if not (strview_is_na current) && holds_len current stored_len
    then ok (current.ptr, m, with_row store idx (make_strview current.ptr stored_len enc))
    else (push_front al m store.slices stored_len >>= λ placed. ok (
      front_data placed.1,
      placed.0,
      record {
        slices = placed.1;
        records = set_row store.records idx (make_strview (front_data placed.1) stored_len enc);
      },
    ))

unfoldable pub store_reserve : Allocator → Mem → Store → ℕ → ℕ → ℕ → Result (Ptr × Mem × Store)
store_reserve al m store idx len enc = do
  stored_len ← checked_string_size len
  require (ltb idx (table_size store.records)) out_of_bounds
  place_row al m store idx (get_or store.records.rows idx na_record) stored_len enc

-- memmove reads before it writes.
unfoldable pub moved : Ptr → ℕ → Ptr × Mem × Store → Mem × Store
moved src len p =
    if not (is_null p.0) && ltb 0 len then (write p.1 p.0 (read p.1 src len), p.2) else (p.1, p.2)

unfoldable pub store_assign : Allocator → Mem → Store → ℕ → StrView → Result (Mem × Store)
store_assign al m store idx value = do
  let len = if strview_is_na value then 0 else size_of_int value.len
  p ← store_reserve al m store idx len value.enc
  ok (moved value.ptr len p)
