-- ===== src/Charvec/Builder/Writer.antt =====
-- class Writer of inst/include/charport/charvec/writer.h, which writes strings into a store that
-- another owns. `slice` is where the next bytes go, null before the first.
use charport.Prelude.{
  ℕ, ◌+◌, ◌-◌, ◌/◌, ◌||◌, ltb, ◌==◌, if◌then◌else◌, Result, ok, ◌>>=◌, ◌>>◌, require, out_of_range,
  min, max,
}
use charport.Memory.{Mem, Ptr, null, advance, is_null, read, write}
use charport.Interop.{make_strview, cetype_na}
use charport.Sizes.{round_up}
use charport.Charvec.Store.{
  Allocator, Store, empty_data, na_record, checked_string_size, front_data, push_front, set_row,
  table_size,
}
use charport.Charvec.Builder.{initial_slice_heuristic, slice_alignment, max_slice_bytes}

pub record Writer : Type 0 where
  pub store : Store
  pub initial : ℕ
  pub slice : Ptr
  pub left : ℕ
  pub used : ℕ

-- Writer(store)
unfoldable pub new_writer : Store → Writer
new_writer store = record {
  store = store;
  initial = initial_slice_heuristic (table_size store.records);
  slice = null;
  left = 0;
  used = 0;
}

unfoldable pub writer_slice_size : Writer → ℕ → ℕ
writer_slice_size w len =
    let regular = min (round_up (max w.initial (w.used / 2)) slice_alignment) max_slice_bytes in
    round_up (max regular len) slice_alignment

-- A writer whose slice has `len` bytes left.
unfoldable pub open_slice : Allocator → Mem → Writer → ℕ → Result (Mem × Writer)
open_slice al m w len =
    if ltb w.left len
    then (push_front al m w.store.slices (writer_slice_size w len) >>= λ placed. ok (
      placed.0,
      record w {
        store = record w.store { slices = placed.1 };
        slice = front_data placed.1;
        left = writer_slice_size w len;
      },
    ))
    else ok (m, w)

unfoldable pub writer_reserve : Allocator → Mem → Writer → ℕ → Result (Ptr × Mem × Writer)
writer_reserve al m w len =
    if len == 0
    then ok (empty_data, m, w)
    else (checked_string_size len >>= λ stored_len. open_slice al m w len >>= λ q. ok (
      q.1.slice,
      q.0,
      record q.1 { slice = advance q.1.slice len; left = q.1.left - len; used = q.1.used + len },
    ))

abbrev pub put_row : Writer → ℕ → charport.Interop.StrView → Writer
put_row w i v = record w { store = record w.store { records = set_row w.store.records i v } }

-- check_index
abbrev pub index_in : Writer → ℕ → Result (Unit {0})
index_in w i = require (ltb i (table_size w.store.records)) out_of_range

unfoldable pub writer_set : Writer → ℕ → Ptr → ℕ → ℕ → Result Writer
writer_set w i ptr len enc =
    index_in w i
    >> (if is_null ptr || enc == cetype_na
        then ok (put_row w i na_record)
        else (checked_string_size len >>= λ stored_len. ok (
            put_row w i
              (make_strview (if stored_len == 0 then empty_data else ptr) stored_len enc))))

unfoldable pub writer_set_na : Writer → ℕ → Result Writer
writer_set_na w i = do index_in w i; ok (put_row w i na_record)

unfoldable pub writer_set_empty : Writer → ℕ → ℕ → Result Writer
writer_set_empty w i enc = writer_set w i empty_data 0 enc

-- copy; the index was checked first, so that `set` does not raise.
unfoldable pub writer_copy : Allocator → Mem → Writer → ℕ → Ptr → ℕ → ℕ → Result (Mem × Writer)
writer_copy al m w i src len enc =
    index_in w i
    >> (if is_null src || enc == cetype_na
        then ok (m, put_row w i na_record)
        else (writer_reserve al m w len >>= λ q.
            let filled = if ltb 0 len then write q.1 q.0 (read q.1 src len) else q.1 in
            writer_set q.2 i q.0 len enc >>= λ w'. ok (filled, w')))
