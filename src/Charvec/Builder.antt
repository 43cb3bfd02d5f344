-- ===== src/Charvec/Builder.antt =====
-- inst/include/charport/charvec/builder.h: shards, and the builders over them.
-- Memory is threaded through: an operation takes it first and gives it back. An operation that
-- returns a `Result` raises before it has changed anything, so that an error leaves its object as it
-- was; `append_reserve` may raise after its table has grown, and gives the object back either way.
pub mod Shards
pub mod Storing
pub mod Records
pub mod Contents
pub mod Total
pub mod Parallel
pub mod Release
pub mod Serial
pub mod Growable
pub mod Writer
use charport.Prelude.{
  ℕ, zero, suc, ◌+◌, ◌-◌, ◌*◌, ◌/◌, ◌%◌, ◌^◌, Bool, true, false, ◌&&◌, List, [], ◌∷◌, ◌++◌, Option,
  none, some, length, set, get_or, get_elem?, replicate, ltb, leb, ◌==◌, if◌then◌else◌, Result, ok,
  err, Error, ◌>>=◌, ◌>>◌, require, not, out_of_bounds, negative_length, no_shards, min, max, ◌||◌,
}
use charport.Memory.{Mem, Ptr, null, at, advance, is_null, read, write}
use charport.Interop.{
  StrView, make_strview, strview_is_na, na_integer, cetype_na, xlen_is_negative, size_of_int,
}
use charport.Sizes.{round_up, next_power_of_two, checked_u32}
use charport.Charvec.Store.{
  Allocator, Slice, SliceChain, RecordTable, Store, empty_data, empty_store, empty_table, na_record,
  empty_record, checked_string_size, chain_is_empty, front_data, push_front, prepend, new_store,
  set_row, table_size, reserve_for_append, push_back_reserved,
}

abbrev pub min_multi_string_slice_bytes : ℕ
min_multi_string_slice_bytes = 64

abbrev pub max_initial_slice_bytes : ℕ
max_initial_slice_bytes = 16 * 2 ^ 10

abbrev pub max_slice_bytes : ℕ
max_slice_bytes = 256 * 2 ^ 10

abbrev pub slice_alignment : ℕ
slice_alignment = 64

abbrev pub vector_len_scale : ℕ
vector_len_scale = 4

unfoldable pub initial_slice_heuristic : ℕ → ℕ
initial_slice_heuristic vector_len =
    if leb vector_len 1
    then 0
    else min
        (max min_multi_string_slice_bytes
          (next_power_of_two (vector_len * vector_len_scale % 2 ^ 64)))
        max_initial_slice_bytes

pub record Shard : Type 0 where
  pub slices : SliceChain
  pub allocated_bytes : ℕ
  pub current_slice_used : ℕ
  pub current_slice_capacity : ℕ

abbrev pub fresh_shard : Shard
fresh_shard = record {
  slices = [];
  allocated_bytes = 0;
  current_slice_used = 0;
  current_slice_capacity = 0;
}

-- The size of the slice that a record of `len` bytes opens.
unfoldable pub next_slice_size : Shard → ℕ → ℕ → ℕ
next_slice_size shard len vector_length_hint =
    let initial = initial_slice_heuristic vector_length_hint in
    let regular =
      min (round_up (max initial (shard.allocated_bytes / 2)) slice_alignment) max_slice_bytes in
    round_up (max regular len) slice_alignment

-- A shard whose current slice has room for `len` bytes; the capacities are 32-bit.
unfoldable pub make_room : Allocator → Mem → Shard → ℕ → ℕ → Result (Mem × Shard)
make_room al m shard len vector_length_hint =
    elim (chain_is_empty shard.slices
      || ltb ((shard.current_slice_capacity + 2 ^ 32 - shard.current_slice_used) % 2 ^ 32) len) [
        | true ↦ do
          cap ← checked_u32 (next_slice_size shard len vector_length_hint)
          placed ← push_front al m shard.slices cap
          ok (
            placed.0,
            record shard {
              slices = placed.1;
              current_slice_used = 0;
              current_slice_capacity = cap;
            },
          )
        | false ↦ ok (m, shard)
      ]

unfoldable pub take_bytes : Shard → ℕ → Shard
take_bytes shard len = record shard {
  current_slice_used = (shard.current_slice_used + len) % 2 ^ 32;
  allocated_bytes = (shard.allocated_bytes + len) % 2 ^ 64;
}

-- The place for `len` bytes, with the memory and the shard after it.
unfoldable pub allocate_bytes : Allocator → Mem → Shard → ℕ → ℕ → Result (Ptr × Mem × Shard)
allocate_bytes al m shard len vector_length_hint =
    if len == 0 then ok (empty_data, m, shard) else do
      room ← make_room al m shard len vector_length_hint
      ok (
        advance (front_data room.1.slices) room.1.current_slice_used,
        room.0,
        take_bytes room.1 len,
      )

-- What an operation on a shard and a table changes, beside the place it gives.
pub record Placed : Type 0 where
  pub dest : Ptr
  pub mem : Mem
  pub shard : Shard
  pub records : RecordTable

-- The end of fill_record, once its arguments are checked.
unfoldable pub place_record : Allocator → Mem → Shard → RecordTable → ℕ → ℕ → ℕ → Result Placed
place_record al m shard records idx stored_len enc =
    if enc == cetype_na
    then ok
        (record { dest = null; mem = m; shard = shard; records = set_row records idx na_record })
    else if stored_len == 0
    then ok (record {
      dest = empty_data;
      mem = m;
      shard = shard;
      records = set_row records idx (empty_record enc);
    })
    else (allocate_bytes al m shard stored_len (table_size records) >>= λ got. ok (record {
      dest = got.0;
      mem = got.1;
      shard = got.2;
      records = set_row records idx (make_strview got.0 stored_len enc);
    }))

unfoldable pub fill_record : Allocator → Mem → Shard → RecordTable → ℕ → ℕ → ℕ → Result Placed
fill_record al m shard records idx len enc = do
  require (ltb idx (table_size records)) out_of_bounds
  stored_len ← checked_string_size len
  place_record al m shard records idx stored_len enc

-- fill_record, and memcpy of the bytes at `ptr`.
unfoldable pub copy_record : Allocator → Mem → Shard → RecordTable → ℕ → Ptr → ℕ → ℕ → Result Placed
copy_record al m shard records idx ptr len enc = do
  p ← fill_record al m shard records idx len enc
  ok (
      if not (is_null p.dest) && ltb 0 len
      then record p { mem = write p.mem p.dest (read p.mem ptr len) }
      else p)

-- The arguments of `set`: a null pointer or the NA tag makes the record NA.
unfoldable pub set_record : Allocator → Mem → Shard → RecordTable → ℕ → Ptr → ℕ → ℕ → Result Placed
set_record al m shard records i ptr len enc =
    if is_null ptr || enc == cetype_na
    then copy_record al m shard records i null 0 cetype_na
    else copy_record al m shard records i ptr len enc

-- The overload for a view.
unfoldable pub set_view : Allocator → Mem → Shard → RecordTable → ℕ → StrView → Result Placed
set_view al m shard records i v =
    if strview_is_na v
    then set_record al m shard records i null 0 cetype_na
    else set_record al m shard records i v.ptr (size_of_int v.len) v.enc
