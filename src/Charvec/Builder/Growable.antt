-- ===== src/Charvec/Builder/Growable.antt =====
-- class GrowableBuilder of inst/include/charport/charvec/builder.h.
-- An append may raise after its table has grown, so that each operation gives the builder back
-- beside its result; memory changes only where it succeeds.
pub mod Append
use charport.Prelude.{ℕ, Bool, ◌||◌, ◌&&◌, not, ltb, ◌==◌, if◌then◌else◌, Result, ok, err}
use charport.Memory.{Mem, Ptr, null, is_null, read, write}
use charport.Interop.{StrView, make_strview, strview_is_na, cetype_na, size_of_int}
use charport.Charvec.Store.{
  Allocator, Store, RecordTable, empty_store, empty_data, na_record, empty_record,
  checked_string_size, reserve_for_append, push_back_reserved, prepend, table_size,
}
use charport.Charvec.Builder.{Shard, fresh_shard, allocate_bytes}

pub record GrowableBuilder : Type 0 where
  pub store : Store
  pub shard : Shard

abbrev pub new_growable : GrowableBuilder
new_growable = record { store = empty_store; shard = fresh_shard }

-- The builder after its table and shard changed.
abbrev pub with_table : GrowableBuilder → RecordTable → Shard → GrowableBuilder
with_table b t s = record { store = record b.store { records = t }; shard = s }

-- The record for a place that was found, or not.
unfoldable pub append_at :
    GrowableBuilder → ℕ → ℕ → Result (Ptr × Mem × Shard) → Result (Ptr × Mem) × GrowableBuilder
append_at b stored_len enc (err e) = (err e, b)
append_at b stored_len enc (ok got) = (
  ok (got.0, got.1),
  with_table b (push_back_reserved b.store.records (make_strview got.0 stored_len enc)) got.2,
)

-- The end of append_reserve, where the table has room.
unfoldable pub place_append :
    Allocator → Mem → GrowableBuilder → ℕ → ℕ → Result (Ptr × Mem) × GrowableBuilder
place_append al m b stored_len enc =
    if enc == cetype_na
    then (ok (null, m), with_table b (push_back_reserved b.store.records na_record) b.shard)
    else if stored_len == 0
    then (
      ok (empty_data, m),
      with_table b (push_back_reserved b.store.records (empty_record enc)) b.shard,
    )
    else append_at b stored_len enc (allocate_bytes al m b.shard stored_len 0)

-- With the table that reserve_for_append gives, or its error.
unfoldable pub append_reserved :
    Allocator
    → Mem
    → GrowableBuilder
    → ℕ
    → ℕ
    → Result RecordTable
    → Result (Ptr × Mem) × GrowableBuilder
append_reserved al m b stored_len enc (err e) = (err e, b)
append_reserved al m b stored_len enc (ok t) =
    place_append al m (with_table b t b.shard) stored_len enc

unfoldable pub append_reserve :
    Allocator → Mem → GrowableBuilder → ℕ → ℕ → Result (Ptr × Mem) × GrowableBuilder
append_reserve al m b len enc = elim (checked_string_size len) [
  | err e ↦ (err e, b)
  | ok stored_len ↦ append_reserved al m b stored_len enc (reserve_for_append al b.store.records)
]

-- memcpy of the bytes at `ptr` to the place that was reserved.
unfoldable pub copy_reserved : Ptr → ℕ → Result (Ptr × Mem) → Result Mem
copy_reserved ptr len (err e) = err e
copy_reserved ptr len (ok got) =
    ok (if ltb 0 len then write got.1 got.0 (read got.1 ptr len) else got.1)

unfoldable pub mem_of : Result (Ptr × Mem) → Result Mem
mem_of (err e) = err e
mem_of (ok got) = ok got.1

-- append(ptr, len, enc)
unfoldable pub append :
    Allocator → Mem → GrowableBuilder → Ptr → ℕ → ℕ → Result Mem × GrowableBuilder
append al m b ptr len enc =
    if is_null ptr || enc == cetype_na
    then (let q = append_reserve al m b 0 cetype_na in (mem_of q.0, q.1))
    else (let q = append_reserve al m b len enc in (copy_reserved ptr len q.0, q.1))

-- append(value)
unfoldable pub append_view :
    Allocator → Mem → GrowableBuilder → StrView → Result Mem × GrowableBuilder
append_view al m b v =
    if strview_is_na v
    then append al m b null 0 cetype_na
    else append al m b v.ptr (size_of_int v.len) v.enc

unfoldable pub growable_size : GrowableBuilder → ℕ
growable_size b = table_size b.store.records

unfoldable pub finish_growable : GrowableBuilder → GrowableBuilder
finish_growable b = record {
  store = record b.store { slices = (prepend b.store.slices b.shard.slices).0 };
  shard = fresh_shard;
}

-- The store handed out, and the builder left behind.
unfoldable pub release_growable : GrowableBuilder → Store × GrowableBuilder
release_growable b =
    let done = finish_growable b in (done.store, record done { store = empty_store })
