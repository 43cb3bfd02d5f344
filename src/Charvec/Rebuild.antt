-- ===== src/Charvec/Rebuild.antt =====
-- src/charvec_altrep.h: rebuild_store, which packs the strings of a table into new slices, and its
-- users deep_copy_store, duplicate_store and compact_store.
pub mod Blocks
pub mod Contents
pub mod Strings
use charport.Prelude.{
  ℕ, zero, suc, ◌+◌, ◌-◌, ◌&&◌, not, List, [], ◌∷◌, length, drop, ltb, ◌==◌, if◌then◌else◌, Result,
  ok, ◌>>=◌, true, false,
}
use charport.Memory.{Mem, Ptr, advance, read, write}
use charport.Interop.{StrView, make_strview, strview_is_na, size_of_int}
use charport.Sizes.{u32_max}
use charport.Charvec.Store.{
  Allocator, RecordTable, SliceChain, Store, empty_record, front_data, push_front, set_row,
  new_store, table_size,
}

abbrev pub record_len : StrView → ℕ
record_len v = if strview_is_na v then 0 else size_of_int v.len

-- The loop over `j`: how many of the records go into the block, and its bytes.
unfoldable pub measure : List StrView → ℕ → ℕ × ℕ
measure [] block_bytes = (0, block_bytes)
measure (v ∷ vs) block_bytes =
    let rest = measure vs (block_bytes + record_len v) in
    if ltb (u32_max - block_bytes) (record_len v) then (0, block_bytes) else (rest.0 + 1, rest.1)

-- The loop over `k` for `n` records, with the place for the bytes of the next.
unfoldable pub fill_block : Mem → RecordTable → ℕ → ℕ → List StrView → Ptr → Mem × RecordTable
fill_block m t k zero vs write_ptr = (m, t)
fill_block m t k (suc n) [] write_ptr = (m, t)
fill_block m t k (suc n) (v ∷ vs) write_ptr =
    if strview_is_na v
    then fill_block m t (k + 1) n vs write_ptr
    else if v.len == 0
    then fill_block m (set_row t k (empty_record v.enc)) (k + 1) n vs write_ptr
    else fill_block (write m write_ptr (read m v.ptr (size_of_int v.len)))
        (set_row t k (make_strview write_ptr v.len v.enc)) (k + 1) n vs
        (advance write_ptr (size_of_int v.len))

-- The loop over `k` of a block without bytes.
unfoldable pub fill_empty : RecordTable → ℕ → ℕ → List StrView → RecordTable
fill_empty t k zero vs = t
fill_empty t k (suc n) [] = t
fill_empty t k (suc n) (v ∷ vs) =
    if not (strview_is_na v) && v.len == 0
    then fill_empty (set_row t k (empty_record v.enc)) (k + 1) n vs
    else fill_empty t (k + 1) n vs

-- One block, from record `i` on.
unfoldable pub rebuild_block : Allocator → Mem → Store → ℕ → List StrView → Result (Mem × Store)
rebuild_block al m out i vs = elim (ltb 0 (measure vs 0).1) [
  | true ↦ do
    placed ← push_front al m out.slices (measure vs 0).1
    let filled = fill_block placed.0 out.records i (measure vs 0).0 vs (front_data placed.1)
    ok (filled.0, record { slices = placed.1; records = filled.1 })
  | false ↦ ok (m, record out { records = fill_empty out.records i (measure vs 0).0 vs })
]

-- (j > i) ? j : i + 1, as the records gone by.
abbrev pub block_step : ℕ → ℕ
block_step n = if n == 0 then 1 else n

-- The outer loop, on fuel: each turn goes by one record at least.
unfoldable pub rebuild_loop : ℕ → Allocator → Mem → Store → ℕ → List StrView → Result (Mem × Store)
rebuild_loop fuel al m out i [] = ok (m, out)
rebuild_loop zero al m out i (v ∷ vs) = ok (m, out)
rebuild_loop (suc fuel) al m out i (v ∷ vs) = do
  q ← rebuild_block al m out i (v ∷ vs)
  let step = block_step (measure (v ∷ vs) 0).0
  rebuild_loop fuel al q.0 q.1 (i + step) (drop step (v ∷ vs))

unfoldable pub rebuild_store : Allocator → Mem → RecordTable → Result (Mem × Store)
rebuild_store al m source = do
  q ← new_store al m (table_size source) 0
  rebuild_loop (table_size source) al q.0 q.1 0 source.rows

unfoldable pub deep_copy_store : Allocator → Mem → Store → Result (Mem × Store)
deep_copy_store al m source = rebuild_store al m source.records

unfoldable pub duplicate_store : Allocator → Mem → Store → Result (Mem × Store)
duplicate_store al m source = deep_copy_store al m source

-- The store is replaced only by one that is complete.
unfoldable pub compact_store : Allocator → Mem → Store → Result (Mem × Store)
compact_store al m store = rebuild_store al m store.records
