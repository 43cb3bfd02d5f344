-- ===== src/Charvec/Store.antt =====
-- inst/include/charport/charvec/store.h: slices, the record table, and the store that owns both.
-- A slice is a block of memory with its payload size, and a chain the list of its slices from the
-- head. The record table's three arrays are one list of rows, of which `vector_length_` is the
-- length. A moved-from object is left empty.
pub mod Slices
use charport.Prelude.{
  ℕ, zero, suc, ◌+◌, ◌-◌, ◌*◌, ◌/◌, ◌^◌, Bool, true, false, List, [], ◌∷◌, ◌++◌, Option, none, some,
  length, set, get_or, replicate, ltb, leb, ◌==◌, if◌then◌else◌, Result, ok, err, Error, ◌>>=◌,
  ◌>>◌, require, not, bad_alloc, length_error, string_too_long, min, ◌||◌,
}
use charport.Memory.{Mem, Ptr, null, at, read, write, is_null}
use charport.Interop.{StrView, make_strview, na_integer, cetype_na}
use charport.Sizes.{size_max, check_r_string_len}

-- components::empty_data: the static empty string is block 0, which the allocator never hands out.
abbrev pub empty_data : Ptr
empty_data = at 0 0

abbrev pub na_record : StrView
na_record = make_strview null na_integer cetype_na

abbrev pub empty_record : ℕ → StrView
empty_record enc = make_strview empty_data 0 enc

unfoldable pub checked_string_size : ℕ → Result ℕ
checked_string_size len = if check_r_string_len len then ok len else err string_too_long

-- What `operator new` and `new[]` do is not part of the program: which of its calls fail, by the
-- block that would be next and its size, or by the entries of a table.
pub record Allocator : Type 0 where
  pub slice_fails : ℕ → ℕ → Bool
  pub table_fails : ℕ → Bool
  -- sizeof(Slice), one pointer.
  pub slice_header : ℕ
  -- R_XLEN_T_MAX and the sizes of a pointer, an int and an encoding bound a table.
  pub max_capacity : ℕ
  -- What a new array holds.
  pub unset_row : StrView

pub record Slice : Type 0 where
  pub block : ℕ
  pub size : ℕ

abbrev pub SliceChain : Type 0
SliceChain = List Slice

unfoldable pub chain_is_empty : SliceChain → Bool
chain_is_empty [] = true
chain_is_empty (s ∷ ss) = false

unfoldable pub front_data : SliceChain → Ptr
front_data [] = null
front_data (s ∷ ss) = at s.block 0

-- SliceChain::allocate and push_front.
unfoldable pub push_front : Allocator → Mem → SliceChain → ℕ → Result (Mem × SliceChain)
push_front al m chain payload_bytes =
    if ltb (size_max - al.slice_header) payload_bytes
    then err bad_alloc
    else if al.slice_fails m.next payload_bytes
    then err bad_alloc
    else ok
        (record m { next = m.next + 1 }, record { block = m.next; size = payload_bytes } ∷ chain)

unfoldable pub data_slice : SliceChain → ℕ → Ptr
data_slice [] idx = null
data_slice (s ∷ ss) zero = at s.block 0
data_slice (s ∷ ss) (suc idx) = data_slice ss idx

unfoldable pub count : SliceChain → ℕ
count [] = 0
count (s ∷ ss) = count ss + 1

-- The chain that is left, and the emptied `other`.
unfoldable pub prepend : SliceChain → SliceChain → SliceChain × SliceChain
prepend chain [] = (chain, [])
prepend chain (s ∷ ss) = ((s ∷ ss) ++ chain, [])

pub record RecordTable : Type 0 where
  pub rows : List StrView
  pub capacity : ℕ

abbrev pub table_size : RecordTable → ℕ
table_size t = length t.rows

abbrev pub empty_table : RecordTable
empty_table = record { rows = []; capacity = 0 }

-- reserve; an error leaves the table as it was.
unfoldable pub reserve : Allocator → RecordTable → ℕ → Result RecordTable
reserve al t new_capacity =
    if leb new_capacity t.capacity
    then ok t
    else if ltb al.max_capacity new_capacity
    then err length_error
    else if al.table_fails new_capacity
    then err bad_alloc
    else ok (record t { capacity = new_capacity })

-- The loop of set_na over `k` records from `i` on.
unfoldable pub na_loop : ℕ → ℕ → RecordTable → RecordTable
na_loop zero i t = t
na_loop (suc k) i t = na_loop k (i + 1) (record t { rows = set t.rows i na_record })

-- RecordTable(n): n NA records, in arrays that hold nothing of use before.
unfoldable pub new_table : Allocator → ℕ → Result RecordTable
new_table al n = do
  t ← reserve al empty_table n
  ok (na_loop n 0 (record t { rows = replicate n al.unset_row }))

-- set(i, ptr, len, enc) and set_na(i), at an index within the table.
unfoldable pub set_row : RecordTable → ℕ → StrView → RecordTable
set_row t i v = record t { rows = set t.rows i v }

unfoldable pub reserve_for_append : Allocator → RecordTable → Result RecordTable
reserve_for_append al t =
    if ltb (table_size t) t.capacity
    then ok t
    else let maximum = al.max_capacity in
      let next =
        if t.capacity == 0
        then 1
        else if ltb (maximum / 2) t.capacity
        then maximum
        else t.capacity * 2 in
      if leb next t.capacity then err length_error else reserve al t next

unfoldable pub push_back_reserved : RecordTable → StrView → RecordTable
push_back_reserved t v = record t { rows = t.rows ++ (v ∷ []) }

unfoldable pub push_back : Allocator → RecordTable → StrView → Result RecordTable
push_back al t v = do t' ← reserve_for_append al t; ok (push_back_reserved t' v)

pub record Store : Type 0 where
  pub slices : SliceChain
  pub records : RecordTable

abbrev pub empty_store : Store
empty_store = record { slices = []; records = empty_table }

-- Store(vector_size, initial_slice_bytes)
unfoldable pub new_store : Allocator → Mem → ℕ → ℕ → Result (Mem × Store)
new_store al m vector_size initial_slice_bytes = do
  t ← new_table al vector_size
  elim (ltb 0 initial_slice_bytes) [
    | true ↦ do
      placed ← push_front al m [] initial_slice_bytes
      ok (placed.0, record { slices = placed.1; records = t })
    | false ↦ ok (m, record { slices = []; records = t })
  ]

-- Store::scalar, with `src` null or a pointer to `nbytes` bytes.
unfoldable pub scalar : Allocator → Mem → Ptr → ℕ → ℕ → Result (Mem × Store)
scalar al m src nbytes enc = elim (is_null src || enc == cetype_na) [
  | true ↦ do
    made ← new_store al m 1 0
    ok (made.0, record made.1 { records = set_row made.1.records 0 na_record })
  | false ↦ do
    len ← checked_string_size nbytes
    made ← new_store al m 1 nbytes
    ok (
        if len == 0
        then (made.0, record made.1 { records = set_row made.1.records 0 (empty_record enc) })
        else (
          write made.0 (front_data made.1.slices) (read made.0 src nbytes),
          record made.1 {
            records = set_row made.1.records 0 (make_strview (front_data made.1.slices) len enc);
          },
        ))
]
