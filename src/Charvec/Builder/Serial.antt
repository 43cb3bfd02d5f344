-- ===== src/Charvec/Builder/Serial.antt =====
-- class Builder of inst/include/charport/charvec/builder.h.
use charport.Prelude.{ℕ, if◌then◌else◌, Result, ok, err, ◌>>=◌, negative_length}
use charport.Memory.{Mem, Ptr}
use charport.Interop.{StrView, xlen_is_negative}
use charport.Charvec.Store.{Allocator, Store, empty_store, new_store, prepend}
use charport.Charvec.Builder.{Shard, fresh_shard, Placed, fill_record, set_record, set_view}

unfoldable pub checked_vector_size : ℕ → Result ℕ
checked_vector_size n = if xlen_is_negative n then err negative_length else ok n

pub record Builder : Type 0 where
  pub store : Store
  pub shard : Shard

-- Builder(n)
unfoldable pub new_builder : Allocator → Mem → ℕ → Result (Mem × Builder)
new_builder al m n = do
  size ← checked_vector_size n
  made ← new_store al m size 0
  ok (made.0, record { store = made.1; shard = fresh_shard })

-- `next` is built before the old store and shard are dropped.
unfoldable pub reset : Allocator → Mem → Builder → ℕ → Result (Mem × Builder)
reset al m b n = do
  size ← checked_vector_size n
  made ← new_store al m size 0
  ok (made.0, record { store = made.1; shard = fresh_shard })

-- The builder after an operation on its shard and table.
unfoldable pub with_placed : Builder → Placed → Builder
with_placed b p = record { store = record b.store { records = p.records }; shard = p.shard }

unfoldable pub set : Allocator → Mem → Builder → ℕ → Ptr → ℕ → ℕ → Result (Mem × Builder)
set al m b i ptr len enc = do
  p ← set_record al m b.shard b.store.records i ptr len enc
  ok (p.mem, with_placed b p)

unfoldable pub set_strview : Allocator → Mem → Builder → ℕ → StrView → Result (Mem × Builder)
set_strview al m b i v = do
  p ← set_view al m b.shard b.store.records i v
  ok (p.mem, with_placed b p)

-- reserve: the place is filled by the caller.
unfoldable pub reserve : Allocator → Mem → Builder → ℕ → ℕ → ℕ → Result (Ptr × Mem × Builder)
reserve al m b i len enc = do
  p ← fill_record al m b.shard b.store.records i len enc
  ok (p.dest, p.mem, with_placed b p)

unfoldable pub finish_store : Builder → Builder
finish_store b = record {
  store = record b.store { slices = (prepend b.store.slices b.shard.slices).0 };
  shard = fresh_shard;
}

-- The store handed out, and the builder left behind.
unfoldable pub release_store : Builder → Store × Builder
release_store b = let done = finish_store b in (done.store, record done { store = empty_store })
