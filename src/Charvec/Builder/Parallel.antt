-- ===== src/Charvec/Builder/Parallel.antt =====
-- class ParallelBuilder of inst/include/charport/charvec/builder.h.
-- A worker writes its own shard, and its own rows of the table.
use charport.Prelude.{
  ℕ, Bool, true, false, not, List, [], ◌∷◌, length, map, replicate, get_or, ltb, ◌==◌,
  if◌then◌else◌, Result, ok, err, ◌>>=◌, ◌>>◌, require, no_shards, out_of_bounds,
}
use charport.Prelude as Prelude
use charport.Memory.{Mem, Ptr}
use charport.Interop.{StrView}
use charport.Charvec.Store.{Allocator, Store, SliceChain, empty_store, new_store, prepend}
use charport.Charvec.Builder.{Shard, fresh_shard, Placed, fill_record, set_record, set_view}
use charport.Charvec.Builder.Serial.{checked_vector_size}

pub record ParallelBuilder : Type 0 where
  pub store : Store
  pub shards : List Shard

-- The constructor, and reset: the new store and shards replace the old ones once they are made.
unfoldable pub new_parallel_builder : Allocator → Mem → ℕ → ℕ → Result (Mem × ParallelBuilder)
new_parallel_builder al m n n_shards = do
  require (not (n_shards == 0)) no_shards
  size ← checked_vector_size n
  made ← new_store al m size 0
  ok (made.0, record { store = made.1; shards = replicate n_shards fresh_shard })

unfoldable pub shard_at : ParallelBuilder → ℕ → Result Shard
shard_at b shard =
    if ltb shard (length b.shards)
    then ok (get_or b.shards shard fresh_shard)
    else err out_of_bounds

unfoldable pub with_shard_placed : ParallelBuilder → ℕ → Placed → ParallelBuilder
with_shard_placed b shard p = record {
  store = record b.store { records = p.records };
  shards = Prelude.set b.shards shard p.shard;
}

unfoldable pub set_in :
    Allocator → Mem → ParallelBuilder → ℕ → ℕ → Ptr → ℕ → ℕ → Result (Mem × ParallelBuilder)
set_in al m b shard i ptr len enc = do
  s ← shard_at b shard
  p ← set_record al m s b.store.records i ptr len enc
  ok (p.mem, with_shard_placed b shard p)

unfoldable pub set_strview_in :
    Allocator → Mem → ParallelBuilder → ℕ → ℕ → StrView → Result (Mem × ParallelBuilder)
set_strview_in al m b shard i v = do
  s ← shard_at b shard
  p ← set_view al m s b.store.records i v
  ok (p.mem, with_shard_placed b shard p)

-- reserve: the place is filled by the caller.
unfoldable pub reserve_in :
    Allocator → Mem → ParallelBuilder → ℕ → ℕ → ℕ → ℕ → Result (Ptr × Mem × ParallelBuilder)
reserve_in al m b shard i len enc = do
  s ← shard_at b shard
  p ← fill_record al m s b.store.records i len enc
  ok (p.dest, p.mem, with_shard_placed b shard p)

-- The loop of finish_store over the shards.
unfoldable pub prepend_shards : SliceChain → List Shard → SliceChain
prepend_shards chain [] = chain
prepend_shards chain (s ∷ ss) = prepend_shards (prepend chain s.slices).0 ss

unfoldable pub finish_parallel : ParallelBuilder → ParallelBuilder
finish_parallel b = record {
  store = record b.store { slices = prepend_shards b.store.slices b.shards };
  shards = map (λ s. fresh_shard) b.shards;
}

-- release_store: the store handed out, and the builder left behind.
unfoldable pub release_parallel : ParallelBuilder → Store × ParallelBuilder
release_parallel b =
    let done = finish_parallel b in (done.store, record done { store = empty_store })
