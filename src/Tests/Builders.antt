-- ===== src/Tests/Builders.antt =====
-- A builder of two strings, of which the first is set.
use charport.Prelude.{
  ◌<◌, ◌≡◌, ◌||◌, refl, false, [], ◌∷◌, length, replicate, arith, ok, some, none, set, ◌==◌,
  if◌then◌else◌,
}
use charport.Memory.{Mem, at, write, read, is_null, store_byte}
use charport.Interop.{make_strview, cetype_utf8, cetype_na}
use charport.Sizes.{checked_u32, round_up, next_power_of_two, next_power_loop, check_r_string_len}
use charport.Charvec.Store.{
  Allocator, na_record, new_table, new_store, chain_is_empty, front_data, push_front, set_row,
  checked_string_size, reserve,
}
use charport.Charvec.Builder.{
  fresh_shard, initial_slice_heuristic, next_slice_size, make_room, take_bytes, allocate_bytes,
  place_record, fill_record, copy_record, set_record,
}
use charport.Charvec.Builder.Serial.{Builder, new_builder, with_placed, checked_vector_size}
use charport.Charvec.Builder.Serial as Serial
use charport.Charvec.Builder.Contents.{contents, IsBuilder, set-contents, new_builder-contents}
use charport.Charvec.Builder.Total.{IsReliable, set_total}
use charport.Prelude.{inl, inr}
use charport.Charvec.Store.Slices.{Within}
use charport.Charvec.Builder.Parallel.{ParallelBuilder, release_parallel}
use charport.Charvec.Builder.Release.{release_parallel-Within}
use charport.Tests.Data.{text, xlen_max, hi_view}

abbrev pub allocator : Allocator
allocator = record {
  slice_fails = λ b n. false;
  table_fails = λ n. false;
  slice_header = 8;
  max_capacity = xlen_max;
  unset_row = hi_view;
}

abbrev two_na : Builder
two_na = record {
  store = record {
    slices = [];
    records = record { rows = na_record ∷ na_record ∷ []; capacity = 2 };
  };
  shard = fresh_shard;
}

abbrev pub with_hi : Builder
with_hi = record {
  store = record {
    slices = [];
    records = record { rows = make_strview (at 3 0) 2 cetype_utf8 ∷ na_record ∷ []; capacity = 2 };
  };
  shard = record {
    slices = record { block = 3; size = 64 } ∷ [];
    allocated_bytes = 2;
    current_slice_used = 2;
    current_slice_capacity = 64;
  };
}

abbrev pub after_hi : Mem
after_hi = write (record text { next = 4 }) (at 3 0) (read text (at 1 0) 2)

two_na_made : new_builder allocator text 2 ≡ ok (text, two_na)
unfolding new_builder checked_vector_size new_store new_table charport.Charvec.Store.na_loop reserve
two_na_made = refl

hi_set : Serial.set allocator text two_na 0 (at 1 0) 2 cetype_utf8 ≡ ok (after_hi, with_hi)
unfolding Serial.set with_placed set_record copy_record fill_record checked_string_size
    check_r_string_len place_record allocate_bytes make_room chain_is_empty checked_u32
    next_slice_size initial_slice_heuristic next_power_of_two next_power_loop round_up push_front
    front_data take_bytes set_row write store_byte read
hi_set = refl

pub low : 0 < text.next
unfolding write store_byte
low = omega arith

new_builder-contents_example : IsBuilder text two_na × (contents text two_na ≡ replicate 2 none)
new_builder-contents_example = new_builder-contents allocator text text two_na 2 low two_na_made

set-contents_example :
    (0 < length (contents text two_na))
    × IsBuilder after_hi with_hi
    × (contents after_hi with_hi
        ≡ set (contents text two_na) 0 (
            if is_null (at 1 0) || cetype_utf8 == cetype_na
            then none
            else some (read text (at 1 0) 2, cetype_utf8)))
set-contents_example =
    set-contents allocator text after_hi two_na with_hi 0 (at 1 0) 2 cetype_utf8
      (new_builder-contents allocator text text two_na 2 low two_na_made).0 hi_set

pub allocator-IsReliable : IsReliable allocator
allocator-IsReliable = record { never_fails = λ b n. refl; header_le = omega arith }

set_total_example :
    (q : Mem × Builder) × (Serial.set allocator text two_na 1 (at 1 0) 2 cetype_utf8 ≡ ok q)
set_total_example =
    set_total allocator text two_na 1 (at 1 0) 2 cetype_utf8 allocator-IsReliable (omega arith)
      (omega arith)

-- Two shards, of which each filled a slice.
abbrev two_shards : ParallelBuilder
two_shards = record {
  store = two_na.store;
  shards =
      with_hi.shard ∷ record fresh_shard { slices = record { block = 5; size = 64 } ∷ [] } ∷ [];
}

release_parallel-Within_example :
    Within (release_parallel two_shards).0.slices 5 10 20
    × ((release_parallel two_shards).0.records ≡ two_na.store.records)
release_parallel-Within_example =
    release_parallel-Within two_shards 5 10 20 (inr (inr (inl (inl (refl, omega arith)))))
