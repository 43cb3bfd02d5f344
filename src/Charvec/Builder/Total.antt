-- ===== src/Charvec/Builder/Total.antt =====
-- When setting a record succeeds.
use charport.Prelude.{
  ℕ, ◌+◌, ◌-◌, ◌*◌, ◌/◌, ◌%◌, ◌^◌, ◌≤◌, ◌<◌, ◌≡◌, refl, true, false, ◌||◌, arith, ok, ltb, leb,
  ◌==◌, Bool-cases, inl, inr, min, max,
}
use charport.Memory.{Mem, Ptr, null, is_null}
use charport.Interop.{cetype_na}
use charport.Sizes.{round_up, checked_u32, size_max, u32_max, check_r_string_len, r_string_size_max}
use charport.Sizes.Rounding.{round_up_lem}
use charport.Charvec.Store.{
  Allocator, RecordTable, checked_string_size, chain_is_empty, push_front, table_size, SliceChain,
}
use charport.Charvec.Builder.{
  Shard, next_slice_size, make_room, allocate_bytes, Placed, place_record, fill_record, copy_record,
  set_record, initial_slice_heuristic,
}
use charport.Charvec.Builder.Serial.{Builder, with_placed}
use charport.Charvec.Builder.Serial as Serial

next_slice_size-lt :
    (s : Shard) (len hint : ℕ) → len < 2 ^ 31 → next_slice_size s len hint ≤ u32_max
unfolding next_slice_size
next_slice_size-lt s len hint h =
    omega (arith, round_up_lem (max regular len) 64 (omega arith) (omega arith))
  where
    regular : ℕ
    regular =
        min (round_up (max (initial_slice_heuristic hint) (s.allocated_bytes / 2)) 64)
          (256 * 2 ^ 10)

-- An allocator whose slices never fail, and whose header leaves room for every slice.
pub record IsReliable (al : Allocator) : Type 0 where
  pub never_fails : (b n : ℕ) → al.slice_fails b n ≡ false
  pub header_le : al.slice_header ≤ 2 ^ 32

push_front_total :
    (al : Allocator) (m : Mem) (chain : SliceChain) (n : ℕ)
    → IsReliable al
    → n ≤ u32_max
    → (p : Mem × SliceChain) × (push_front al m chain n ≡ ok p)
unfolding push_front
push_front_total al m chain n rel h =
    let small : ltb (size_max - al.slice_header) n ≡ false = ground (arith, rel.header_le) in
    rw (small, rel.never_fails m.next n) (_, refl)

make_room_total :
    (al : Allocator) (m : Mem) (s : Shard) (len hint : ℕ)
    → IsReliable al
    → len < 2 ^ 31
    → (p : Mem × Shard) × (make_room al m s len hint ≡ ok p)
unfolding make_room checked_u32
make_room_total al m s len hint rel h =
    elim (Bool-cases (
      chain_is_empty s.slices
      || ltb ((s.current_slice_capacity + 2 ^ 32 - s.current_slice_used) % 2 ^ 32) len)) [
        | inr enough ↦ rw (make_room, enough) ((m, s), refl)
        | inl open_new ↦
            let fits : ltb u32_max (next_slice_size s len hint) ≡ false =
              ground (arith, next_slice_size-lt s len hint h) in
            let (p, pushed) =
              push_front_total al m s.slices (next_slice_size s len hint) rel
                (next_slice_size-lt s len hint h) in
            rw (make_room, open_new, fits, pushed) (_, refl)
      ]

place_record_total :
    (al : Allocator) (m : Mem) (s : Shard) (t : RecordTable) (i len enc : ℕ)
    → IsReliable al
    → len < 2 ^ 31
    → (p : Placed) × (place_record al m s t i len enc ≡ ok p)
unfolding place_record allocate_bytes
place_record_total al m s t i len enc rel h = elim (Bool-cases (enc == cetype_na)) [
  | inl na ↦ rw (place_record, na) (_, refl)
  | inr known ↦ elim (Bool-cases (len == 0)) [
    | inl empty ↦ rw (place_record, known, empty) (_, refl)
    | inr some_bytes ↦
        let (p, made) = make_room_total al m s len (table_size t) rel h in
        rw (place_record, known, some_bytes, made) (_, refl)
  ]
]

fill_record_total :
    (al : Allocator) (m : Mem) (s : Shard) (t : RecordTable) (i len enc : ℕ)
    → IsReliable al
    → i < table_size t
    → len < 2 ^ 31
    → (p : Placed) × (fill_record al m s t i len enc ≡ ok p)
unfolding fill_record checked_string_size check_r_string_len
fill_record_total al m s t i len enc rel hi h =
    let within : ltb i (table_size t) ≡ true = ground arith in
    let short : leb len r_string_size_max ≡ true = ground arith in
    rw (within, short) (place_record_total al m s t i len enc rel h)

pub copy_record_total :
    (al : Allocator) (m : Mem) (s : Shard) (t : RecordTable) (i : ℕ) (ptr : Ptr) (len enc : ℕ)
    → IsReliable al
    → i < table_size t
    → len < 2 ^ 31
    → (p : Placed) × (copy_record al m s t i ptr len enc ≡ ok p)
unfolding copy_record
copy_record_total al m s t i ptr len enc rel hi h =
    let (p, filled) = fill_record_total al m s t i len enc rel hi h in rw filled (_, refl)

-- Where slices can be allocated, setting a record of a builder succeeds at every index within the
-- vector, for a string no longer than R's longest.
pub set_total :
    (al : Allocator) (m : Mem) (b : Builder) (i : ℕ) (ptr : Ptr) (len enc : ℕ)
    → IsReliable al
    → i < table_size b.store.records
    → len < 2 ^ 31
    → (q : Mem × Builder) × (Serial.set al m b i ptr len enc ≡ ok q)
unfolding Serial.set with_placed set_record
set_total al m b i ptr len enc rel hi h = let (p, done) = set_record_total in rw done (_, refl)
  where
    set_record_total : (p : Placed) × (set_record al m b.shard b.store.records i ptr len enc ≡ ok p)
    set_record_total = elim (Bool-cases (is_null ptr || enc == cetype_na)) [
      | inl na ↦
          rw (set_record, na)
            (copy_record_total al m b.shard b.store.records i null 0 cetype_na rel hi (omega arith))
      | inr known ↦
          rw (set_record, known)
            (copy_record_total al m b.shard b.store.records i ptr len enc rel hi h)
    ]
