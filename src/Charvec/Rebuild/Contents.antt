-- ===== src/Charvec/Rebuild/Contents.antt =====
-- A rebuilt store holds the strings of its source.
use charport.Charvec.Builder.Storing.{Stored-in_room}
use charport.Charvec.Builder.Records.{HoldsAt, set_row-Stored}
use charport.Charvec.Builder.Shards.{Settled, front_block, SettledAt}
use charport.Charvec.Rebuild.Blocks.{
  sum_len, Packed, skip-Packed, head-eq, set-Packed, empty-Packed,
}
use charport.Interop.{StrView, strview_is_na, make_strview, size_of_int}
use charport.Charvec.Builder.{Shard, take_bytes, Placed}
use charport.Charvec.Store.{RecordTable, front_data, set_row, empty_record}
use charport.Charvec.Rebuild.{fill_empty, fill_block, record_len}
use charport.Prelude.{
  inr, inl, List, ℕ, length, drop, sym, ◌++◌, ◌≡◌, ◌+◌, ◌≤◌, take, append-nil, ◌∷◌, true, [], none,
  suc, arith, refl, append_assoc, length-append, Bool-cases, false, ◌<◌, ◌∙◌, ◌^◌, some, leb, ◌==◌,
  ◌%◌, zero,
}
use charport.Interop.Views.{content, Str, length-read_ptr}
use charport.Memory.{Mem, at, Ptr, write, read, is_null, null}
use mathlib.Core.Path.{subst}

-- Where the next `n` records were placed.
pub record Filled (m : Mem) (t : RecordTable) (n : ℕ) (vs : List StrView) (cs done : List Str)
    : Type 0 where
  pub shard : Shard
  pub packed : Packed m shard t (drop n vs) (drop n cs) (done ++ take n cs)

abbrev FilledBy : Mem × RecordTable → ℕ → List StrView → List Str → List Str → Type 0
FilledBy q n vs cs done = Filled q.0 q.1 n vs cs done

done_nil :
    (m : Mem) (s : Shard) (t : RecordTable) (vs : List StrView) (cs done : List Str)
    → Packed m s t vs cs done
    → Filled m t 0 vs cs done
done_nil m s t vs cs done pk = record {
  shard = s;
  packed = subst (Packed m s t vs cs) (sym (append-nil done)) pk;
}

-- Of `n` records, one was placed before the others.
after_one :
    (m : Mem) (t : RecordTable) (n : ℕ) (v : StrView) (vs : List StrView) (c : Str)
    (cs done : List Str)
    → Filled m t n vs cs (done ++ (c ∷ []))
    → Filled m t (suc n) (v ∷ vs) (c ∷ cs) done
after_one m t n v vs c cs done f = record {
  shard = f.shard;
  packed =
      subst (Packed m f.shard t (drop n vs) (drop n cs)) (append_assoc done (c ∷ []) (take n cs))
        f.packed;
}

na_string_of : (m : Mem) (v : StrView) → strview_is_na v ≡ true → content m v ≡ none
unfolding content
na_string_of m v na = rw na refl

next_done : (done : List Str) (c : Str) → length done + 1 ≡ length (done ++ (c ∷ []))
next_done done c = omega (arith, length-append done (c ∷ []))

-- A block without bytes.
pub fill_empty-Filled :
    (m : Mem) (s : Shard) (t : RecordTable) (n : ℕ) (vs : List StrView) (cs done : List Str)
    → n ≤ length vs
    → sum_len n vs ≡ 0
    → Packed m s t vs cs done
    → Filled m (fill_empty t (length done) n vs) n vs cs done
unfolding fill_empty sum_len
fill_empty-Filled m s t zero vs cs done few none_left pk = done_nil m s t vs cs done pk
fill_empty-Filled m s t (suc n) [] cs done few none_left pk = absurd (omega arith)
fill_empty-Filled m s t (suc n) (v ∷ vs) [] done few none_left pk = absurd (cons-ne-nil pk.same)
  where
    cons-ne-nil : {x : Str} {xs : List Str} → (x ∷ xs) ≡ [] → ⊥
    cons-ne-nil e = cc
fill_empty-Filled m s t (suc n) (v ∷ vs) (c ∷ cs) done few none_left pk =
    elim (Bool-cases (strview_is_na v)) [
      | inl na ↦ rw na (
          after_one m _ n v vs c cs done (
            subst (λ k. Filled m (fill_empty t k n vs) n vs cs (done ++ (c ∷ [])))
              (sym (next_done done c))
              (fill_empty-Filled m s t n vs cs (done ++ (c ∷ [])) (omega arith) (omega arith) (
                skip-Packed m s t v vs c cs done pk
                  (sym (head-eq pk.same) ∙ na_string_of m v na)))))
      | inr known ↦
          let sized : size_of_int v.len ≡ 0 = ground (arith, known, none_left) in
          let z : v.len ≡ 0 = ground arith in
          let zb : (v.len == 0) ≡ true = ground arith in
          rw (known, zb)
            (after_one m _ n v vs c cs done (
              subst
                (λ k.
                  Filled m (fill_empty (set_row t (length done) (empty_record v.enc)) k n vs) n vs
                    cs (done ++ (c ∷ [])))
                (sym (next_done done c))
                (fill_empty-Filled m s (set_row t (length done) (empty_record v.enc)) n vs cs
                  (done ++ (c ∷ [])) (omega arith) (omega arith)
                  (empty-Packed m s t v vs c cs done pk known z))))
    ]

pub text_short :
    (m : Mem) (s : Shard) (v : StrView) → Settled m s v → strview_is_na v ≡ false → v.len < 2 ^ 31
text_short m s v settled known =
    by_ptr v.ptr settled (unfold strview_is_na in ground (arith, known))
  where
    by_ptr :
        (p : Ptr)
        → SettledAt m.next (front_block s.slices) s.current_slice_used p v.len
        → is_null p ≡ false
        → v.len < 2 ^ 31
    by_ptr null h e = cc
    by_ptr (at b o) h e = h.1

text_string :
    (m : Mem) (v : StrView)
    → strview_is_na v ≡ false
    → v.len < 2 ^ 31
    → content m v ≡ some (read m v.ptr v.len, v.enc)
unfolding content
text_string m v known short =
    let nonneg : leb (2 ^ 31) v.len ≡ false = ground arith in rw (known, nonneg) refl

-- The next record's bytes go to the free space.
text-Packed :
    (m : Mem) (s : Shard) (t : RecordTable) (v : StrView) (vs : List StrView) (c : Str)
    (cs done : List Str)
    → front_data s.slices ≡ at (front_block s.slices) 0
    → s.current_slice_used + v.len ≤ s.current_slice_capacity
    → strview_is_na v ≡ false
    → v.len < 2 ^ 31
    → Packed m s t (v ∷ vs) (c ∷ cs) done
    → Packed
        (write m (at (front_block s.slices) s.current_slice_used) (read m v.ptr v.len))
        (take_bytes s v.len)
        (set_row t
          (length done)
          (make_strview (at (front_block s.slices) s.current_slice_used) v.len v.enc))
        vs
        cs
        (done ++ (c ∷ []))
text-Packed m s t v vs c cs done front room known short pk =
    set-Packed m s t v vs c cs done (placed v.len) pk (
      subst (λ x. HoldsAt m s t (length done) x (placed v.len))
        (sym (text_string m v known short) ∙ head-eq pk.same)
        (subst (λ n. HoldsAt m s t (length done) (some (bytes, v.enc)) (placed n)) counted
          (set_row-Stored m (write m dest bytes) s (take_bytes s (length bytes)) t (length done)
            v.enc dest bytes pk.settled (omega (arith, counted))
            (unfold strview_is_na in ground (arith, known))
            (Stored-in_room m m s s bytes (omega (arith, counted)) (record {
              shard = pk.shard;
              same = refl;
              room = omega (arith, counted);
              front = front;
              grown = omega arith;
              stay = λ w h. h;
            })))))
  where
    dest : Ptr
    dest = at (front_block s.slices) s.current_slice_used

    bytes : List ℕ
    bytes = read m v.ptr v.len

    placed : ℕ → Placed
    placed n = record {
      dest = dest;
      mem = write m dest bytes;
      shard = take_bytes s n;
      records = set_row t (length done) (make_strview dest n v.enc);
    }

    counted : length bytes ≡ v.len
    counted = length-read_ptr m v.ptr v.len (unfold strview_is_na in ground (arith, known))

-- A block with bytes, which its slice has room for.
pub fill_block-Filled :
    (m : Mem) (s : Shard) (t : RecordTable) (n : ℕ) (vs : List StrView) (cs done : List Str)
    → front_data s.slices ≡ at (front_block s.slices) 0
    → n ≤ length vs
    → s.current_slice_used + sum_len n vs ≤ s.current_slice_capacity
    → Packed m s t vs cs done
    → Filled
        (fill_block m t (length done) n vs (at (front_block s.slices) s.current_slice_used)).0
        (fill_block m t (length done) n vs (at (front_block s.slices) s.current_slice_used)).1
        n
        vs
        cs
        done
unfolding fill_block sum_len take_bytes
fill_block-Filled m s t zero vs cs done front few room pk = done_nil m s t vs cs done pk
fill_block-Filled m s t (suc n) [] cs done front few room pk = absurd (omega arith)
fill_block-Filled m s t (suc n) (v ∷ vs) [] done front few room pk = absurd (cons-ne-nil pk.same)
  where
    cons-ne-nil : {x : Str} {xs : List Str} → (x ∷ xs) ≡ [] → ⊥
    cons-ne-nil e = cc
fill_block-Filled m s t (suc n) (v ∷ vs) (c ∷ cs) done front few room pk =
    elim (Bool-cases (strview_is_na v)) [
      | inl na ↦ rw na (
          after_one _ _ n v vs c cs done (
            subst (λ k. FilledBy (fill_block m t k n vs dest) n vs cs (done ++ (c ∷ [])))
              (sym (next_done done c))
              (fill_block-Filled m s t n vs cs (done ++ (c ∷ [])) front (omega arith)
                (ground (arith, room))
                (skip-Packed m s t v vs c cs done pk
                  (sym (head-eq pk.same) ∙ na_string_of m v na)))))
      | inr known ↦
          let short = text_short m s v pk.source.0 known in
          elim (Bool-cases (v.len == 0)) [
            | inl empty ↦
                rw (known, empty)
                  (after_one _ _ n v vs c cs done (
                    subst
                      (λ k.
                        FilledBy
                          (fill_block m (set_row t (length done) (empty_record v.enc)) k n vs dest)
                          n vs cs (done ++ (c ∷ [])))
                      (sym (next_done done c))
                      (fill_block-Filled m s (set_row t (length done) (empty_record v.enc)) n vs cs
                        (done ++ (c ∷ [])) front (omega arith) (ground (arith, room))
                        (empty-Packed m s t v vs c cs done pk known (ground arith)))))
            | inr some_bytes ↦
                let nonneg : leb (2 ^ 31) v.len ≡ false = ground arith in
                let sized : record_len v ≡ v.len = rw (known, nonneg) refl in
                let used : (s.current_slice_used + v.len) % 2 ^ 32 ≡ s.current_slice_used + v.len =
                  omega (arith, room, sized, pk.shard.bounded) in
                let m1 : Mem = write m dest (read m v.ptr v.len) in
                let t1 : RecordTable = set_row t (length done) (make_strview dest v.len v.enc) in
                rw (known, some_bytes, nonneg)
                  (after_one _ _ n v vs c cs done (
                    subst
                      (λ k.
                        FilledBy
                          (fill_block m1 t1 k n vs
                            (at (front_block s.slices) (s.current_slice_used + v.len)))
                          n vs cs (done ++ (c ∷ [])))
                      (sym (next_done done c))
                      (subst
                        (λ o.
                          FilledBy
                            (fill_block m1 t1 (length (done ++ (c ∷ []))) n vs
                              (at (front_block s.slices) o))
                            n vs cs (done ++ (c ∷ [])))
                        used
                        (fill_block-Filled m1 (take_bytes s v.len) t1 n vs cs (done ++ (c ∷ []))
                          front (omega arith) (omega (arith, room, sized, used))
                          (text-Packed m s t v vs c cs done front (omega (arith, room, sized)) known
                            short pk)))))
          ]
    ]
  where
    dest : Ptr
    dest = at (front_block s.slices) s.current_slice_used
