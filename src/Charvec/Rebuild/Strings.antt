-- ===== src/Charvec/Rebuild/Strings.antt =====
-- rebuild_store, block after block.
use charport.Charvec.Builder.Contents.{new_table-eq_ok, na_rows}
use charport.Charvec.Fill.Loops.{kept_views}
use charport.Charvec.Rebuild.Contents.{Filled, fill_empty-Filled, text_short, fill_block-Filled}
use charport.Sizes.{u32_max}
use charport.Charvec.Builder.Storing.{content-eq, read-cell}
use charport.Charvec.Fill.Whole.{Given, strings_of}
use charport.Charvec.Rebuild.Blocks.{Packed, measure-sum_len}
use charport.Charvec.Builder.Shards.{Settled, HasRoom, front_block, opened_room, push_front-eq_ok}
use charport.Interop.Views.{Str, content}
use charport.Interop.{StrView, strview_is_na}
use charport.Prelude.{
  inl, inr, ℕ, List, ◌<◌, All, ◌∷◌, length, ◌≡◌, ltb, ◌≤◌, ok, ◌-◌, ◌++◌, map, arith, false,
  ok-injective, >>=-eq-ok, ◌∙◌, Bool-cases, ap, [], sym, refl, ◌==◌, leb, ◌+◌, ◌^◌, length-map,
  take, length-append, length-take, drop, length-drop, append_assoc, take-append-drop, zero,
}
use charport.Charvec.Store.{
  Allocator, new_store, RecordTable, Store, table_size, new_table, push_front, SliceChain,
  front_data,
}
use charport.Charvec.Builder.{Shard, fresh_shard}
use charport.Charvec.Rebuild.{
  suc, rebuild_block, measure, rebuild_loop, rebuild_store, record_len, block_step, fill_block,
}
use charport.Memory.{Mem}
use mathlib.Core.Path.{subst}

-- A new slice, before it is filled.
opened-Packed :
    (m m1 : Mem) (s s1 : Shard) (t : RecordTable) (vs : List StrView) (cs done : List Str)
    → HasRoom m m1 s s1 0
    → Packed m s t vs cs done
    → Packed m1 s1 t vs cs done
opened-Packed m m1 s s1 t vs cs done room pk =
    let kept : (v : StrView) → Settled m s v → Settled m1 s1 v × (content m1 v ≡ content m v) =
      λ v h. (
        room.stay v h,
        content-eq m m1 m.next (front_block s.slices) s.current_slice_used v h
            (read-cell m m1 v.ptr v.len room.same),
      ) in
    let (settled, same_rows) = kept_views m m1 s s1 t.rows kept pk.settled in
    let (source, same) = kept_views m m1 s s1 vs kept pk.source in
    record {
      shard = room.shard;
      settled = settled;
      source = source;
      same = same ∙ pk.same;
      strings = same_rows ∙ pk.strings;
    }

rebuild_block-Filled :
    (al : Allocator) (m m' : Mem) (s : Shard) (out out' : Store) (vs : List StrView)
    (cs done : List Str)
    → Packed m s out.records vs cs done
    → rebuild_block al m out (length done) vs ≡ ok (m', out')
    → Filled m' out'.records (measure vs 0).0 vs cs done
unfolding rebuild_block
rebuild_block-Filled al m m' s out out' vs cs done pk h =
    let n : ℕ = (measure vs 0).0 in
    let cap : ℕ = (measure vs 0).1 in
    let (sum, few, small) = measure-sum_len vs 0 (omega arith) in
    elim (Bool-cases (ltb 0 cap)) [
      | inr none_left ↦
          subst (λ (q : Mem × Store). Filled q.0 q.1.records n vs cs done)
            (ok-injective (rw (rebuild_block, none_left) at h))
            (fill_empty-Filled m s out.records n vs cs done few (ground (arith, sum, none_left)) pk)
      | inl some_bytes ↦
          let (placed, pushed, h1) =
            >>=-eq-ok (push_front al m out.slices cap) _ (rw (rebuild_block, some_bytes) at h) in
          let m1 : Mem = record m { next = m.next + 1 } in
          let s1 : Shard = record s {
            slices = record { block = m.next; size = cap } ∷ s.slices;
            current_slice_used = 0;
            current_slice_capacity = cap;
          } in
          let room = opened_room m s 0 cap pk.shard (omega arith) (omega (arith, small)) in
          subst (λ (q : Mem × Store). Filled q.0 q.1.records n vs cs done)
            (ap
                (λ (p : Mem × SliceChain). (
                  (fill_block p.0 out.records (length done) n vs (front_data p.1)).0,
                  record {
                    slices = p.1;
                    records = (fill_block p.0 out.records (length done) n vs (front_data p.1)).1;
                  },
                ))
                (push_front-eq_ok al m out.slices cap pushed)
              ∙ ok-injective h1)
            (unfold front_data in
              fill_block-Filled m1 s1 out.records n vs cs done refl few (omega (arith, sum))
                (opened-Packed m m1 s s1 out.records vs cs done room pk))
    ]

-- The first record always fits a block.
measure-pos :
    (m : Mem) (s : Shard) (v : StrView) (vs : List StrView)
    → Settled m s v
    → 0 < (measure (v ∷ vs) 0).0
unfolding measure
measure-pos m s v vs settled =
    let fits : ltb (u32_max - 0) (record_len v) ≡ false = by_na in rw fits (omega arith)
  where
    by_na : ltb (u32_max - 0) (record_len v) ≡ false
    by_na = elim (Bool-cases (strview_is_na v)) [
      | inl na ↦ rw na (ground arith)
      | inr known ↦
          let short = text_short m s v settled known in
          let nonneg : leb (2 ^ 31) v.len ≡ false = ground arith in
          rw (known, nonneg) (ground arith)
    ]

rebuild_loop-strings :
    (fuel : ℕ) (al : Allocator) (m m' : Mem) (s : Shard) (out out' : Store) (vs : List StrView)
    (cs done : List Str)
    → length vs ≤ fuel
    → Packed m s out.records vs cs done
    → rebuild_loop fuel al m out (length done) vs ≡ ok (m', out')
    → strings_of m' out' ≡ done ++ cs
unfolding rebuild_loop
rebuild_loop-strings fuel al m m' s out out' [] cs done enough pk h =
    subst (λ (q : Mem × Store). strings_of q.0 q.1 ≡ done ++ cs) (ok-injective h)
      (pk.strings ∙ ap (λ x. done ++ x) pk.same)
rebuild_loop-strings zero al m m' s out out' (v ∷ vs) cs done enough pk h = absurd (omega arith)
rebuild_loop-strings (suc fuel) al m m' s out out' (v ∷ vs) cs done enough pk h =
    let n : ℕ = (measure (v ∷ vs) 0).0 in
    let (q, one, h1) = >>=-eq-ok (rebuild_block al m out (length done) (v ∷ vs)) _ h in
    let f = rebuild_block-Filled al m q.0 s out q.1 (v ∷ vs) cs done pk one in
    let (sum, few, small) = measure-sum_len (v ∷ vs) 0 (omega arith) in
    let pos = measure-pos m s v vs pk.source.0 in
    let one_at_least : (n == 0) ≡ false = ground arith in
    let step : block_step n ≡ n = rw one_at_least refl in
    let counted : length (v ∷ vs) ≡ length cs =
      sym (length-map (content m) (v ∷ vs)) ∙ ap length pk.same in
    let index : length done + block_step n ≡ length (done ++ take n cs) =
      omega (arith, length-append done (take n cs), length-take n cs, counted, few, step) in
    rebuild_loop-strings fuel al q.0 m' f.shard q.1 out' (drop n (v ∷ vs)) (drop n cs)
      (done ++ take n cs) (omega (arith, length-drop n (v ∷ vs), pos, enough)) f.packed
      (subst (λ k. rebuild_loop fuel al q.0 q.1 k (drop n (v ∷ vs)) ≡ ok (m', out')) index
        (subst
          (λ k.
            rebuild_loop fuel al q.0 q.1 (length done + block_step n) (drop k (v ∷ vs))
            ≡ ok (m', out'))
          step h1))
    ∙ append_assoc done (take n cs) (drop n cs)
    ∙ ap (λ x. done ++ x) (take-append-drop n cs)

-- A store rebuilt from a table, where memory does not run out, holds the strings of the table in their
-- order: every block of the loop packs what it measured, and the loop reaches the end.
pub rebuild_store-strings :
    (al : Allocator) (m m' : Mem) (source : RecordTable) (st : Store)
    → 0 < m.next
    → All (Given m) source.rows
    → rebuild_store al m source ≡ ok (m', st)
    → strings_of m' st ≡ map (content m) source.rows
unfolding rebuild_store new_store
rebuild_store-strings al m m' source st low given h =
    let (q, made, h1) = >>=-eq-ok (new_store al m (table_size source) 0) _ h in
    let (t, table, h2) = >>=-eq-ok (new_table al (table_size source)) _ made in
    let rows = new_table-eq_ok al (table_size source) table in
    let (settled, nas) = na_rows m fresh_shard (table_size source) in
    let e : (m, record { slices = []; records = t }) ≡ q = ok-injective h2 in
    rebuild_loop-strings (table_size source) al m m' fresh_shard
      (record { slices = []; records = t }) st source.rows (map (content m) source.rows) []
      (omega arith)
      (record {
        shard = record {
          known = low;
          capacity_lem = refl;
          used_le = omega arith;
          bounded = omega arith;
        };
        settled = subst (All (Settled m fresh_shard)) (sym rows) settled;
        source = given;
        same = refl;
        strings = ap (map (content m)) rows ∙ nas;
      })
      (subst
        (λ (p : Mem × Store).
          rebuild_loop (table_size source) al p.0 p.1 0 source.rows ≡ ok (m', st))
        (sym e) h1)
