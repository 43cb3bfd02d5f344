-- ===== src/Charvec/Rebuild/Blocks.antt =====
-- One block of a rebuild: a slice that is filled from its start. The place where it is filled is that
-- of a shard, whose free space the records placed before and the source's rows are out of.
use native.Mathlib.Numerals.{add-one}
use charport.Memory.Laws.{read_zero}
use charport.Charvec.Fill.Loops.{kept_views}
use charport.Charvec.Builder.Records.{HoldsAt, set_unplaced}
use charport.Sizes.{u32_max}
use charport.Charvec.Builder.Shards.{IsShard, Settled}
use charport.Charvec.Store.{empty_data, RecordTable, empty_record, set_row}
use charport.Interop.{StrView, strview_is_na, cetype_na}
use charport.Charvec.Builder.{Shard, Placed}
use charport.Interop.Views.{Str, content}
use charport.Memory.{Mem, read}
use charport.Charvec.Rebuild.{suc, measure, record_len}
use charport.Prelude.{
  inl, ℕ, List, ◌∷◌, ◌≤◌, ◌≡◌, All, none, false, ◌+◌, length, ◌++◌, arith, map, [], ◌==◌,
  Bool-cases, replicate, ◌∙◌, ltb, ap, sym, leb, ◌-◌, set, append_assoc, ◌^◌, some, zero, inr,
  set-append,
}
use mathlib.Core.Path.{subst}

-- The bytes of the first `n` records.
unfoldable pub sum_len : ℕ → List StrView → ℕ
sum_len zero vs = 0
sum_len (suc n) [] = 0
sum_len (suc n) (v ∷ vs) = record_len v + sum_len n vs

pub measure-sum_len :
    (vs : List StrView) (acc : ℕ)
    → acc ≤ u32_max
    → ((measure vs acc).1 ≡ acc + sum_len (measure vs acc).0 vs)
      × ((measure vs acc).0 ≤ length vs)
      × ((measure vs acc).1 ≤ u32_max)
unfolding measure sum_len
measure-sum_len [] acc h = (omega arith, omega arith, h)
measure-sum_len (v ∷ vs) acc h = elim (Bool-cases (ltb (u32_max - acc) (record_len v))) [
  | inl over ↦ rw over (omega arith, omega arith, h)
  | inr fits ↦
      let within : acc + record_len v ≤ u32_max = ground (arith, h, fits) in
      let (sum, few, small) = measure-sum_len vs (acc + record_len v) within in
      rw (fits, add-one) (omega (arith, sum), omega (arith, few), small)
]

-- A table of which the strings of `done` are there and those of the rows `vs` are to come.
pub record Packed (m : Mem) (s : Shard) (t : RecordTable) (vs : List StrView) (cs done : List Str)
    : Type 0 where
  pub shard : IsShard m s
  pub settled : All (Settled m s) t.rows
  pub source : All (Settled m s) vs
  pub same : map (content m) vs ≡ cs
  pub strings : map (content m) t.rows ≡ done ++ replicate (length vs) none

-- The next record was set.
pub set-Packed :
    (m : Mem) (s : Shard) (t : RecordTable) (v : StrView) (vs : List StrView) (c : Str)
    (cs done : List Str) (p : Placed)
    → Packed m s t (v ∷ vs) (c ∷ cs) done
    → HoldsAt m s t (length done) c p
    → Packed p.mem p.shard p.records vs cs (done ++ (c ∷ []))
set-Packed m s t v vs c cs done p pk st =
    let (still, same) = kept_views m p.mem s p.shard vs st.kept pk.source.1 in
    record {
      shard = st.shard;
      settled = st.settled;
      source = still;
      same = same ∙ tail-eq pk.same;
      strings =
          st.contents
          ∙ ap (λ xs. set xs (length done) c) pk.strings
          ∙ set-append done (replicate (length vs) none) none c
          ∙ sym (append_assoc done (c ∷ []) (replicate (length vs) none));
    }
  where
    tail-eq : {x y : Str} {xs ys : List Str} → (x ∷ xs) ≡ (y ∷ ys) → xs ≡ ys
    tail-eq e = cc

-- The next record is NA, and so is its row.
pub skip-Packed :
    (m : Mem) (s : Shard) (t : RecordTable) (v : StrView) (vs : List StrView) (c : Str)
    (cs done : List Str)
    → Packed m s t (v ∷ vs) (c ∷ cs) done
    → c ≡ none
    → Packed m s t vs cs (done ++ (c ∷ []))
skip-Packed m s t v vs c cs done pk e = record {
  shard = pk.shard;
  settled = pk.settled;
  source = pk.source.1;
  same = tail-eq pk.same;
  strings =
      pk.strings
      ∙ sym (append_assoc done (none ∷ []) (replicate (length vs) none))
      ∙ ap (λ x. (done ++ (x ∷ [])) ++ replicate (length vs) none) (sym e);
}
  where
    tail-eq : {x y : Str} {xs ys : List Str} → (x ∷ xs) ≡ (y ∷ ys) → xs ≡ ys
    tail-eq e = cc

pub head-eq : {x y : Str} {xs ys : List Str} → (x ∷ xs) ≡ (y ∷ ys) → x ≡ y
head-eq e = cc

content-empty :
    (m : Mem) (v : StrView)
    → strview_is_na v ≡ false
    → v.len ≡ 0
    → content m (empty_record v.enc) ≡ content m v
unfolding content strview_is_na
content-empty m v known z =
    let tag : (v.enc == cetype_na) ≡ false = ground (arith, known) in
    let nonneg : leb (2 ^ 31) v.len ≡ false = ground arith in
    rw (known, nonneg)
      (rw tag (
        ap (λ xs. some (xs, v.enc))
          (read_zero m empty_data ∙ sym (read_zero m v.ptr) ∙ ap (read m v.ptr) (sym z))))

-- An empty string needs no memory.
pub empty-Packed :
    (m : Mem) (s : Shard) (t : RecordTable) (v : StrView) (vs : List StrView) (c : Str)
    (cs done : List Str)
    → Packed m s t (v ∷ vs) (c ∷ cs) done
    → strview_is_na v ≡ false
    → v.len ≡ 0
    → Packed m s (set_row t (length done) (empty_record v.enc)) vs cs (done ++ (c ∷ []))
empty-Packed m s t v vs c cs done pk known z =
    set-Packed m s t v vs c cs done
      (record {
        dest = empty_data;
        mem = m;
        shard = s;
        records = set_row t (length done) (empty_record v.enc);
      })
      pk
      (subst
        (λ x. HoldsAt m s t (length done) x (record {
          dest = empty_data;
          mem = m;
          shard = s;
          records = set_row t (length done) (empty_record v.enc);
        }))
        (content-empty m v known z ∙ head-eq pk.same)
        (set_unplaced m s t (length done) empty_data (empty_record v.enc) pk.shard pk.settled
          (omega (arith, pk.shard.known), omega arith, inr (omega arith))))
