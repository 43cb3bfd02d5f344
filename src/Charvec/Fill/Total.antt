-- ===== src/Charvec/Fill/Total.antt =====
-- When a store can be built.
use charport.Interop.Views.{content}
use charport.Charvec.Fill.Loops.{set_strview-Advances, kept_views}
use charport.Charvec.Builder.Shards.{Settled}
use charport.Charvec.Builder.Contents.{IsBuilder, contents}
use charport.Charvec.Builder.Total.{IsReliable, copy_record_total}
use charport.Memory.{Mem, null, is_null}
use charport.Charvec.Builder.{set_view, set_record}
use charport.Prelude.{
  inr, inl, ℕ, ◌≡◌, false, true, List, ◌≤◌, ◌⊎◌, ◌<◌, All, ◌^◌, ok, ◌+◌, length, arith, ltb,
  Bool-cases, leb, sym, length-map, ◌∙◌, ap, length-set, [], refl, ◌||◌, ◌==◌,
}
use charport.Charvec.Fill.{◌∷◌, set_views}
use charport.Charvec.Builder.Serial.{
  set_strview, new_builder, checked_vector_size, Builder, with_placed,
}
use charport.Interop.{StrView, strview_is_na, size_of_int, xlen_is_negative, cetype_na}
use charport.Charvec.Store.{Allocator, new_store, new_table, table_size}

-- An allocator of which no call fails, for a table of `n` records.
pub record Serves (al : Allocator) (n : ℕ) : Type 0 where
  pub slices : IsReliable al
  pub tables : (k : ℕ) → al.table_fails k ≡ false
  pub bounded : n ≤ al.max_capacity

-- A string that R can hold, or NA.
abbrev pub IsShort : StrView → Type 0
IsShort v = (strview_is_na v ≡ true) ⊎ (size_of_int v.len < 2 ^ 31)

set_view_total :
    (al : Allocator) (m : Mem) (b : Builder) (i : ℕ) (v : StrView)
    → IsReliable al
    → i < table_size b.store.records
    → IsShort v
    → (q : Mem × Builder) × (set_strview al m b i v ≡ ok q)
unfolding set_strview set_view set_record with_placed
set_view_total al m b i v rel hi short = elim (Bool-cases (strview_is_na v)) [
  | inl na ↦
      let (p, done) =
        copy_record_total al m b.shard b.store.records i null 0 cetype_na rel hi (omega arith) in
      rw (na, done) (_, refl)
  | inr known ↦
      let here : (is_null v.ptr || v.enc == cetype_na) ≡ false =
        unfold strview_is_na in ground (arith, known) in
      let bound : size_of_int v.len < 2 ^ 31 = elim short [
        | inl na ↦ absurd (true-ne-false (sym na ∙ known))
        | inr n ↦ n
      ] in
      let (p, done) =
        copy_record_total al m b.shard b.store.records i v.ptr (size_of_int v.len) v.enc rel hi
          bound in
      rw (known, here, done) (_, refl)
]
  where
    true-ne-false : true ≡ false → ⊥
    true-ne-false e = ground (arith, e)

-- A loop of `set` over short strings runs to its end.
pub set_views_total :
    (al : Allocator) (m : Mem) (b : Builder) (i : ℕ) (vs : List StrView)
    → IsReliable al
    → IsBuilder m b
    → All (Settled m b.shard) vs
    → All IsShort vs
    → i + length vs ≤ table_size b.store.records
    → (q : Mem × Builder) × (set_views al m b i vs ≡ ok q)
unfolding set_views
set_views_total al m b i [] rel whole settled short room = ((m, b), refl)
set_views_total al m b i (v ∷ vs) rel whole (own, settled) (first, short) room =
    let (q, one) = set_view_total al m b i v rel (omega arith) first in
    let st = set_strview-Advances al m q.0 b q.1 i v whole one in
    let (still, same) = kept_views m q.0 b.shard q.1.shard vs st.kept settled in
    let grown : table_size q.1.store.records ≡ table_size b.store.records =
      sym (length-map (content q.0) q.1.store.records.rows)
      ∙ ap length st.strings
      ∙ length-set (contents m b) i (content m v)
      ∙ length-map (content m) b.store.records.rows in
    let (p, rest) =
      set_views_total al q.0 q.1 (i + 1) vs rel st.whole still short (omega (arith, grown)) in
    rw one (p, rest)

pub new_builder_total :
    (al : Allocator) (m : Mem) (n : ℕ)
    → Serves al n
    → n < 2 ^ 63
    → (q : Mem × Builder) × (new_builder al m n ≡ ok q)
unfolding new_builder checked_vector_size new_store new_table charport.Charvec.Store.reserve
new_builder_total al m n serves small =
    let counted : xlen_is_negative n ≡ false = ground arith in
    let within : ltb al.max_capacity n ≡ false = ground (arith, serves.bounded) in
    elim (Bool-cases (leb n 0)) [
      | inl nothing ↦ rw (counted, nothing) (_, refl)
      | inr some_rows ↦ rw (counted, some_rows, within, serves.tables n) (_, refl)
    ]
