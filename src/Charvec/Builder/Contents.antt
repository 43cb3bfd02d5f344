-- ===== src/Charvec/Builder/Contents.antt =====
-- A builder as the list of strings that it holds.
use charport.Prelude.{
  ℕ, zero, suc, ◌+◌, ◌^◌, ◌≤◌, ◌<◌, ◌≡◌, refl, sym, ap, ◌∙◌, Bool, true, false, ◌||◌, List, [], ◌∷◌,
  length, All, map, replicate, arith, if◌then◌else◌, length-map, ok, >>=-eq-ok, ok-injective, some,
  none, ◌==◌, Bool-cases, inl, inr, err-ne-ok, not, length-replicate, ◌++◌, set, set-append,
  append_assoc, length-append,
}
use mathlib.Core.Path.{subst}
use charport.Memory.{Mem, Ptr, is_null, read}
use charport.Interop.{cetype_na, strview_is_na, xlen_is_negative, StrView}
use charport.Interop.Views.{Str, content}
use charport.Charvec.Store.{
  Allocator, na_record, new_table, new_store, reserve, empty_table, RecordTable, Store, na_loop,
}
use charport.Charvec.Builder.{Shard, fresh_shard, set_record}
use charport.Charvec.Builder.Serial.{Builder, new_builder, with_placed, checked_vector_size}
use charport.Charvec.Builder.Serial as Serial
use charport.Charvec.Builder.Shards.{IsShard, Settled}
use charport.Charvec.Builder.Records.{set_record-HoldsAt}

abbrev pub contents : Mem → Builder → List Str
contents m b = map (content m) b.store.records.rows

-- Its shard is well formed, and no record's bytes are in its free space.
abbrev pub IsBuilder : Mem → Builder → Type 0
IsBuilder m b = IsShard m b.shard × All (Settled m b.shard) b.store.records.rows

-- Setting a record of a well-formed builder, where it succeeds, is at an index within the vector,
-- leaves the builder well formed, and is the update of its list of strings at that index: with NA for
-- a null pointer or the NA tag, else with the bytes and encoding given.
pub set-contents :
    (al : Allocator) (m m' : Mem) (b b' : Builder) (i : ℕ) (ptr : Ptr) (len enc : ℕ)
    → IsBuilder m b
    → Serial.set al m b i ptr len enc ≡ ok (m', b')
    → (i < length (contents m b))
      × IsBuilder m' b'
      × (contents m' b'
          ≡ charport.Prelude.set
              (contents m b)
              i
              (if is_null ptr || enc == cetype_na then none else some (read m ptr len, enc)))
unfolding Serial.set with_placed
set-contents al m m' b b' i ptr len enc (sh, settled) h =
    let (p, done, h1) = >>=-eq-ok (set_record al m b.shard b.store.records i ptr len enc) _ h in
    let (within, st) =
      set_record-HoldsAt al m b.shard b.store.records i ptr len enc p sh settled done in
    let counted : i < length (contents m b) =
      omega (arith, length-map (content m) b.store.records.rows) in
    let (kept, updated) =
      subst
        (λ (q : Mem × Builder).
          IsBuilder q.0 q.1
          × (contents q.0 q.1
              ≡ charport.Prelude.set (contents m b) i
                  (if is_null ptr || enc == cetype_na then none else some (read m ptr len, enc))))
        (ok-injective h1) ((st.shard, st.settled), st.contents) in
    (counted, kept, updated)

pub na_rows :
    (m : Mem) (s : Shard) (n : ℕ)
    → All (Settled m s) (replicate n na_record)
      × (map (content m) (replicate n na_record) ≡ replicate n none)
unfolding content strview_is_na
na_rows m s zero = (tt, refl)
na_rows m s (suc n) = let (rows, same) = na_rows m s n in ((tt, rows), ap (λ t. none ∷ t) same)

na_loop-rows :
    (rest pre : List StrView) (t : RecordTable)
    → t.rows ≡ pre ++ rest
    → (na_loop (length rest) (length pre) t).rows ≡ pre ++ replicate (length rest) na_record
unfolding na_loop
na_loop-rows [] pre t e = e
na_loop-rows (v ∷ vs) pre t e =
    let next : RecordTable = record t { rows = set t.rows (length pre) na_record } in
    let put : next.rows ≡ (pre ++ (na_record ∷ [])) ++ vs =
      ap (λ rows. set rows (length pre) na_record) e
      ∙ set-append pre vs v na_record
      ∙ sym (append_assoc pre (na_record ∷ []) vs) in
    let place : length pre + 1 ≡ length (pre ++ (na_record ∷ [])) =
      omega (arith, length-append pre (na_record ∷ [])) in
    ap (λ k. (na_loop (length vs) k next).rows) place
    ∙ na_loop-rows vs (pre ++ (na_record ∷ [])) next put
    ∙ append_assoc pre (na_record ∷ []) (replicate (length vs) na_record)

pub new_table-eq_ok :
    (al : Allocator) (n : ℕ) {t : RecordTable}
    → new_table al n ≡ ok t
    → t.rows ≡ replicate n na_record
unfolding new_table
new_table-eq_ok al n h =
    let (t, reserved, h1) = >>=-eq-ok (reserve al empty_table n) _ h in
    let old : RecordTable = record t { rows = replicate n al.unset_row } in
    ap (λ t. t.rows) (sym (ok-injective h1))
    ∙ subst (λ k. (na_loop k 0 old).rows ≡ replicate k na_record) (length-replicate n al.unset_row)
        (na_loop-rows (replicate n al.unset_row) [] old refl)

checked_vector_size-eq_ok : (n : ℕ) {k : ℕ} → checked_vector_size n ≡ ok k → n ≡ k
unfolding checked_vector_size
checked_vector_size-eq_ok n h = elim (Bool-cases (xlen_is_negative n)) [
  | inl negative ↦ absurd (err-ne-ok (rw negative at h))
  | inr counted ↦ ok-injective (rw counted at h)
]

empty-IsBuilder :
    (m : Mem) (n : ℕ) (t : RecordTable)
    → 0 < m.next
    → t.rows ≡ replicate n na_record
    → IsBuilder m (record { store = record { slices = []; records = t }; shard = fresh_shard })
      × (contents m (record { store = record { slices = []; records = t }; shard = fresh_shard })
          ≡ replicate n none)
empty-IsBuilder m n t low e =
    let (rows, same) = na_rows m fresh_shard n in
    (
      (
        record { known = low; capacity_lem = refl; used_le = omega arith; bounded = omega arith },
        subst (All (Settled m fresh_shard)) (sym e) rows,
      ),
      ap (map (content m)) e ∙ same,
    )

-- A new builder, where it is made, is well formed and holds as many NAs as were asked for.
pub new_builder-contents :
    (al : Allocator) (m m' : Mem) (b : Builder) (n : ℕ)
    → 0 < m.next
    → new_builder al m n ≡ ok (m', b)
    → IsBuilder m' b × (contents m' b ≡ replicate n none)
unfolding new_builder new_store
new_builder-contents al m m' b n low h =
    let (size, counted, h1) = >>=-eq-ok (checked_vector_size n) _ h in
    let (made, stored, h2) = >>=-eq-ok (new_store al m size 0) _ h1 in
    let (t, table, h3) = >>=-eq-ok (new_table al size) _ stored in
    let rows =
      new_table-eq_ok al size table
      ∙ ap (λ k. replicate k na_record) (sym (checked_vector_size-eq_ok n counted)) in
    subst (λ (q : Mem × Builder). IsBuilder q.0 q.1 × (contents q.0 q.1 ≡ replicate n none))
      (ap (λ (q : Mem × Store). (q.0, record { store = q.1; shard = fresh_shard }))
          (ok-injective h3)
        ∙ ok-injective h2)
      (empty-IsBuilder m n t low rows)
