-- ===== src/Charvec/Builder/Growable/Append.antt =====
-- Appending to a builder is appending to its list of strings.
use charport.Sizes.{check_r_string_len, r_string_size_max}
use charport.Memory.Laws.{read_zero, length-read}
use charport.Charvec.Builder.Records.{content_of_stored}
use charport.Charvec.Builder.Storing.{Stored, allocate_bytes-Stored, read-cell}
use charport.Interop.{StrView, strview_is_na, cetype_na, make_strview}
use charport.Interop.Views.{Str, content}
use charport.Charvec.Builder.{empty_data, at, err, Shard, allocate_bytes}
use charport.Charvec.Builder.Shards.{IsShard, Settled}
use charport.Prelude.{
  inr, inl, List, All, map, ◌≡◌, ok, ◌++◌, Bool-cases, ◌∷◌, ltb, [], refl, ℕ, ap, leb, ok-injective,
  err-ne-ok, Result, length, ◌<◌, ◌^◌, ◌==◌, false, some, ◌∙◌, arith, sym, true, if◌then◌else◌,
  length_error, ◌||◌, none, string_too_long,
}
use charport.Charvec.Store.{
  reserve, reserve_for_append, Allocator, RecordTable, table_size, push_back_reserved, empty_record,
  checked_string_size, na_record,
}
use charport.Memory.{null, Mem, Ptr, write, read, is_null}
use mathlib.Core.Path.{subst, ap₂}
use charport.Charvec.Builder.Growable.{
  GrowableBuilder, place_append, with_table, copy_reserved, append_at, append_reserve, append,
  mem_of, append_reserved,
}

abbrev pub grown : Mem → GrowableBuilder → List Str
grown m b = map (content m) b.store.records.rows

abbrev pub IsGrowable : Mem → GrowableBuilder → Type 0
IsGrowable m b = IsShard m b.shard × All (Settled m b.shard) b.store.records.rows

append_row :
    (m m' : Mem) (s s' : Shard) (rows : List StrView) (v : StrView)
    → ((w : StrView) → Settled m s w → Settled m' s' w × (content m' w ≡ content m w))
    → All (Settled m s) rows
    → Settled m' s' v
    → All (Settled m' s') (rows ++ (v ∷ []))
      × (map (content m') (rows ++ (v ∷ [])) ≡ map (content m) rows ++ (content m' v ∷ []))
append_row m m' s s' [] v kept settled own = ((own, tt), refl)
append_row m m' s s' (w ∷ rows) v kept (first, settled) own =
    let (there, same) = kept w first in
    let (rest, strings) = append_row m m' s s' rows v kept settled own in
    ((there, rest), ap₂ (λ c cs. c ∷ cs) same strings)

reserve-rows :
    (al : Allocator) (t : RecordTable) (n : ℕ) {t' : RecordTable}
    → reserve al t n ≡ ok t'
    → t.rows ≡ t'.rows
unfolding reserve
reserve-rows al t n h = elim (Bool-cases (leb n t.capacity)) [
  | inl fits ↦ ap (λ x. x.rows) (ok-injective (rw fits at h))
  | inr more ↦ elim (Bool-cases (ltb al.max_capacity n)) [
    | inl over ↦ absurd (err-ne-ok (rw (more, over) at h))
    | inr within ↦ elim (Bool-cases (al.table_fails n)) [
      | inl fails ↦ absurd (err-ne-ok (rw (more, within, fails) at h))
      | inr works ↦ ap (λ x. x.rows) (ok-injective (rw (more, within, works) at h))
    ]
  ]
]

pub reserve_for_append-rows :
    (al : Allocator) (t : RecordTable) {t' : RecordTable}
    → reserve_for_append al t ≡ ok t'
    → t.rows ≡ t'.rows
unfolding reserve_for_append
reserve_for_append-rows al t {t'} h = elim (Bool-cases (ltb (table_size t) t.capacity)) [
  | inl room ↦ ap (λ x. x.rows) (ok-injective (rw room at h))
  | inr full ↦ by_next _ (rw full at h)
]
  where
    by_next :
        (next : ℕ)
        → (if leb next t.capacity then err length_error else reserve al t next) ≡ ok t'
        → t.rows ≡ t'.rows
    by_next next h = elim (Bool-cases (leb next t.capacity)) [
      | inl over ↦ absurd (err-ne-ok (rw over at h))
      | inr within ↦ reserve-rows al t next (rw within at h)
    ]

-- What an append leaves: the string at the end of the list of a well-formed builder, or, where it
-- raises, the list that was there.
abbrev pub Outcome : Mem → GrowableBuilder → Str → Result Mem → GrowableBuilder → Type 0
Outcome m b c (err e) b' = IsGrowable m b' × (grown m b' ≡ grown m b)
Outcome m b c (ok m') b' = IsGrowable m' b' × (grown m' b' ≡ grown m b ++ (c ∷ []))

-- A row that needs no memory.
unplaced-Outcome :
    (m : Mem) (b : GrowableBuilder) (v : StrView)
    → IsGrowable m b
    → Settled m b.shard v
    → Outcome m b (content m v) (ok m) (with_table b (push_back_reserved b.store.records v) b.shard)
unfolding push_back_reserved
unplaced-Outcome m b v (sh, settled) own =
    let (rows, strings) =
      append_row m m b.shard b.shard b.store.records.rows v (λ w h. (h, refl)) settled own in
    ((sh, rows), strings)

placed-Outcome :
    (m m1 : Mem) (b : GrowableBuilder) (s1 : Shard) (dest : Ptr) (bytes : List ℕ) (enc : ℕ)
    → IsGrowable m b
    → length bytes < 2 ^ 31
    → (enc == cetype_na) ≡ false
    → Stored m (write m1 dest bytes) b.shard s1 dest bytes
    → Outcome m b (some (bytes, enc)) (ok (write m1 dest bytes)) (
        with_table b (push_back_reserved b.store.records (make_strview dest (length bytes) enc)) s1)
unfolding push_back_reserved
placed-Outcome m m1 b s1 dest bytes enc (sh, settled) short known st =
    let (rows, strings) =
      append_row m (write m1 dest bytes) b.shard s1 b.store.records.rows
        (make_strview dest (length bytes) enc) st.kept settled st.own in
    (
      (st.shard, rows),
      strings
          ∙ ap (λ c. map (content m) b.store.records.rows ++ (c ∷ []))
              (content_of_stored (write m1 dest bytes) dest enc bytes st.filled short known
                st.held),
    )

place_append-Outcome :
    (al : Allocator) (m : Mem) (b : GrowableBuilder) (k o len enc : ℕ)
    → IsGrowable m b
    → len < 2 ^ 31
    → (enc == cetype_na) ≡ false
    → Outcome m b
        (some (read m (at k o) len, enc))
        (copy_reserved (at k o) len (place_append al m b len enc).0)
        (place_append al m b len enc).1
unfolding place_append copy_reserved content strview_is_na
place_append-Outcome al m b k o len enc whole short known = elim (Bool-cases (len == 0)) [
  | inl empty ↦
      let none_left : ltb 0 len ≡ false = ground arith in
      let z : 0 ≡ len = ground arith in
      let low : 0 < m.next = omega (arith, whole.0.known) in
      rw (known, empty, none_left)
        (subst
          (λ c.
            Outcome m b c (ok m)
              (with_table b (push_back_reserved b.store.records (empty_record enc)) b.shard))
          (rw known (
            ap (λ xs. some (xs, enc))
              (read_zero m empty_data ∙ sym (read_zero m (at k o)) ∙ ap (read m (at k o)) z)))
          (unplaced-Outcome m b (empty_record enc) whole (low, omega arith, inr (omega arith))))
  | inr some_bytes ↦ rw (known, some_bytes) (by_place _ refl (ground arith))
]
  where
    by_place :
        (x : Result (Ptr × Mem × Shard))
        → allocate_bytes al m b.shard len 0 ≡ x
        → 0 < len
        → Outcome m b
            (some (read m (at k o) len, enc))
            (copy_reserved (at k o) len (append_at b len enc x).0)
            (append_at b len enc x).1
    by_place (err e) made more = unfold append_at in (whole, refl)
    by_place (ok got) made more =
        unfold append_at in
        let counted : length (read m (at k o) len) ≡ len = length-read m k o len in
        let (st, same) =
          allocate_bytes-Stored al m got.1 b.shard got.2 0 got.0 (read m (at k o) len) whole.0
            (omega arith) (omega arith)
            (subst (λ n. allocate_bytes al m b.shard n 0 ≡ ok got) (sym counted) made) in
        let any : ltb 0 len ≡ true = ground arith in
        rw (any, read-cell m got.1 (at k o) len same)
          (subst
            (λ n.
              Outcome m b (some (read m (at k o) len, enc))
                (ok (write got.1 got.0 (read m (at k o) len)))
                (with_table b (push_back_reserved b.store.records (make_strview got.0 n enc))
                  got.2))
            counted
            (placed-Outcome m got.1 b got.2 got.0 (read m (at k o) len) enc whole (omega arith)
              known st))

-- A table that reserve_for_append gave holds the same rows.
same_rows :
    (m : Mem) (b : GrowableBuilder) (t : RecordTable) (c : Str) (r : Result Mem)
    (b' : GrowableBuilder)
    → b.store.records.rows ≡ t.rows
    → Outcome m (with_table b t b.shard) c r b'
    → Outcome m b c r b'
same_rows m b t c (err e) b' rows (whole, strings) =
    (whole, strings ∙ ap (map (content m)) (sym rows))
same_rows m b t c (ok m') b' rows (whole, strings) =
    (whole, strings ∙ ap (λ vs. map (content m) vs ++ (c ∷ [])) (sym rows))

na-Outcome :
    (m : Mem) (b : GrowableBuilder)
    → IsGrowable m b
    → Outcome m b none (ok m) (with_table b (push_back_reserved b.store.records na_record) b.shard)
unfolding content strview_is_na
na-Outcome m b whole = unplaced-Outcome m b na_record whole tt

append_reserve-na :
    (al : Allocator) (m : Mem) (b : GrowableBuilder)
    → IsGrowable m b
    → Outcome m b none
        (mem_of (append_reserve al m b 0 cetype_na).0)
        (append_reserve al m b 0 cetype_na).1
unfolding append_reserve checked_string_size check_r_string_len mem_of
append_reserve-na al m b whole = by_table _ refl
  where
    by_table :
        (x : Result RecordTable)
        → reserve_for_append al b.store.records ≡ x
        → Outcome m b none
            (mem_of (append_reserved al m b 0 cetype_na x).0)
            (append_reserved al m b 0 cetype_na x).1
    by_table (err e) had = unfold append_reserved in (whole, refl)
    by_table (ok t) had =
        unfold append_reserved place_append in
        let rows = reserve_for_append-rows al b.store.records had in
        same_rows m b t none (ok m) (with_table b (push_back_reserved t na_record) b.shard) rows (
          na-Outcome m (with_table b t b.shard)
            (whole.0, subst (All (Settled m b.shard)) rows whole.1))

append_reserve-copied :
    (al : Allocator) (m : Mem) (b : GrowableBuilder) (k o len enc : ℕ)
    → IsGrowable m b
    → (enc == cetype_na) ≡ false
    → Outcome m b
        (some (read m (at k o) len, enc))
        (copy_reserved (at k o) len (append_reserve al m b len enc).0)
        (append_reserve al m b len enc).1
unfolding append_reserve checked_string_size check_r_string_len copy_reserved
append_reserve-copied al m b k o len enc whole known =
    elim (Bool-cases (leb len r_string_size_max)) [
      | inl fits ↦
          let e : append_reserve al m b len enc
              ≡ append_reserved al m b len enc (reserve_for_append al b.store.records) =
            rw (append_reserve, fits) refl in
          becomes e (by_table _ refl (ground arith))
      | inr over ↦
          let e : append_reserve al m b len enc ≡ (err string_too_long, b) =
            rw (append_reserve, over) refl in
          becomes e (whole, refl)
    ]
  where
    becomes :
        {q : Result (Ptr × Mem) × GrowableBuilder}
        → append_reserve al m b len enc ≡ q
        → Outcome m b (some (read m (at k o) len, enc)) (copy_reserved (at k o) len q.0) q.1
        → Outcome m b
            (some (read m (at k o) len, enc))
            (copy_reserved (at k o) len (append_reserve al m b len enc).0)
            (append_reserve al m b len enc).1
    becomes e st =
        subst
          (λ (q : Result (Ptr × Mem) × GrowableBuilder).
            Outcome m b (some (read m (at k o) len, enc)) (copy_reserved (at k o) len q.0) q.1)
          (sym e) st

    by_table :
        (x : Result RecordTable)
        → reserve_for_append al b.store.records ≡ x
        → len < 2 ^ 31
        → Outcome m b
            (some (read m (at k o) len, enc))
            (copy_reserved (at k o) len (append_reserved al m b len enc x).0)
            (append_reserved al m b len enc x).1
    by_table (err e) had short = unfold append_reserved in (whole, refl)
    by_table (ok t) had short =
        unfold append_reserved in
        let rows = reserve_for_append-rows al b.store.records had in
        same_rows m b t (some (read m (at k o) len, enc))
          (copy_reserved (at k o) len (place_append al m (with_table b t b.shard) len enc).0)
          (place_append al m (with_table b t b.shard) len enc).1 rows
          (place_append-Outcome al m (with_table b t b.shard) k o len enc
            (whole.0, subst (All (Settled m b.shard)) rows whole.1) short known)

-- Appending to a well-formed growable builder leaves it well formed. Where the append succeeds, the
-- string given (NA for a null pointer or the NA tag) stands at the end of its strings; where it
-- raises, its strings are those that it held.
pub append-Outcome :
    (al : Allocator) (m : Mem) (b : GrowableBuilder) (ptr : Ptr) (len enc : ℕ)
    → IsGrowable m b
    → Outcome m b
        (if is_null ptr || enc == cetype_na then none else some (read m ptr len, enc))
        (append al m b ptr len enc).0
        (append al m b ptr len enc).1
unfolding append
append-Outcome al m b null len enc whole = append_reserve-na al m b whole
append-Outcome al m b (at k o) len enc whole = elim (Bool-cases (enc == cetype_na)) [
  | inl na ↦ rw na (append_reserve-na al m b whole)
  | inr known ↦ rw known (append_reserve-copied al m b k o len enc whole known)
]
