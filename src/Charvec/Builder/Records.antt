-- ===== src/Charvec/Builder/Records.antt =====
-- Setting a record of a table puts its string at its index and changes no other.
use charport.Prelude.{
  ℕ, ◌^◌, ◌<◌, ◌≡◌, inl, inr, refl, sym, ap, ◌∙◌, true, false, ◌||◌, ◌&&◌, not, List, length, All,
  All-set, All-of, map, map-set, set, if◌then◌else◌, ok, require-eq_ok, >>=-eq-ok, ok-injective,
  err-ne-ok, arith, ltb, leb, ◌==◌, Bool-cases, some, none, out_of_bounds,
}
use mathlib.Core.Path.{subst}
use charport.Memory.{Mem, Ptr, null, at, is_null, read, write}
use charport.Memory.Laws.{length-read, read_zero}
use charport.Interop.{StrView, make_strview, cetype_na, na_integer, strview_is_na}
use charport.Interop.Views.{Str, content}
use charport.Sizes.{check_r_string_len, r_string_size_max}
use charport.Charvec.Store.{
  Allocator, RecordTable, empty_data, na_record, empty_record, checked_string_size, set_row,
  table_size,
}
use charport.Charvec.Builder.{
  size_of_int, set_view, Shard, allocate_bytes, Placed, place_record, fill_record, copy_record,
  set_record,
}
use charport.Charvec.Builder.Shards.{IsShard, Settled}
use charport.Charvec.Builder.Storing.{read-cell, Stored, allocate_bytes-Stored}

-- A row set in a table, where settled rows keep their strings.
row_set :
    (m m' : Mem) (s s' : Shard) (rows : List StrView) (i : ℕ) (v : StrView)
    → ((w : StrView) → Settled m s w → Settled m' s' w × (content m' w ≡ content m w))
    → All (Settled m s) rows
    → Settled m' s' v
    → All (Settled m' s') (set rows i v)
      × (map (content m') (set rows i v) ≡ set (map (content m) rows) i (content m' v))
row_set m m' s s' rows i v kept settled own = (
  All-set (Settled m' s') rows i v
      (All-of (Settled m s) (Settled m' s') rows (λ w h. (kept w h).0) settled) own,
  map-set (content m') (content m) rows i v
      (All-of (Settled m s) (λ w. content m' w ≡ content m w) rows (λ w h. (kept w h).1) settled),
)

-- What an operation that sets record `i` to the string `c` leaves.
pub record HoldsAt (m : Mem) (s : Shard) (t : RecordTable) (i : ℕ) (c : Str) (p : Placed)
    : Type 0 where
  pub shard : IsShard p.mem p.shard
  pub settled : All (Settled p.mem p.shard) p.records.rows
  pub contents : map (content p.mem) p.records.rows ≡ set (map (content m) t.rows) i c
  pub kept :
      (v : StrView) → Settled m s v → Settled p.mem p.shard v × (content p.mem v ≡ content m v)

-- A row that needs no memory.
pub set_unplaced :
    (m : Mem) (s : Shard) (t : RecordTable) (i : ℕ) (dest : Ptr) (v : StrView)
    → IsShard m s
    → All (Settled m s) t.rows
    → Settled m s v
    → HoldsAt m s t i
        (content m v)
        (record { dest = dest; mem = m; shard = s; records = set_row t i v })
unfolding set_row
set_unplaced m s t i dest v sh settled own =
    let (rows, contents) = row_set m m s s t.rows i v (λ w h. (h, refl)) settled own in
    record { shard = sh; settled = rows; contents = contents; kept = λ v h. (h, refl) }

pub content_of_stored :
    (m : Mem) (dest : Ptr) (enc : ℕ) (bytes : List ℕ)
    → is_null dest ≡ false
    → length bytes < 2 ^ 31
    → (enc == cetype_na) ≡ false
    → read m dest (length bytes) ≡ bytes
    → content m (make_strview dest (length bytes) enc) ≡ some (bytes, enc)
unfolding content strview_is_na
content_of_stored m dest enc bytes there short known held =
    let not_na : (length bytes == na_integer) ≡ false = ground arith in
    let nonneg : leb (2 ^ 31) (length bytes) ≡ false = ground arith in
    rw (there, not_na, known, nonneg) (ap (λ t. some (t, enc)) held)

pub set_row-Stored :
    (m m' : Mem) (s s' : Shard) (t : RecordTable) (i enc : ℕ) (dest : Ptr) (bytes : List ℕ)
    → All (Settled m s) t.rows
    → length bytes < 2 ^ 31
    → (enc == cetype_na) ≡ false
    → Stored m m' s s' dest bytes
    → HoldsAt m s t i (some (bytes, enc)) (record {
      dest = dest;
      mem = m';
      shard = s';
      records = set_row t i (make_strview dest (length bytes) enc);
    })
unfolding set_row
set_row-Stored m m' s s' t i enc dest bytes settled short known st =
    let (rows, contents) =
      row_set m m' s s' t.rows i (make_strview dest (length bytes) enc) st.kept settled st.own in
    record {
      shard = st.shard;
      settled = rows;
      contents =
          contents
          ∙ ap (set (map (content m) t.rows) i)
              (content_of_stored m' dest enc bytes st.filled short known st.held);
      kept = st.kept;
    }

pub checked_string_size-eq_ok :
    (len : ℕ) {n : ℕ} → checked_string_size len ≡ ok n → (len ≡ n) × (len < 2 ^ 31)
unfolding checked_string_size check_r_string_len
checked_string_size-eq_ok len {n} h = elim (Bool-cases (leb len r_string_size_max)) [
  | inl fits ↦ (ok-injective (rw fits at h), ground arith)
  | inr over ↦ absurd (err-ne-ok (rw over at h))
]

-- The string that a record of `len` bytes at `ptr` is to hold.
abbrev given : Mem → Ptr → ℕ → ℕ → Str
given m ptr len enc = if enc == cetype_na then none else some (read m ptr len, enc)

-- memcpy after a place was found.
abbrev copied : Placed → Ptr → ℕ → Placed
copied p ptr len =
    if not (is_null p.dest) && ltb 0 len
    then record p { mem = write p.mem p.dest (read p.mem ptr len) }
    else p

place_record-HoldsAt :
    (al : Allocator) (m : Mem) (s : Shard) (t : RecordTable) (i b o len enc : ℕ) (p : Placed)
    → IsShard m s
    → All (Settled m s) t.rows
    → len < 2 ^ 31
    → place_record al m s t i len enc ≡ ok p
    → HoldsAt m s t i (given m (at b o) len enc) (copied p (at b o) len)
unfolding place_record content strview_is_na
place_record-HoldsAt al m s t i b o len enc p sh settled short h =
    elim (Bool-cases (enc == cetype_na)) [
      | inl na ↦
          subst (λ q. HoldsAt m s t i (given m (at b o) len enc) (copied q (at b o) len))
            (ok-injective (rw (place_record, na) at h))
            (rw na (set_unplaced m s t i null na_record sh settled tt))
      | inr known ↦ elim (Bool-cases (len == 0)) [
        | inl empty ↦
            let z : len ≡ 0 = ground arith in
            let none_left : ltb 0 len ≡ false = ground arith in
            let blank : content m (empty_record enc) ≡ some (read m (at b o) len, enc) = rw known (
              ap (λ xs. some (xs, enc))
                (read_zero m empty_data ∙ sym (ap (read m (at b o)) z ∙ read_zero m (at b o)))) in
            let low : 0 < m.next = omega (arith, sh.known) in
            subst (λ q. HoldsAt m s t i (given m (at b o) len enc) (copied q (at b o) len))
              (ok-injective (rw (place_record, known, empty) at h))
              (rw (known, none_left)
                (subst
                  (λ c. HoldsAt m s t i c (record {
                    dest = empty_data;
                    mem = m;
                    shard = s;
                    records = set_row t i (empty_record enc);
                  }))
                  blank
                  (set_unplaced m s t i empty_data (empty_record enc) sh settled
                    (low, omega arith, inr (omega arith)))))
        | inr some_bytes ↦
            let h0 = rw (place_record, known, some_bytes) at h in
            let (got, made, h1) = >>=-eq-ok (allocate_bytes al m s len (table_size t)) _ h0 in
            let bytes : List ℕ = read m (at b o) len in
            let e : length (read m (at b o) len) ≡ len = length-read m b o len in
            let more : ltb 0 len ≡ true = ground arith in
            let (st, same) =
              allocate_bytes-Stored al m got.1 s got.2 (table_size t) got.0 (read m (at b o) len) sh
                (ground arith) (omega arith)
                (subst (λ n. allocate_bytes al m s n (table_size t) ≡ ok got) (sym e) made) in
            let there : is_null got.0 ≡ false = st.filled in
            subst (λ q. HoldsAt m s t i (given m (at b o) len enc) (copied q (at b o) len))
              (ok-injective h1)
              (rw (known, there, more, read-cell m got.1 (at b o) len same)
                (subst
                  (λ n. HoldsAt m s t i (some (read m (at b o) len, enc)) (record {
                    dest = got.0;
                    mem = write got.1 got.0 (read m (at b o) len);
                    shard = got.2;
                    records = set_row t i (make_strview got.0 n enc);
                  }))
                  e
                  (set_row-Stored m _ s got.2 t i enc got.0 (read m (at b o) len) settled
                    (omega arith) known st)))
      ]
    ]

fill_record-eq_ok :
    (al : Allocator) (m : Mem) (s : Shard) (t : RecordTable) (i len enc : ℕ) {p : Placed}
    → fill_record al m s t i len enc ≡ ok p
    → (i < table_size t) × (len < 2 ^ 31) × (place_record al m s t i len enc ≡ ok p)
unfolding fill_record
fill_record-eq_ok al m s t i len enc {p} h =
    let (within, h1) = require-eq_ok (ltb i (table_size t)) out_of_bounds _ h in
    let (n, sized, h2) = >>=-eq-ok (checked_string_size len) _ h1 in
    let (same, short) = checked_string_size-eq_ok len sized in
    (ground arith, short, subst (λ k. place_record al m s t i k enc ≡ ok p) (sym same) h2)

copy_record-HoldsAt :
    (al : Allocator) (m : Mem) (s : Shard) (t : RecordTable) (i b o len enc : ℕ) (p : Placed)
    → IsShard m s
    → All (Settled m s) t.rows
    → copy_record al m s t i (at b o) len enc ≡ ok p
    → (i < table_size t) × HoldsAt m s t i (given m (at b o) len enc) p
unfolding copy_record
copy_record-HoldsAt al m s t i b o len enc p sh settled h =
    let (q, filled, h1) = >>=-eq-ok (fill_record al m s t i len enc) _ h in
    let (within, short, placed) = fill_record-eq_ok al m s t i len enc filled in
    (
      within,
      subst (HoldsAt m s t i (given m (at b o) len enc)) (ok-injective h1)
          (place_record-HoldsAt al m s t i b o len enc q sh settled short placed),
    )

-- The record at `i` becomes NA.
copy_record-na :
    (al : Allocator) (m : Mem) (s : Shard) (t : RecordTable) (i : ℕ) (p : Placed)
    → IsShard m s
    → All (Settled m s) t.rows
    → copy_record al m s t i null 0 cetype_na ≡ ok p
    → (i < table_size t) × HoldsAt m s t i none p
unfolding copy_record content strview_is_na place_record
copy_record-na al m s t i p sh settled h =
    let (q, filled, h1) = >>=-eq-ok (fill_record al m s t i 0 cetype_na) _ h in
    let (within, short, placed) = fill_record-eq_ok al m s t i 0 cetype_na filled in
    (
      within,
      subst (HoldsAt m s t i none) (ok-injective h1) (
          subst (λ x. HoldsAt m s t i none (copied x null 0)) (ok-injective placed)
            (set_unplaced m s t i null na_record sh settled tt)),
    )

-- Setting a record of a well-formed shard and table, where it succeeds, is at an index within the
-- table. It puts the string given at that index, NA for a null pointer or the NA tag, and changes no
-- other record; the shard stays well formed, and the bytes of every record out of its free space.
pub set_record-HoldsAt :
    (al : Allocator) (m : Mem) (s : Shard) (t : RecordTable) (i : ℕ) (ptr : Ptr) (len enc : ℕ)
    (p : Placed)
    → IsShard m s
    → All (Settled m s) t.rows
    → set_record al m s t i ptr len enc ≡ ok p
    → (i < table_size t)
      × HoldsAt m s t i
          (if is_null ptr || enc == cetype_na then none else some (read m ptr len, enc))
          p
unfolding set_record
set_record-HoldsAt al m s t i null len enc p sh settled h = copy_record-na al m s t i p sh settled h
set_record-HoldsAt al m s t i (at b o) len enc p sh settled h =
    elim (Bool-cases (enc == cetype_na)) [
      | inl na ↦ rw na (copy_record-na al m s t i p sh settled (rw (set_record, na) at h))
      | inr known ↦ rw known (
          rw known at
            (copy_record-HoldsAt al m s t i b o len enc p sh settled (rw (set_record, known) at h)))
    ]

-- The same of a view, NA or not.
pub set_view-HoldsAt :
    (al : Allocator) (m : Mem) (s : Shard) (t : RecordTable) (i : ℕ) (v : StrView) (p : Placed)
    → IsShard m s
    → All (Settled m s) t.rows
    → set_view al m s t i v ≡ ok p
    → (i < table_size t) × HoldsAt m s t i (content m v) p
unfolding set_view content strview_is_na
set_view-HoldsAt al m s t i v p sh settled h = elim (Bool-cases (strview_is_na v)) [
  | inl na ↦
      rw na (set_record-HoldsAt al m s t i null 0 cetype_na p sh settled (rw (set_view, na) at h))
  | inr known ↦
      let here : (is_null v.ptr || v.enc == cetype_na) ≡ false = ground (arith, known) in
      let st =
        set_record-HoldsAt al m s t i v.ptr (size_of_int v.len) v.enc p sh settled
          (rw (set_view, known) at h) in
      rw known (rw here at st)
]
