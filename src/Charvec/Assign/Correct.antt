-- ===== src/Charvec/Assign/Correct.antt =====
-- store_assign on each of its branches.
use charport.Charvec.Builder.Storing.{read-cell}
use charport.Memory.Laws.{read_zero}
use charport.Charvec.Builder.Records.{checked_string_size-eq_ok}
use charport.Charvec.Builder.Shards.{push_front-eq_ok}
use charport.Interop.Views.{content}
use charport.Charvec.Assign.Owned.{
  IsOwned, IsValue, Updated, row_at, replaced, in_place, Apart, ApartAt, in_new_block,
  IsValue-short,
}
use charport.Interop.{StrView, strview_is_na, cetype_na, na_integer, make_strview}
use charport.Prelude.{
  inl, ℕ, ◌≡◌, ok, ◌<◌, get_or, ◌==◌, true, Bool-cases, >>=-eq-ok, false, sym, require-eq_ok, ◌∙◌,
  ltb, ok-injective, out_of_bounds, arith, refl, inr, not, ◌&&◌, ◌≤◌, ◌||◌, ap, leb, ◌^◌, some, ◌+◌,
}
use charport.Memory.{at, Mem, Ptr, is_null, read, null}
use charport.Charvec.Store.{
  Allocator, Store, table_size, na_record, checked_string_size, empty_record, push_front,
  SliceChain, front_data, set_row,
}
use charport.Charvec.Assign.{empty_data, store_reserve, store_assign, place_row, moved, holds_len}
use mathlib.Core.Path.{subst}

store_reserve-eq_ok :
    (al : Allocator) (m : Mem) (st : Store) (i len enc : ℕ) {p : Ptr × Mem × Store}
    → store_reserve al m st i len enc ≡ ok p
    → (i < table_size st.records)
      × (place_row al m st i (get_or st.records.rows i na_record) len enc ≡ ok p)
unfolding store_reserve
store_reserve-eq_ok al m st i len enc {p} h =
    let (n, sized, h1) = >>=-eq-ok (checked_string_size len) _ h in
    let (within, h2) = require-eq_ok (ltb i (table_size st.records)) out_of_bounds _ h1 in
    let (same, small) = checked_string_size-eq_ok len sized in
    (
      ground arith,
      subst (λ k. place_row al m st i (get_or st.records.rows i na_record) k enc ≡ ok p) (sym same)
          h2,
    )

Apart-empty_record : (enc : ℕ) (w : StrView) → Apart (empty_record enc) w
Apart-empty_record enc w = by_ptr w.ptr
  where
    by_ptr : (q : Ptr) → ApartAt empty_data 0 q w.len
    by_ptr null = tt
    by_ptr (at c q) = inl refl

module _ (al : Allocator) (m : Mem) (st : Store) (i : ℕ) (v : StrView) (owned : IsOwned m st)
    (value : IsValue m v) where
  na_row :
      {p : Ptr × Mem × Store} (len : ℕ)
      → i < table_size st.records
      → strview_is_na v ≡ true
      → place_row al m st i (row_at st i) len v.enc ≡ ok p
      → Updated m (moved v.ptr len p).0 st (moved v.ptr len p).1 i (content m v)
  unfolding place_row content
  na_row {p = p} len hi na h =
      let tag : (v.enc == cetype_na) ≡ true = sym value.tagged ∙ na in
      subst (λ q. Updated m (moved v.ptr len q).0 st (moved v.ptr len q).1 i (content m v))
        (ok-injective (rw (place_row, tag) at h))
        (unfold moved in
          replaced m m st st.slices i na_record (content m v) owned hi (omega arith) tt
            (rw na (unfold strview_is_na in refl)) (λ j ne. tt) (λ j ne. refl))

  empty_content :
      (v.enc == cetype_na) ≡ false → v.len ≡ 0 → content m (empty_record v.enc) ≡ content m v
  unfolding content strview_is_na
  empty_content known z =
      let not_na : (is_null v.ptr || v.len == na_integer || v.enc == cetype_na) ≡ false =
        value.tagged ∙ known in
      let nonneg : leb (2 ^ 31) v.len ≡ false = ground arith in
      rw (not_na, nonneg)
        (rw known (
          ap (λ xs. some (xs, v.enc))
            (read_zero m empty_data ∙ sym (read_zero m v.ptr) ∙ ap (read m v.ptr) (sym z))))

  text_row :
      {p : Ptr × Mem × Store}
      → i < table_size st.records
      → (v.enc == cetype_na) ≡ false
      → place_row al m st i (row_at st i) v.len v.enc ≡ ok p
      → Updated m (moved v.ptr v.len p).0 st (moved v.ptr v.len p).1 i (content m v)
  unfolding place_row moved
  text_row {p = p} hi known h = elim (Bool-cases (v.len == 0)) [
    | inl empty ↦
        let none_left : ltb 0 v.len ≡ false = ground arith in
        subst (λ q. Updated m (moved v.ptr v.len q).0 st (moved v.ptr v.len q).1 i (content m v))
          (ok-injective (rw (place_row, known, empty) at h))
          (rw none_left (
            replaced m m st st.slices i (empty_record v.enc) (content m v) owned hi (omega arith)
              (owned.low, omega arith, inr (omega arith)) (empty_content known (ground arith))
              (λ j ne. Apart-empty_record v.enc (row_at st j)) (λ j ne. refl)))
    | inr some_bytes ↦
        let any : ltb 0 v.len ≡ true = ground arith in
        elim (Bool-cases (not (strview_is_na (row_at st i)) && holds_len (row_at st i) v.len)) [
          | inl room ↦
              let held : strview_is_na (row_at st i) ≡ false = ground (arith, room) in
              let le : v.len ≤ (row_at st i).len = ground (arith, room) in
              let place : is_null (row_at st i).ptr ≡ false =
                unfold strview_is_na in ground (arith, held) in
              subst
                (λ q. Updated m (moved v.ptr v.len q).0 st (moved v.ptr v.len q).1 i (content m v))
                (ok-injective (rw (place_row, known, some_bytes, room) at h))
                (rw (any, place) (in_place al m st i v owned hi value known (ground arith) held le))
          | inr full ↦
              let (placed, pushed, h1) =
                >>=-eq-ok (push_front al m st.slices v.len) _
                  (rw (place_row, known, some_bytes, full) at h) in
              subst
                (λ (q : Ptr × Mem × Store).
                  Updated m (moved v.ptr v.len q).0 st (moved v.ptr v.len q).1 i (content m v))
                (ap
                    (λ (pl : Mem × SliceChain). (
                      front_data pl.1,
                      pl.0,
                      record {
                        slices = pl.1;
                        records = set_row st.records i (make_strview (front_data pl.1) v.len v.enc);
                      },
                    ))
                    (push_front-eq_ok al m st.slices v.len pushed)
                  ∙ ok-injective h1)
                (unfold front_data in
                  rw (any, read-cell m (record m { next = m.next + 1 }) v.ptr v.len refl)
                    (in_new_block al m st i v owned hi value known))
        ]
  ]

-- Assigning a record of a store whose rows share no byte, where it succeeds, is at an index within the
-- vector and is the update of the store's list of strings at that index, in place or in a new slice;
-- the rows still share no byte.
pub store_assign-Updated :
    (al : Allocator) (m m' : Mem) (st st' : Store) (i : ℕ) (v : StrView)
    → IsOwned m st
    → IsValue m v
    → store_assign al m st i v ≡ ok (m', st')
    → (i < table_size st.records) × Updated m m' st st' i (content m v)
unfolding store_assign
store_assign-Updated al m m' st st' i v owned value h = elim (Bool-cases (strview_is_na v)) [
  | inl na ↦
      let (p, reserved, h1) =
        >>=-eq-ok (store_reserve al m st i 0 v.enc) _ (rw (store_assign, na) at h) in
      let (hi, placed) = store_reserve-eq_ok al m st i 0 v.enc reserved in
      (
        hi,
        subst (λ (q : Mem × Store). Updated m q.0 st q.1 i (content m v)) (ok-injective h1)
            (na_row al m st i v owned value 0 hi na placed),
      )
  | inr text ↦
      let known : (v.enc == cetype_na) ≡ false = sym value.tagged ∙ text in
      let nonneg : leb (2 ^ 31) v.len ≡ false = ground (arith, IsValue-short m v value known) in
      let (p, reserved, h1) =
        >>=-eq-ok (store_reserve al m st i v.len v.enc) _ (rw (store_assign, text, nonneg) at h) in
      let (hi, placed) = store_reserve-eq_ok al m st i v.len v.enc reserved in
      (
        hi,
        subst (λ (q : Mem × Store). Updated m q.0 st q.1 i (content m v)) (ok-injective h1)
            (text_row al m st i v owned value hi known placed),
      )
]
