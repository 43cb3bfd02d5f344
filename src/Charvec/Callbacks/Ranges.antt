-- ===== src/Charvec/Callbacks/Ranges.antt =====
-- A range of records is the records at its indices.
use charport.Charvec.Store.{na_record, Store}
use charport.Interop.{StrView}
use charport.Charvec.Callbacks.{
  reader_strviews_range, reader_strviews_index, copied_rows, picked_rows,
}
use charport.Prelude.{
  suc, ℕ, List, [], ◌+◌, ◌≤◌, length, take, drop, ◌≡◌, map, get_or, ◌∷◌, drop-get_or, arith, zero,
  ap, refl, ◌==◌, false,
}
use native.Mathlib.Numerals.{add-one}

abbrev pub indices_from : ℕ → ℕ → List ℕ
indices_from start zero = []
indices_from start (suc n) = start ∷ indices_from (start + 1) n

take-drop_picked :
    (rows : List StrView) (start n : ℕ)
    → start + n ≤ length rows
    → take n (drop start rows) ≡ map (λ i. get_or rows i na_record) (indices_from start n)
take-drop_picked rows start zero h = refl
take-drop_picked rows start (suc n) h = rw (drop-get_or rows start na_record (omega arith)) (
    ap (λ t. get_or rows start na_record ∷ t)
      (rw (← add-one start) (take-drop_picked rows (start + 1) n (omega arith))))

-- Within the vector, the range callback gives of each record of a range what the index callback gives
-- of its index.
pub reader_strviews_range-eq_index :
    (data1 : Store) (start size : ℕ)
    → start + size ≤ length data1.records.rows
    → reader_strviews_range data1 start size ≡ reader_strviews_index data1 (indices_from start size)
unfolding reader_strviews_range reader_strviews_index copied_rows picked_rows
reader_strviews_range-eq_index data1 start zero h = refl
reader_strviews_range-eq_index data1 start (suc n) h =
    let e : (suc n == 0) ≡ false = ground arith in
    rw e (take-drop_picked data1.records.rows start (suc n) h)
