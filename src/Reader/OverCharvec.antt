-- ===== src/Reader/OverCharvec.antt =====
-- A Reader over a charvec that has its store.
use charport.Charvec.Callbacks.{
  reader_strviews_range, reader_byteviews_range, reader_lengths_range, reader_encodings_range,
  reader_strviews_index, reader_byteviews_index, reader_lengths_index, reader_encodings_index,
  copied_rows,
}
use charport.Reader.{status_ok}
use charport.Prelude.{
  suc, ℕ, ◌≡◌, length, ◌+◌, ok, true, drop, arith, ap, sym, drop_all, drop-get_or, ◌∙◌, zero, ◌<◌,
  get_or, refl,
}
use charport.Reader.{view, iterate, Provider, accessed_one, check_access, status_ok}
use charport.Charvec.Store.{Store, na_record}
use native.Mathlib.Numerals.{add-one}

-- The borrow of a charvec: each of its callbacks reports OK.
abbrev pub charvec_provider : Store → Provider
charvec_provider store = record {
  n = length store.records.rows;
  persistent_views = true;
  concurrent_access = true;
  strviews_range = λ start size. (status_ok, reader_strviews_range store start size);
  byteviews_range = λ start size. (status_ok, reader_byteviews_range store start size);
  lengths_range = λ start size. (status_ok, reader_lengths_range store start size);
  encodings_range = λ start size. (status_ok, reader_encodings_range store start size);
  strviews_index = λ indices. (status_ok, reader_strviews_index store indices);
  byteviews_index = λ indices. (status_ok, reader_byteviews_index store indices);
  lengths_index = λ indices. (status_ok, reader_lengths_index store indices);
  encodings_index = λ indices. (status_ok, reader_encodings_index store indices);
}

view-charvec :
    (store : Store) (i : ℕ)
    → i < length store.records.rows
    → view (charvec_provider store) i ≡ ok (get_or store.records.rows i na_record)
unfolding view accessed_one check_access reader_strviews_range copied_rows
view-charvec store i h = rw (drop-get_or store.records.rows i na_record h) refl

iterate-charvec :
    (store : Store) (i left : ℕ)
    → i + left ≡ length store.records.rows
    → iterate (charvec_provider store) i left ≡ ok (drop i store.records.rows)
unfolding iterate
iterate-charvec store i zero h = ap ok (sym (drop_all i store.records.rows (omega arith)))
iterate-charvec store i (suc left) h =
    rw (view-charvec store i (omega arith), iterate-charvec store (i + 1) left (omega arith))
      (ap ok
        (sym (drop-get_or store.records.rows i na_record (omega arith) ∙ rw (← add-one i) refl)))

-- Iterating a Reader over a charvec, from begin to end, raises nothing and gives the records of its
-- store in their order.
pub iterate-rows :
    (store : Store)
    → iterate (charvec_provider store) 0 (charvec_provider store).n ≡ ok store.records.rows
iterate-rows store = iterate-charvec store 0 (length store.records.rows) (omega arith)
