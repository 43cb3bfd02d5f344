-- ===== src/Charvec/Fill.antt =====
-- Stores built from strings that are at hand: src/charvec_altrep.h (store_from_chars, subset_store)
-- and src/charvec_api.cpp (charport_charvec_from_views_impl).
-- A loop over arrays takes the list of its elements. The heap object that holds a finished store is
-- the store itself here.
pub mod Loops
pub mod Whole
pub mod Subset
pub mod Total
use charport.Prelude.{
  ℕ, zero, suc, ◌+◌, ◌-◌, ◌^◌, Bool, true, false, ◌||◌, ◌&&◌, not, List, [], ◌∷◌, length, map,
  Option, none, some, get_or, if◌then◌else◌, Result, ok, err, ◌>>=◌, ◌>>◌, require, ltb, leb, ◌==◌,
  null_arrays, bad_encoding, negative_at, negative_length,
}
use charport.Memory.{Mem, Ptr, null}
use charport.Interop.{
  StrView, make_strview, strview_is_na, na_integer, cetype_na, int_is_negative, size_of_int,
  xlen_is_negative,
}
use charport.Charsxp.{RStrings, charsxp_to_view, valid_view_encoding, view_is_na}
use charport.Charvec.Store.{Allocator, Store, na_record}
use charport.Charvec.Builder.Serial.{Builder, new_builder, set_strview, release_store}
use charport.Charvec.Builder.Serial as Serial
use charport.Charpack.Methods.{Subscript, ints, reals, other_subscript, selected_int, selected_real}

-- builder.set(i, v) for each of the views in turn, from record `i` on.
unfoldable pub set_views : Allocator → Mem → Builder → ℕ → List StrView → Result (Mem × Builder)
set_views al m b i [] = ok (m, b)
set_views al m b i (v ∷ vs) = do q ← set_strview al m b i v; set_views al q.0 q.1 (i + 1) vs

-- The store that a builder hands out, with the memory.
unfoldable pub released : Mem × Builder → Mem × Store
released q = (q.0, (release_store q.1).0)

module _ (r : RStrings) where
  open r use {Charsxp}

  unfoldable pub store_from_chars : Allocator → Mem → List Charsxp → Result (Mem × Store)
  store_from_chars al m xs = do
    q ← new_builder al m (length xs)
    done ← set_views al q.0 q.1 0 (map (charsxp_to_view r) xs)
    ok (released done)

-- The view arrays of a caller, as rows; a row may have any tag.
abbrev given_is_na : StrView → Bool
given_is_na v = view_is_na v.ptr v.len v.enc

-- The tests of each index before anything is built.
unfoldable pub check_views : List StrView → Result (Unit {0})
check_views [] = ok tt
check_views (v ∷ vs) = do
  require (valid_view_encoding v.enc) bad_encoding
  require (view_is_na v.ptr v.len v.enc || not (int_is_negative v.len)) negative_at
  check_views vs

-- The loop under `try`.
unfoldable pub fill_given : Allocator → Mem → Builder → ℕ → List StrView → Result (Mem × Builder)
fill_given al m b i [] = ok (m, b)
fill_given al m b i (v ∷ vs) = do
  q ←
      if view_is_na v.ptr v.len v.enc
      then Serial.set al m b i null 0 cetype_na
      else Serial.set al m b i v.ptr (size_of_int v.len) v.enc
  fill_given al q.0 q.1 (i + 1) vs

-- charport_charvec_from_views_impl; `none` stands for three arrays of which one is NULL. The store
-- is the one that `to_sexp` wraps.
unfoldable pub from_views : Allocator → Mem → ℕ → Option (List StrView) → Result (Mem × Store)
from_views al m n none = do
  require (not (xlen_is_negative n)) negative_length
  require (not (ltb 0 n)) null_arrays
  q ← new_builder al m n
  ok (released q)
from_views al m n (some vs) = do
  require (not (xlen_is_negative n)) negative_length
  checked ← check_views vs
  q ← new_builder al m n
  done ← fill_given al q.0 q.1 0 vs
  ok (released done)

-- copy_element of the record at `k`, where `k` is the length for a subscript that selects nothing.
unfoldable pub copy_element :
    Allocator → Mem → Builder → List StrView → ℕ → ℕ → Result (Mem × Builder)
copy_element al m b rows i k =
    if not (ltb k (length rows)) || strview_is_na (get_or rows k na_record)
    then ok (m, b)
    else set_strview al m b i (get_or rows k na_record)

unfoldable pub copy_elements :
    Allocator → Mem → Builder → List StrView → ℕ → List ℕ → Result (Mem × Builder)
copy_elements al m b rows i [] = ok (m, b)
copy_elements al m b rows i (k ∷ ks) = do
  q ← copy_element al m b rows i k
  copy_elements al q.0 q.1 rows (i + 1) ks

-- The records selected by an index vector of one of the two types.
unfoldable pub subset_rows : ℕ → Subscript → List ℕ
subset_rows n (ints ks) = map (selected_int n) ks
subset_rows n (reals ks) = map (selected_real n) ks
subset_rows n other_subscript = []

unfoldable pub subset_store : Allocator → Mem → Store → Subscript → Result (Mem × Store)
subset_store al m source indx = do
  let ks = subset_rows (length source.records.rows) indx
  q ← new_builder al m (length ks)
  done ← copy_elements al q.0 q.1 source.records.rows 0 ks
  ok (released done)
