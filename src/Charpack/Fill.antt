-- ===== src/Charpack/Fill.antt =====
-- src/charpack_api.cpp: filling a placeholder from views or from slices.
pub mod Encodes
pub mod Alloc
pub mod Views
pub mod Slices
use charport.Prelude.{
  replicate, ℕ, zero, suc, ◌+◌, ◌-◌, ◌*◌, ◌%◌, ◌^◌, Bool, true, false, ◌&&◌, ◌||◌, not, List, [],
  ◌∷◌, ◌++◌, Option, none, some, ltb, leb, ◌==◌, if◌then◌else◌, Result, ok, err, Error, ◌>>=◌, ◌>>◌,
  require, not_a_charpack, not_unfilled, null_arrays, negative_length, negative_at, bad_encoding,
  size_overflow, raw_too_long, slice_null, slice_overflow, slice_mismatch, length, bad_alloc,
}
use charport.Memory.{Mem, Ptr, null, is_null, read}
use charport.Interop.{
  StrView, make_strview, int_is_negative, xlen_is_negative, na_integer, cetype_na,
}
use charport.Charsxp.{valid_view_encoding, view_is_na}
use charport.Sizes.{size_max}
use charport.Words.{Endian}
use charport.Charpack.Layout.{needs_wide, total_bytes, write_head, write_end}

-- The states of a charpack; `C` is R's CHARSXP. Another R object is `other`.
pub data Charpack (C : Type 0) : Type 0 where
  unfilled : Charpack C
  filled : List ℕ → Charpack C
  materialized : List C → Charpack C

pub data Sexp (C : Type 0) : Type 0 where
  charpack : Charpack C → Sexp C
  other : Sexp C

unfoldable pub check_unfilled : {C : Type 0} → Sexp C → Result (Unit {0})
check_unfilled (charpack unfilled) = ok tt
check_unfilled (charpack _) = err not_unfilled
check_unfilled other = err not_a_charpack

unfoldable pub record_is_na : ℕ → ℕ → Bool
record_is_na len enc = len == na_integer || enc == cetype_na

-- `has_ptrs` is `ptrs != nullptr`.
unfoldable pub entry_is_na : Bool → StrView → Bool
unfolding record_is_na view_is_na
entry_is_na has_ptrs v = if has_ptrs then view_is_na v.ptr v.len v.enc else record_is_na v.len v.enc

-- The loop of checked_payload over the entries that are left.
unfoldable pub checked_payload : Bool → ℕ → List StrView → Result ℕ
checked_payload has_ptrs sum [] = ok sum
checked_payload has_ptrs sum (v ∷ vs) = do
  require (valid_view_encoding v.enc) bad_encoding
  let na = entry_is_na has_ptrs v
  require (na || not (int_is_negative v.len)) negative_at
  require (na || not (ltb (size_max - v.len) sum)) size_overflow
  checked_payload has_ptrs (if na then sum else sum + v.len) vs

-- The two regions that write_records fills: end offsets, and tags.
-- `end` is an Offset, of 64 or of 32 bits, and its sum wraps.
unfoldable pub write_records : Endian → Bool → Bool → ℕ → List StrView → List ℕ × List ℕ
write_records host wide has_ptrs end [] = ([], [])
write_records host wide has_ptrs end (v ∷ vs) =
    let na = entry_is_na has_ptrs v in
    let next = (end + (if na then 0 else v.len)) % (if wide then 2 ^ 64 else 2 ^ 32) in
    let rest = write_records host wide has_ptrs next vs in
    (write_end host wide next ++ rest.0, (if na then cetype_na else v.enc) ∷ rest.1)

-- The head, end offsets and tags; the payload that follows is still to be written. `fails` tells for
-- which sizes Rf_allocVector fails.
unfoldable pub alloc_data1 :
    Endian → ℕ → (ℕ → Bool) → Bool → List StrView → ℕ → Bool → Result (List ℕ)
alloc_data1 host max fails has_ptrs vs payload force_wide =
    let wide = force_wide || needs_wide payload in
    let regions = write_records host wide has_ptrs 0 vs in
    require (not (total_bytes max (length vs) payload wide == 0)) raw_too_long
    >> (require (not (fails (total_bytes max (length vs) payload wide))) bad_alloc
        >> ok (write_head host (length vs) wide ++ (regions.0 ++ regions.1)))

-- What the copying loop of fill_views puts at `dest`.
unfoldable pub copy_views : Mem → List StrView → List ℕ
copy_views m [] = []
copy_views m (v ∷ vs) =
    (if view_is_na v.ptr v.len v.enc || v.len == 0 then [] else read m v.ptr v.len)
    ++ copy_views m vs

-- The first `n` entries of the three parallel arrays.
unfoldable pub zip_views : ℕ → List Ptr → List ℕ → List ℕ → List StrView
zip_views (suc n) (p ∷ ps) (l ∷ ls) (e ∷ es) = make_strview p l e ∷ zip_views n ps ls es
zip_views _ _ _ _ = []

-- The entries, where none of the arrays is NULL or `n` is 0.
unfoldable pub entries :
    ℕ → Option (List Ptr) → Option (List ℕ) → Option (List ℕ) → Result (List StrView)
entries n (some ps) (some ls) (some es) = ok (zip_views n ps ls es)
entries n _ _ _ = if n == 0 then ok [] else err null_arrays

module _ {C : Type 0} (host : Endian) (max : ℕ) (fails : ℕ → Bool) (m : Mem) where
  -- Gives the state that is installed in `x` last; an error leaves `x` as it was.
  unfoldable pub fill_views :
      Sexp C
      → ℕ
      → Option (List Ptr)
      → Option (List ℕ)
      → Option (List ℕ)
      → Bool
      → Result (Charpack C)
  fill_views x n ptrs lengths encodings force_wide = do
    check_unfilled x
    require (not (xlen_is_negative n)) negative_length
    vs ← entries n ptrs lengths encodings
    payload ← checked_payload true 0 vs
    front ← alloc_data1 host max fails true vs payload force_wide
    ok (filled (front ++ copy_views m vs))

-- The slices, where neither array is NULL or `n_slices` is 0.
unfoldable pub zip_slices : ℕ → List Ptr → List ℕ → List (Ptr × ℕ)
zip_slices (suc n) (p ∷ ps) (b ∷ bs) = (p, b) ∷ zip_slices n ps bs
zip_slices _ _ _ = []

unfoldable pub slice_entries : ℕ → Option (List Ptr) → Option (List ℕ) → Result (List (Ptr × ℕ))
slice_entries n (some ps) (some bs) = ok (zip_slices n ps bs)
slice_entries n _ _ = if n == 0 then ok [] else err null_arrays

-- The entries without pointers, where neither array is NULL or `n` is 0.
unfoldable pub bare_entries : ℕ → Option (List ℕ) → Option (List ℕ) → Result (List StrView)
bare_entries n (some ls) (some es) = ok (zip_views n (replicate n null) ls es)
bare_entries n _ _ = if n == 0 then ok [] else err null_arrays

unfoldable pub checked_sliced : ℕ → List (Ptr × ℕ) → Result ℕ
checked_sliced sliced [] = ok sliced
checked_sliced sliced ((p, b) ∷ ss) = do
  require (not (ltb 0 b && is_null p)) slice_null
  require (not (ltb (size_max - b) sliced)) slice_overflow
  checked_sliced (sliced + b) ss

unfoldable pub copy_slices : Mem → List (Ptr × ℕ) → List ℕ
copy_slices m [] = []
copy_slices m ((p, b) ∷ ss) = (if ltb 0 b then read m p b else []) ++ copy_slices m ss

module _ {C : Type 0} (host : Endian) (max : ℕ) (fails : ℕ → Bool) (m : Mem) where
  unfoldable pub fill_slices :
      Sexp C
      → ℕ
      → Option (List ℕ)
      → Option (List ℕ)
      → ℕ
      → Option (List Ptr)
      → Option (List ℕ)
      → Bool
      → Result (Charpack C)
  fill_slices x n lengths encodings n_slices slices slice_bytes force_wide = do
    check_unfilled x
    require (not (xlen_is_negative n || xlen_is_negative n_slices)) negative_length
    vs ← bare_entries n lengths encodings
    ss ← slice_entries n_slices slices slice_bytes
    payload ← checked_payload false 0 vs
    sliced ← checked_sliced 0 ss
    require (sliced == payload) slice_mismatch
    front ← alloc_data1 host max fails false vs payload force_wide
    ok (filled (front ++ copy_slices m ss))

-- charport_charpack_fill_materialized_na_impl: `n` NA strings.
unfoldable pub fill_materialized_na : {C : Type 0} → C → Sexp C → ℕ → Result (Charpack C)
fill_materialized_na na_string x n = do
  check_unfilled x
  require (not (xlen_is_negative n)) negative_length
  ok (materialized (replicate n na_string))
