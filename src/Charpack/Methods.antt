-- ===== src/Charpack/Methods.antt =====
-- src/charpack_altrep.h: the ALTREP methods of a charpack.
-- A method that changes its vector gives the new state beside its result.
-- In data1 no end offset is below the one before it, so `end - begin` does not wrap; the first loop
-- of a subset has checked that the sum of the second stays a size_t.
pub mod Selection
pub mod Subset
pub mod Strings
use charport.Prelude.{
  ℕ, zero, suc, ◌+◌, ◌-◌, ◌*◌, ◌/◌, ◌%◌, ◌^◌, Bool, true, false, ◌&&◌, ◌||◌, not, List, [], ◌∷◌,
  ◌++◌, Option, none, some, length, map, take, drop, get_or, set, ltb, leb, ◌==◌, if◌then◌else◌,
  Result, ok, err, ◌>>=◌, ◌>>◌, require, size_overflow, raw_too_long, bad_alloc,
}
use charport.Interop.{int_is_negative, na_integer, cetype_na}
use charport.Charsxp.{RStrings}
use charport.Sizes.{size_max}
use charport.Words.{Endian}
use charport.Charpack.Layout.{
  View, parse, layout_length, needs_wide, total_bytes, end_at, write_head, write_end,
}
use charport.Charpack.Fill.{Charpack, unfilled, filled, materialized}
use charport.Charpack.State.{Restored, character, packed, strings, has_byte}

-- A subscript of type REALSXP: a double is a sign and a number over a power of two.
pub data Real : Type 0 where
  not_finite : Real
  finite : Bool → ℕ → ℕ → Real

-- The index vector of a subset, by its R type; an INTSXP's entries are their patterns.
pub data Subscript : Type 0 where
  ints : List ℕ → Subscript
  reals : List Real → Subscript
  other_subscript : Subscript

unfoldable pub selected_int : ℕ → ℕ → ℕ
selected_int n k = if k == na_integer || (int_is_negative k || k == 0) || ltb n k then n else k - 1

unfoldable pub selected_real : ℕ → Real → ℕ
selected_real n not_finite = n
selected_real n (finite negative num scale) =
    if not negative && leb (2 ^ scale) num && ltb num ((n + 1) * 2 ^ scale)
    then num / 2 ^ scale - 1
    else n

-- begin = i == 0 ? 0 : end_at(v, i - 1)
unfoldable pub begin_at : Endian → View → ℕ → ℕ
begin_at host v i = if i == 0 then 0 else end_at host v (i - 1)

-- The first loop of Extract_subset, over the records selected.
unfoldable pub subset_payload : Endian → View → List ℕ → ℕ → Result ℕ
subset_payload host v [] sum = ok sum
subset_payload host v (i ∷ is) sum = elim (i == v.n) [
  | true ↦ subset_payload host v is sum
  | false ↦ do
    let len = end_at host v i - begin_at host v i
    require (not (ltb (size_max - len) sum)) size_overflow
    subset_payload host v is (sum + len)
]

-- The three regions that the second loop writes: end offsets, tags, payload.
unfoldable pub subset_records : Endian → View → Bool → List ℕ → ℕ → List ℕ × List ℕ × List ℕ
subset_records host v wide [] end = ([], [], [])
subset_records host v wide (i ∷ is) end =
    let len = if i == v.n then 0 else end_at host v i - begin_at host v i in
    let rest = subset_records host v wide is (end + len) in
    (
      write_end host wide (end + len) ++ rest.0,
      (if i == v.n then cetype_na else get_or v.tags i 0) ∷ rest.1,
      (if i == v.n then [] else take len (drop (begin_at host v i) v.bytes)) ++ rest.2,
    )

-- Extract_subset of a filled vector, by the records selected.
unfoldable pub subset_of : Endian → ℕ → (ℕ → Bool) → List ℕ → List ℕ → Result (List ℕ)
subset_of host max fails raw is = do
  let v = parse host raw
  sum ← subset_payload host v is 0
  let wide = needs_wide sum
  require (not (total_bytes max (length is) sum wide == 0)) raw_too_long
  require (not (fails (total_bytes max (length is) sum wide))) bad_alloc
  let regions = subset_records host v wide is 0
  ok (write_head host (length is) wide ++ (regions.0 ++ (regions.1 ++ regions.2)))

module _ {C : Type 0} (host : Endian) (max : ℕ) (fails : ℕ → Bool) where
  -- none is the nullptr that leaves the subset to R.
  unfoldable pub extract_subset : Charpack C → Subscript → Result (Option (Charpack C))
  extract_subset unfilled indx = ok none
  extract_subset (materialized xs) indx = ok none
  extract_subset (filled raw) other_subscript = ok none
  extract_subset (filled raw) (ints ks) =
      subset_of host max fails raw (map (selected_int (parse host raw).n) ks) >>= λ out.
      ok (some (filled out))
  extract_subset (filled raw) (reals ks) =
      subset_of host max fails raw (map (selected_real (parse host raw).n) ks) >>= λ out.
      ok (some (filled out))

module _ (r : RStrings) (host : Endian) (native_is_utf8 : Bool) where
  open r use {Charsxp, na_string, is_na_string}

  -- Length
  unfoldable pub charpack_length : Charpack Charsxp → ℕ
  charpack_length (materialized data2) = length data2
  charpack_length unfilled = 0
  charpack_length (filled data1) = layout_length host data1

  -- Materialize: the strings; the vector then holds them.
  unfoldable pub materialize : Charpack Charsxp → Result (List Charsxp)
  materialize (materialized data2) = ok data2
  materialize unfilled = ok []
  materialize (filled data1) = strings r host native_is_utf8 data1

  unfoldable pub elt : Charpack Charsxp → ℕ → Result (Charsxp × Charpack Charsxp)
  elt x i = do data2 ← materialize x; ok (get_or data2 i na_string, materialized data2)

  unfoldable pub set_elt : Charpack Charsxp → ℕ → Charsxp → Result (Charpack Charsxp)
  set_elt x i v = do data2 ← materialize x; ok (materialized (set data2 i v))

  -- The strings behind the pointer that Dataptr gives.
  unfoldable pub dataptr : Charpack Charsxp → Result (List Charsxp × Charpack Charsxp)
  dataptr x = do data2 ← materialize x; ok (data2, materialized data2)

  unfoldable pub dataptr_or_null : Charpack Charsxp → Option (List Charsxp)
  dataptr_or_null (materialized data2) = some data2
  dataptr_or_null unfilled = none
  dataptr_or_null (filled data1) = none

  unfoldable pub duplicate : Charpack Charsxp → Restored Charsxp
  duplicate (materialized data2) = character data2
  duplicate unfilled = character []
  duplicate (filled data1) = packed (filled data1)

  unfoldable pub none_na : List Charsxp → ℕ
  none_na [] = 1
  none_na (x ∷ xs) = let rest = none_na xs in if is_na_string x then 0 else rest

  unfoldable pub no_na : Charpack Charsxp → ℕ
  no_na (materialized data2) = none_na data2
  no_na unfilled = 1
  no_na (filled data1) =
      let v = parse host data1 in if ltb 0 v.n && has_byte cetype_na (take v.n v.tags) then 0 else 1

  -- reader_init: the bytes that the Reader callbacks read, or NULL.
  unfoldable pub reader_init : Charpack Charsxp → Option (List ℕ)
  reader_init (materialized data2) = none
  reader_init unfilled = none
  reader_init (filled data1) = some data1
