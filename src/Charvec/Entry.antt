-- ===== src/Charvec/Entry.antt =====
-- src/charvec_api.cpp: the entry points that R calls.
-- An R object is one of the vectors of the package, a character vector, or another object. A double
-- is a sign and a number over a power of two, as in a subscript. An error leaves the object as it was.
use charport.Prelude.{
  ℕ, ◌*◌, ◌-◌, ◌/◌, ◌^◌, Bool, true, false, ◌&&◌, ◌||◌, not, List, [], ◌∷◌, Option, none, some,
  length, ltb, ◌==◌, if◌then◌else◌, Result, ok, err, ◌>>=◌, ◌>>◌, require, not_a_charvec,
  store_released, not_character, bad_length, not_one_string, out_of_bounds, negative_length,
}
use charport.Memory.{Mem}
use charport.Interop.{xlen_is_negative}
use charport.Charsxp.{RStrings}
use charport.Words.{Endian}
use charport.Charpack.Fill.{Charpack}
use charport.Charpack.Methods as Methods
use charport.Charpack.Methods.{Real, not_finite, finite}
use charport.Charvec.Store.{Allocator, Store, new_store}
use charport.Charvec.Store as StoreParts
use charport.Charvec.Fill.{store_from_chars}
use charport.Charvec.Rebuild.{compact_store}
use charport.Charvec.Vector.{
  Charvec, Cache, live, released_to, vector_length, string_set_elt, materialize,
}

pub data Sexp (C : Type 0) : Type 0 where
  charvec_sexp : Charvec C → Sexp C
  charpack_sexp : Charpack C → Sexp C
  character_sexp : List C → Sexp C
  other_sexp : Sexp C

-- A finite double below 1, and one above `n`.
abbrev below_one : Bool → ℕ → ℕ → Bool
below_one negative num scale = negative || ltb num (2 ^ scale)

abbrev above : ℕ → ℕ → ℕ → Bool
above n num scale = ltb (n * 2 ^ scale) num

-- checked_len_arg of a double; `max` is the double nearest to the greatest
-- R_xlen_t. A negative zero is not below 0.
unfoldable pub checked_len_arg : ℕ → Real → Result ℕ
checked_len_arg max not_finite = err bad_length
checked_len_arg max (finite negative num scale) =
    if (negative && not (num == 0)) || above max num scale
    then err bad_length
    else ok (num / 2 ^ scale)

unfoldable pub is_charvec_sexp : {C : Type 0} → Sexp C → Bool
is_charvec_sexp (charvec_sexp x) = true
is_charvec_sexp (charpack_sexp x) = false
is_charvec_sexp (character_sexp xs) = false
is_charvec_sexp other_sexp = false

-- The store, with the Elt cache beside it.
unfoldable pub checked_store : {C : Type 0} → Sexp C → Result (Store × Cache C)
checked_store (charvec_sexp (live store cache)) = ok (store, cache)
checked_store (charvec_sexp (released_to data2)) = err store_released
checked_store (charpack_sexp x) = err not_a_charvec
checked_store (character_sexp xs) = err not_a_charvec
checked_store other_sexp = err not_a_charvec

-- charport_charvec_get_store_impl: no data2, and no cache.
unfoldable pub get_store : {C : Type 0} → Sexp C → Option Store
get_store (charvec_sexp (live store none)) = some store
get_store (charvec_sexp (live store (some chunks))) = none
get_store (charvec_sexp (released_to data2)) = none
get_store (charpack_sexp x) = none
get_store (character_sexp xs) = none
get_store other_sexp = none

-- charport_charvec_alloc_na_impl, and C_charvec_alloc.
unfoldable pub alloc_na : {C : Type 0} → Allocator → Mem → ℕ → Result (Mem × Sexp C)
alloc_na al m n = do
  require (not (xlen_is_negative n)) negative_length
  q ← new_store al m n 0
  ok (q.0, charvec_sexp (live q.1 none))

unfoldable pub charvec_alloc : {C : Type 0} → ℕ → Allocator → Mem → Real → Result (Mem × Sexp C)
charvec_alloc max al m n_ = do
  n ← checked_len_arg max n_
  q ← new_store al m n 0
  ok (q.0, charvec_sexp (live q.1 none))

-- C_charvec_stats: length, n_slices and materialized; `none` is NA.
unfoldable pub charvec_stats : {C : Type 0} → Sexp C → Result (ℕ × Option ℕ × Bool)
charvec_stats (charvec_sexp (released_to data2)) = ok (length data2, none, true)
charvec_stats (charvec_sexp (live store cache)) =
    ok (length store.records.rows, some (StoreParts.count store.slices), false)
charvec_stats (charpack_sexp x) = err not_a_charvec
charvec_stats (character_sexp xs) = err not_a_charvec
charvec_stats other_sexp = err not_a_charvec

unfoldable pub charvec_compact : {C : Type 0} → Allocator → Mem → Sexp C → Result (Mem × Sexp C)
charvec_compact al m x = do
  had ← checked_store x
  q ← compact_store al m had.0
  ok (q.0, charvec_sexp (live q.1 had.1))

module _ (r : RStrings) (blank : r.Charsxp) (is_blank : r.Charsxp → Bool) where
  open r use {Charsxp}

  -- C_as_charvec, for which R gives the strings of any character vector.
  unfoldable pub as_charvec : Allocator → Mem → Option (List Charsxp) → Result (Mem × Sexp Charsxp)
  as_charvec al m none = err not_character
  as_charvec al m (some xs) = do
    q ← store_from_chars r al m xs
    ok (q.0, charvec_sexp (live q.1 none))

  -- The element at a 1-based index that is a double.
  unfoldable pub assign_at :
      Allocator → Mem → Charvec Charsxp → Real → Charsxp → Result (Mem × Sexp Charsxp)
  assign_at al m x not_finite value = err out_of_bounds
  assign_at al m x (finite negative num scale) value = do
    require
        (not (below_one negative num scale || above (vector_length r blank is_blank x) num scale))
        out_of_bounds
    q ← string_set_elt r blank is_blank al m x (num / 2 ^ scale - 1) value
    ok (q.0, charvec_sexp q.1)

  -- C_charvec_assign; `value` is the strings of a character vector, or `none` for another object.
  unfoldable pub charvec_assign :
      Allocator → Mem → Sexp Charsxp → Real → Option (List Charsxp) → Result (Mem × Sexp Charsxp)
  charvec_assign al m (charvec_sexp x) i (some (value ∷ [])) = assign_at al m x i value
  charvec_assign al m (charvec_sexp x) i (some []) = err not_one_string
  charvec_assign al m (charvec_sexp x) i (some (v ∷ w ∷ vs)) = err not_one_string
  charvec_assign al m (charvec_sexp x) i none = err not_one_string
  charvec_assign al m (charpack_sexp x) i value = err not_a_charvec
  charvec_assign al m (character_sexp xs) i value = err not_a_charvec
  charvec_assign al m other_sexp i value = err not_a_charvec

  -- C_charport_materialize
  unfoldable pub charport_materialize : Endian → Bool → Mem → Sexp Charsxp → Result (Sexp Charsxp)
  charport_materialize host native_is_utf8 m (charvec_sexp x) = do
    data2 ← materialize r blank is_blank m x
    ok (charvec_sexp (released_to data2))
  charport_materialize host native_is_utf8 m (charpack_sexp x) = do
    data2 ← Methods.materialize r host native_is_utf8 x
    ok (charpack_sexp (charport.Charpack.Fill.materialized data2))
  charport_materialize host native_is_utf8 m (character_sexp xs) = ok (character_sexp xs)
  charport_materialize host native_is_utf8 m other_sexp = err not_character
