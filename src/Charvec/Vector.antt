-- ===== src/Charvec/Vector.antt =====
-- src/charvec_altrep.h, struct charvec_altrep: the R vector over a store, and its methods.
-- data1's pointer is the store and what it protects the Elt cache; data2 is the strings of a
-- materialized vector, which has no store. R's blank string is a parameter, as is the comparison with
-- it. A method that changes its vector gives the new one beside its result; string_elt may have added
-- a chunk of blank strings, which are misses, where it raises.
pub mod Coherence
pub mod Elements
pub mod Materialized
use charport.Prelude.{
  ℕ, zero, suc, ◌+◌, ◌-◌, ◌*◌, ◌/◌, ◌%◌, ◌^◌, Bool, true, false, not, List, [], ◌∷◌, ◌++◌, Option,
  none, some, length, set, get_or, replicate, take, drop, ltb, ◌==◌, if◌then◌else◌, Result, ok, err,
  ◌>>=◌,
}
use charport.Memory.{Mem}
use charport.Interop.{StrView, strview_is_na}
use charport.Charsxp.{RStrings, make_charsxp, charsxp_to_view}
use charport.Charpack.Methods.{Subscript, ints, reals, other_subscript}
use charport.Charvec.Store.{Allocator, Store, na_record}
use charport.Charvec.Fill.{subset_store}
use charport.Charvec.Assign.{store_assign}
use charport.Charvec.Rebuild.{duplicate_store}

abbrev pub chunk_size : ℕ
chunk_size = 2 ^ 10

-- n >> chunk_shift, rounded up.
unfoldable pub chunk_count : ℕ → ℕ
chunk_count n = n / chunk_size + (if n % chunk_size == 0 then 0 else 1)

unfoldable pub chunk_len : ℕ → ℕ → ℕ
chunk_len n c =
    let remaining = n - c * chunk_size in if ltb chunk_size remaining then chunk_size else remaining

-- The VECSXP of chunks, where `none` is R_NilValue, and so is a chunk that is `none`.
abbrev pub Cache : Type 0 → Type 0
Cache C = Option (List (Option (List C)))

pub data Charvec (C : Type 0) : Type 0 where
  live : Store → Cache C → Charvec C
  released_to : List C → Charvec C

module _ (r : RStrings) (blank : r.Charsxp) (is_blank : r.Charsxp → Bool) where
  open r use {Charsxp, na_string, is_na_string}

  -- A new STRSXP.
  abbrev alloc_strings : ℕ → List Charsxp
  alloc_strings n = replicate n blank

  unfoldable pub vector_length : Charvec Charsxp → ℕ
  vector_length (released_to data2) = length data2
  vector_length (live store cache) = length store.records.rows

  -- EltChunk of the chunk that holds element `i`, with the cache after it. Its callers are asked for an
  -- element within the vector, and every chunk is made here with its chunk_len, so that the indices
  -- `i / chunk_size` and `i % chunk_size` are in range, and R's element access raises nothing.
  unfoldable pub elt_chunk : ℕ → Cache Charsxp → ℕ → List Charsxp × Cache Charsxp
  elt_chunk n (some chunks) i = elim (get_or chunks (i / chunk_size) none) [
    | some chunk ↦ (chunk, some chunks)
    | none ↦
        let chunk = alloc_strings (chunk_len n (i / chunk_size)) in
        (chunk, some (set chunks (i / chunk_size) (some chunk)))
  ]
  elt_chunk n none i =
      let chunk = alloc_strings (chunk_len n (i / chunk_size)) in
      (chunk, some (set (replicate (chunk_count n) none) (i / chunk_size) (some chunk)))

  -- SET_STRING_ELT of a chunk that the cache has.
  unfoldable pub cache_put : Cache Charsxp → ℕ → Charsxp → Cache Charsxp
  cache_put none i x = none
  cache_put (some chunks) i x = elim (get_or chunks (i / chunk_size) none) [
    | some chunk ↦ some (set chunks (i / chunk_size) (some (set chunk (i % chunk_size) x)))
    | none ↦ some chunks
  ]

  unfoldable pub string_elt : Mem → Charvec Charsxp → ℕ → Result (Charsxp × Charvec Charsxp)
  string_elt m (released_to data2) i = ok (get_or data2 i na_string, released_to data2)
  string_elt m (live store cache) i =
      let q = elt_chunk (length store.records.rows) cache i in
      let elt = get_or q.0 (i % chunk_size) blank in
      elim (is_blank elt) [
        | false ↦ ok (elt, live store q.1)
        | true ↦ do
          x ← make_charsxp r m (get_or store.records.rows i na_record)
          ok (x, live store (if is_blank x then q.1 else cache_put q.1 i x))
      ]

  unfoldable pub string_set_elt :
      Allocator → Mem → Charvec Charsxp → ℕ → Charsxp → Result (Mem × Charvec Charsxp)
  string_set_elt al m (released_to data2) i new_val = ok (m, released_to (set data2 i new_val))
  string_set_elt al m (live store cache) i new_val = do
    q ← store_assign al m store i (charsxp_to_view r new_val)
    ok (q.0, live q.1 (cache_put cache i new_val))

  -- The strings of rows, of which a chunk has some: its blank ones are made.
  unfoldable pub fill_blanks : Mem → List Charsxp → List StrView → Result (List Charsxp)
  fill_blanks m xs [] = ok []
  fill_blanks m [] (v ∷ vs) = ok []
  fill_blanks m (x ∷ xs) (v ∷ vs) = do
    elt ← if is_blank x then make_charsxp r m v else ok x
    rest ← fill_blanks m xs vs
    ok (elt ∷ rest)

  -- The strings of rows without a chunk.
  unfoldable pub make_strings : Mem → List StrView → Result (List Charsxp)
  make_strings m [] = ok []
  make_strings m (v ∷ vs) = do x ← make_charsxp r m v; rest ← make_strings m vs; ok (x ∷ rest)

  -- The loop over the chunks, from chunk `c` on.
  unfoldable pub materialize_chunks :
      Mem → List StrView → ℕ → List (Option (List Charsxp)) → Result (List Charsxp)
  materialize_chunks m rows c [] = ok []
  materialize_chunks m rows c (chunk ∷ chunks) = do
    let part = take (chunk_len (length rows) c) (drop (c * chunk_size) rows)
    xs ← elim chunk [ none ↦ make_strings m part | some src ↦ fill_blanks m src part ]
    rest ← materialize_chunks m rows (c + 1) chunks
    ok (xs ++ rest)

  -- Materialize: the strings, which the vector then holds in place of its store.
  unfoldable pub materialize : Mem → Charvec Charsxp → Result (List Charsxp)
  materialize m (released_to data2) = ok data2
  materialize m (live store none) = make_strings m store.records.rows
  materialize m (live store (some (some chunk ∷ []))) = fill_blanks m chunk store.records.rows
  materialize m (live store (some chunks)) = materialize_chunks m store.records.rows 0 chunks

  -- Dataptr: the strings behind the pointer, and the vector after it.
  unfoldable pub dataptr : Mem → Charvec Charsxp → Result (List Charsxp × Charvec Charsxp)
  dataptr m x = do data2 ← materialize m x; ok (data2, released_to data2)

  unfoldable pub dataptr_or_null : Charvec Charsxp → Option (List Charsxp)
  dataptr_or_null (released_to data2) = some data2
  dataptr_or_null (live store cache) = none

  -- An ordinary character vector, or a charvec over a new store.
  pub data Copied : Type 0 where
    plain : List Charsxp → Copied
    charvec : Charvec Charsxp → Copied

  unfoldable pub duplicate : Allocator → Mem → Charvec Charsxp → Result (Mem × Copied)
  duplicate al m (released_to data2) = ok (m, plain data2)
  duplicate al m (live store cache) = do
    q ← duplicate_store al m store
    ok (q.0, charvec (live q.1 none))

  unfoldable pub strings_no_na : List Charsxp → Bool
  strings_no_na [] = true
  strings_no_na (x ∷ xs) = if is_na_string x then false else strings_no_na xs

  unfoldable pub rows_no_na : List StrView → Bool
  rows_no_na [] = true
  rows_no_na (v ∷ vs) = if strview_is_na v then false else rows_no_na vs

  unfoldable pub no_na : Charvec Charsxp → Bool
  no_na (released_to data2) = strings_no_na data2
  no_na (live store cache) = rows_no_na store.records.rows

  -- `none` is the nullptr that leaves the subset to R.
  unfoldable pub extract_subset :
      Allocator → Mem → Charvec Charsxp → Subscript → Result (Mem × Option (Charvec Charsxp))
  extract_subset al m (released_to data2) indx = ok (m, none)
  extract_subset al m (live store cache) other_subscript = ok (m, none)
  extract_subset al m (live store cache) (ints ks) = do
    q ← subset_store al m store (ints ks)
    ok (q.0, some (live q.1 none))
  extract_subset al m (live store cache) (reals ks) = do
    q ← subset_store al m store (reals ks)
    ok (q.0, some (live q.1 none))
