-- ===== src/Charpack/Reader.antt =====
-- src/charpack_altrep.h: the Reader callbacks of a filled charpack.
-- The reader state is data1's bytes, which stand in a block of memory; `base` is the pointer to the
-- payload there. Output arrays are the lists of what is written to them. The template flags choose
-- which arrays are written: a ByteView is a StrView without its encoding, a length its length.
-- In data1 no end offset is below the one before it, so `end - begin` does not wrap.
pub mod Correct
use charport.Prelude.{
  ℕ, zero, suc, ◌+◌, ◌-◌, ◌*◌, ◌%◌, ◌^◌, Bool, true, false, ◌&&◌, List, [], ◌∷◌, ltb, ◌==◌,
  if◌then◌else◌, map, get_or,
}
use charport.Memory.{Ptr, null, at, advance}
use charport.Interop.{StrView, ByteView, make_strview, make_byteview, na_integer, cetype_na}
use charport.Words.{Endian}
use charport.Charpack.Layout.{View, parse, end_of, offset_bytes}

-- The static empty string.
abbrev pub empty_data : Ptr
empty_data = at 0 0

-- put<true, true>
unfoldable pub put : ℕ → ℕ → ℕ → Ptr → StrView
put tag begin end bytes =
    let is_na = tag == cetype_na in
    make_strview (if is_na then null else if end == begin then empty_data else advance bytes begin)
      (if is_na then na_integer else (end - begin) % 2 ^ 32) tag

module _ (host : Endian) (v : View) (bytes : Ptr) where
  -- The loop of range_loop from `j` on; `i` is first + j.
  unfoldable pub range_rest : ℕ → ℕ → List StrView
  range_rest zero i = []
  range_rest (suc left) i =
      let width = offset_bytes v.wide in
      put (get_or v.tags i 0) (end_of host width v.ends (i - 1)) (end_of host width v.ends i) bytes
      ∷ range_rest left (i + 1)

  -- range_loop: record 0 has no previous end.
  unfoldable pub range_loop : ℕ → ℕ → List StrView
  unfolding range_rest
  range_loop start size =
      if ltb 0 size && start == 0
      then put (get_or v.tags 0 0) 0 (end_of host (offset_bytes v.wide) v.ends 0) bytes
        ∷ range_rest (size - 1) (start + 1)
      else range_rest size start

  unfoldable pub index_loop : List ℕ → List StrView
  index_loop [] = []
  index_loop (i ∷ is) =
      let width = offset_bytes v.wide in
      put (get_or v.tags i 0) (if i == 0 then 0 else end_of host width v.ends (i - 1))
        (end_of host width v.ends i) bytes
      ∷ index_loop is

abbrev pub drop_encoding : StrView → ByteView
drop_encoding v = make_byteview v.ptr v.len

-- The callbacks; data1 is `raw`, in block `block`.
module _ (host : Endian) (block : ℕ) (raw : List ℕ) where
  unfoldable pub reader_strviews_range : ℕ → ℕ → List StrView
  reader_strviews_range start size =
      let v = parse host raw in range_loop host v (at block v.bytes_at) start size

  unfoldable pub reader_strviews_index : List ℕ → List StrView
  reader_strviews_index indices =
      let v = parse host raw in index_loop host v (at block v.bytes_at) indices

  unfoldable pub reader_byteviews_range : ℕ → ℕ → List ByteView
  reader_byteviews_range start size = map drop_encoding (reader_strviews_range start size)

  unfoldable pub reader_byteviews_index : List ℕ → List ByteView
  reader_byteviews_index indices = map drop_encoding (reader_strviews_index indices)

  unfoldable pub reader_lengths_range : ℕ → ℕ → List ℕ
  reader_lengths_range start size = map (λ v. v.len) (reader_strviews_range start size)

  unfoldable pub reader_lengths_index : List ℕ → List ℕ
  reader_lengths_index indices = map (λ v. v.len) (reader_strviews_index indices)

  -- Encodings need only the tags.
  unfoldable pub encodings_loop : List ℕ → ℕ → ℕ → List ℕ
  encodings_loop tags zero i = []
  encodings_loop tags (suc left) i = get_or tags i 0 ∷ encodings_loop tags left (i + 1)

  unfoldable pub reader_encodings_range : ℕ → ℕ → List ℕ
  reader_encodings_range start size = encodings_loop (parse host raw).tags size start

  unfoldable pub reader_encodings_index : List ℕ → List ℕ
  reader_encodings_index indices = map (λ i. get_or (parse host raw).tags i 0) indices
