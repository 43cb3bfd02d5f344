-- ===== src/Charvec/Callbacks.antt =====
-- src/charvec_altrep.h: the callbacks through which a Reader sees a charvec that has its store.
-- Each copies from the store's record arrays; output arrays are the lists of what is written to them.
pub mod Ranges
use charport.Prelude.{ℕ, List, map, take, drop, get_or, Option, none, some, ◌==◌, if◌then◌else◌, []}
use charport.Interop.{StrView, ByteView, make_byteview}
use charport.Charvec.Store.{Store, na_record}
use charport.Charvec.Vector.{Charvec, live, released_to}

-- The store, or `none` for a vector that has released it.
unfoldable pub reader_init : {C : Type 0} → Charvec C → Option Store
reader_init (released_to data2) = none
reader_init (live store cache) = some store

-- memcpy of `size` records from `start` on.
unfoldable pub copied_rows : Store → ℕ → ℕ → List StrView
copied_rows store start size = if size == 0 then [] else take size (drop start store.records.rows)

-- The loop over an index array.
unfoldable pub picked_rows : Store → List ℕ → List StrView
picked_rows store indices = map (λ i. get_or store.records.rows i na_record) indices

abbrev pub bytes_view : StrView → ByteView
bytes_view v = make_byteview v.ptr v.len

unfoldable pub reader_strviews_range : Store → ℕ → ℕ → List StrView
reader_strviews_range store start size = copied_rows store start size

unfoldable pub reader_strviews_index : Store → List ℕ → List StrView
reader_strviews_index store indices = picked_rows store indices

unfoldable pub reader_byteviews_range : Store → ℕ → ℕ → List ByteView
reader_byteviews_range store start size = map bytes_view (copied_rows store start size)

unfoldable pub reader_byteviews_index : Store → List ℕ → List ByteView
reader_byteviews_index store indices = map bytes_view (picked_rows store indices)

unfoldable pub reader_lengths_range : Store → ℕ → ℕ → List ℕ
reader_lengths_range store start size = map (λ v. v.len) (copied_rows store start size)

unfoldable pub reader_lengths_index : Store → List ℕ → List ℕ
reader_lengths_index store indices = map (λ v. v.len) (picked_rows store indices)

unfoldable pub reader_encodings_range : Store → ℕ → ℕ → List ℕ
reader_encodings_range store start size = map (λ v. v.enc) (copied_rows store start size)

unfoldable pub reader_encodings_index : Store → List ℕ → List ℕ
reader_encodings_index store indices = map (λ v. v.enc) (picked_rows store indices)
