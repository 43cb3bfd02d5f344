-- ===== src/Tests/Packs.antt =====
-- Charpacks: filling, reading, and the serialized state.
use charport.Charpack.State.Accepted.{IsWhole, state_error-IsPlaced}
use charport.Prelude.{
  ℕ, ◌+◌, ◌*◌, ◌≤◌, ◌≡◌, refl, true, false, ◌&&◌, not, List, [], ◌∷◌, map, take, drop, All, arith,
  ok, Option, some, leb, if◌then◌else◌, collect, ◌>>=◌,
}
use charport.Memory.{Ptr, at, read, write, store_byte}
use charport.Memory.Laws.{Holds, read-write_self}
use charport.Interop.{StrView}
use charport.Interop.Views.{content}
use charport.Charsxp.{valid_view_encoding, view_is_na}
use charport.Words.{little, big, to_bytes, le_bytes}
use charport.Words.Laws.{differ, flip}
use charport.Charpack.Layout.{parse, offset_bytes, total_bytes, needs_wide, write_head, write_end}
use charport.Charpack.Encode.{encode, Fits, parsed, parse-encode, total, payload_of, words}
use charport.Charpack.Access.{rec_at}
use charport.Charpack.Fill.{
  Charpack, unfilled, filled, Sexp, charpack, entries, zip_views, fill_views, fill_slices,
  bare_entries, slice_entries, copy_slices, entry_is_na, record_is_na, check_unfilled, zip_slices,
  checked_payload, checked_sliced, alloc_data1, write_records,
}
use charport.Charpack.Fill.Encodes.{IsRec, rec_of}
use charport.Charpack.Fill.Alloc.{total_bytes_exact}
use charport.Charpack.Fill.Views.{recs, width, IsEntry, fill_views-encode, fill_views-total}
use charport.Charpack.Fill.Slices.{cut, fill_slices-encode, joined}
use charport.Charpack.State.{
  state_error, swap_words, strings, serialized_state, unserialize, character, packed,
}
use charport.Charpack.State.Encoded.{state_error-encode, swap_words-encode}
use charport.Charpack.State.Trip.{
  native_in, as_utf8, charsxp_of, strings-encode, unserialize-serialized_state,
}
use charport.Charpack.Reader.{reader_strviews_range, reader_strviews_index}
use charport.Charpack.Reader.Correct.{
  str_of, reader_strviews_range-content, reader_strviews_index-content,
}
use charport.Tests.Data.{
  three, three-Fits, three-IsRec, text, stored, three_views, ptrs, lengths, encodings, xlen_max,
  test_strings, served,
}

parse-encode_example : parse big (encode big false three) ≡ parsed big false three three-Fits
parse-encode_example = parse-encode big false three three-Fits

total_bytes_example : total_bytes xlen_max 3 100 false ≡ (
    if leb (8 + 3 * (offset_bytes false + 1) + 100) xlen_max
    then 8 + 3 * (offset_bytes false + 1) + 100
    else 0)
total_bytes_example = total_bytes_exact xlen_max 3 100 false (omega arith)

entries_three : entries 3 ptrs lengths encodings ≡ ok three_views
unfolding entries zip_views
entries_three = refl

three-IsEntry : All (IsEntry true) three_views
unfolding valid_view_encoding entry_is_na view_is_na
three-IsEntry =
    ((refl, λ h. omega arith), ((refl, λ h. ground arith), ((refl, λ h. omega arith), tt)))

three_small :
    8 + 3 * (offset_bytes (width false (recs text three_views)) + 1) + total (recs text three_views)
    ≤ xlen_max
unfolding rec_of entry_is_na view_is_na read needs_wide
three_small = omega arith

fill_views-total_example :
    fill_views {C = ℕ} big xlen_max served text (charpack unfilled) 3 ptrs lengths encodings false
    ≡ ok (filled (encode big (width false (recs text three_views)) (recs text three_views)))
fill_views-total_example =
    fill_views-total big xlen_max served text 3 ptrs lengths encodings false three_views
      (omega arith) (omega arith) (omega arith) entries_three three-IsEntry three_small
      (λ size. refl)

fill_views-encode_example :
    (vs : List StrView) × (entries 3 ptrs lengths encodings ≡ ok vs)
    × (◌≡◌ {A = Sexp ℕ} (charpack unfilled) (charpack unfilled))
    × ◌≡◌ {A = Charpack ℕ}
        (filled (encode big (width false (recs text three_views)) (recs text three_views)))
        (filled (encode big (width false (recs text vs)) (recs text vs)))
    × Fits (width false (recs text vs)) (recs text vs)
    × All IsRec (recs text vs)
fill_views-encode_example =
    fill_views-encode big xlen_max served text (charpack unfilled) 3 ptrs lengths encodings false
      (filled (encode big (width false (recs text three_views)) (recs text three_views)))
      (omega arith) (omega arith) fill_views-total_example

-- The bytes "hia" in two slices, cut inside "hi".
abbrev slices : Option (List Ptr)
slices = some (at 1 0 ∷ at 1 1 ∷ [])

abbrev slice_bytes : Option (List ℕ)
slice_bytes = some (1 ∷ 2 ∷ [])

slices_three :
    fill_slices {C = ℕ} big xlen_max served text
      (charpack unfilled)
      3
      lengths
      encodings
      2
      slices
      slice_bytes
      false
    ≡ ok (filled (encode big false three))
unfolding fill_slices check_unfilled bare_entries zip_views slice_entries zip_slices checked_payload
    checked_sliced valid_view_encoding entry_is_na record_is_na alloc_data1 write_records write_head
    write_end copy_slices read write store_byte encode words total_bytes needs_wide to_bytes
    le_bytes
slices_three = refl

fill_slices-encode_example :
    (vs : List StrView) × (ss : List (Ptr × ℕ)) × (bare_entries 3 lengths encodings ≡ ok vs)
    × (slice_entries 2 slices slice_bytes ≡ ok ss)
    × (◌≡◌ {A = Sexp ℕ} (charpack unfilled) (charpack unfilled))
    × (payload_of (cut (joined text ss) vs) ≡ joined text ss)
    × ◌≡◌ {A = Charpack ℕ}
        (filled (encode big false three))
        (filled (encode big (width false (cut (joined text ss) vs)) (cut (joined text ss) vs)))
    × All IsRec (cut (joined text ss) vs)
fill_slices-encode_example =
    fill_slices-encode big xlen_max served text (charpack unfilled) 3 lengths encodings 2 slices
      slice_bytes false (filled (encode big false three)) (omega arith) (omega arith) slices_three

three_accepted : state_error little (encode big false three) (differ big little) ≡ ok tt
three_accepted = state_error-encode little big false three three-Fits three-IsRec

state_error-IsPlaced_example : IsWhole little (encode big false three) (differ big little)
state_error-IsPlaced_example =
    state_error-IsPlaced little (encode big false three) (differ big little) three_accepted

swap_words_example :
    swap_words little (encode big false three) (not (differ big little))
    ≡ encode (flip big) false three
swap_words_example = swap_words-encode little big false three three-Fits

strings_example :
    strings test_strings big true (encode big false three) ≡ collect (charsxp_of test_strings) three
strings_example = strings-encode big false three three-Fits test_strings true

unserialize-serialized_state_example :
    (serialized_state test_strings little false (filled (encode little false three))
      >>= unserialize test_strings big true)
    ≡ (if native_in three && not false
        then (collect (charsxp_of test_strings) three >>= λ xs. ok (character xs))
        else ok (
            packed (
              filled (
                encode big false
                  (if native_in three && not true then map as_utf8 three else three)))))
unserialize-serialized_state_example =
    unserialize-serialized_state test_strings little big false false true three three-Fits
      three-IsRec

stored-Holds : Holds stored 2 (encode little false three)
stored-Holds = read-write_self text 2 0 (encode little false three)

reader_strviews_range_example :
    map (content stored) (reader_strviews_range little 2 (encode little false three) 1 2)
    ≡ map str_of (take 2 (drop 1 three))
reader_strviews_range_example =
    reader_strviews_range-content little false three three-Fits three-IsRec stored 2 stored-Holds 1
      2 (omega arith)

reader_strviews_index_example :
    map (content stored) (reader_strviews_index little 2 (encode little false three) (2 ∷ 0 ∷ []))
    ≡ map (λ i. str_of (rec_at three i)) (2 ∷ 0 ∷ [])
reader_strviews_index_example =
    reader_strviews_index-content little false three three-Fits three-IsRec stored 2 stored-Holds
      (2 ∷ 0 ∷ []) (omega arith, (omega arith, tt))
