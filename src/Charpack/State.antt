-- ===== src/Charpack/State.antt =====
-- src/charpack_altrep.h: the serialized state of a charpack, its validation, and its byte order.
-- In data1 no end offset is below the one before it, so `end - begin` of `strings` does not wrap.
pub mod Accepted
pub mod Encoded
pub mod Trip
use charport.Prelude.{
  ℕ, zero, suc, ◌+◌, ◌-◌, ◌*◌, ◌/◌, ◌%◌, ◌^◌, Bool, true, false, ◌&&◌, ◌||◌, not, List, [], ◌∷◌,
  ◌++◌, ltb, leb, ◌==◌, if◌then◌else◌, length, take, drop, get_or, Result, ok, err, Error, ◌>>=◌,
  ◌>>◌, require, state_truncated, ends_out_of_order, string_too_long, bad_encoding, na_not_empty,
  trailing_bytes, bad_state_type, map,
}
use charport.Interop.{cetype_native, cetype_utf8, cetype_na}
use charport.Charsxp.{RStrings, valid_view_encoding, to_base_encoding}
use charport.Sizes.{check_r_string_len}
use charport.Words.{
  Endian, to_bytes, of_bytes, bswap64, bswap32, read_u64, read_u32, host_is_little_endian,
}
use charport.Charpack.Layout.{
  View, parse, end_at, header_bytes, offset_bytes, head_wide, head_n, write_end,
}
use charport.Charpack.Fill.{Charpack, unfilled, filled, materialized}

unfoldable pub read_word : Endian → List ℕ → Bool → Bool → ℕ
read_word host p wide swap = if wide then read_u64 host p swap else read_u32 host p swap

-- The record loop of state_error; `ends` and `tags` point at the next record's entries.
unfoldable pub check_ends : Endian → Bool → Bool → ℕ → ℕ → List ℕ → List ℕ → ℕ → Result (Unit {0})
check_ends host wide swap payload zero ends tags begin = require (begin == payload) trailing_bytes
check_ends host wide swap payload (suc count) ends tags begin = do
  let end = read_word host ends wide swap
  require (not (ltb end begin || ltb payload end)) ends_out_of_order
  require (check_r_string_len (end - begin)) string_too_long
  let tag = get_or tags 0 0
  require (valid_view_encoding tag) bad_encoding
  require (not (tag == cetype_na && not (end == begin))) na_not_empty
  check_ends host wide swap payload count (drop (offset_bytes wide) ends) (drop 1 tags) end

-- `ok` stands for nullptr, an error for the reason.
unfoldable pub state_error : Endian → List ℕ → Bool → Result (Unit {0})
state_error host raw swap = do
  require (not (ltb (length raw) header_bytes)) state_truncated
  let head = read_u64 host raw swap
  let wide = head_wide head
  let count = head_n head
  let width = offset_bytes wide
  require (not (ltb ((length raw - header_bytes) / (width + 1)) count)) state_truncated
  let meta = header_bytes + count * (width + 1)
  let ends = drop header_bytes raw
  check_ends host wide swap (length raw - meta) count ends (drop (width * count) ends) 0

unfoldable pub swap_ends : Endian → Bool → ℕ → List ℕ → List ℕ
swap_ends host wide zero ends = []
swap_ends host wide (suc n) ends =
    write_end host wide (read_word host ends wide true)
    ++ swap_ends host wide n (drop (offset_bytes wide) ends)

-- The raw vector after the swap in place: head and end offsets are new, the rest stays.
unfoldable pub swap_words : Endian → List ℕ → Bool → List ℕ
swap_words host raw head_native =
    let head = read_u64 host raw (not head_native) in
    let wide = head_wide head in
    let n = head_n head in
    to_bytes host 8 (bswap64 (read_u64 host raw false))
    ++ (swap_ends host wide n (drop header_bytes raw)
        ++ drop (offset_bytes wide * n) (drop header_bytes raw))

-- memchr
unfoldable pub has_byte : ℕ → List ℕ → Bool
has_byte b [] = false
has_byte b (x ∷ xs) = x == b || has_byte b xs

unfoldable pub has_native : Endian → List ℕ → Bool
has_native host raw =
    let v = parse host raw in ltb 0 v.n && has_byte cetype_native (take v.n v.tags)

-- A serialized state, by its R type: what Serialized_state sends and Unserialize gets. `null_state`
-- is the C nullptr, for which R writes the ordinary vector.
pub data StateValue (C : Type 0) : Type 0 where
  strings_state : List C → StateValue C
  raw_state : List ℕ → StateValue C
  altrep_raw_state : List ℕ → StateValue C
  null_state : StateValue C
  other_state : StateValue C

-- Every native tag becomes UTF-8.
unfoldable pub retag : ℕ → List ℕ → List ℕ
retag zero bs = bs
retag (suc n) [] = []
retag (suc n) (t ∷ ts) = (if t == cetype_native then cetype_utf8 else t) ∷ retag n ts

-- The raw vector after its tags were rewritten in place.
unfoldable pub retag_raw : Endian → List ℕ → List ℕ
retag_raw host raw =
    let v = parse host raw in
    let before = header_bytes + offset_bytes v.wide * v.n in take before raw ++ retag v.n v.tags

-- What Unserialize returns: an ordinary character vector, or a charpack.
pub data Restored (C : Type 0) : Type 0 where
  character : List C → Restored C
  packed : Charpack C → Restored C

module _ (r : RStrings) (host : Endian) (native_is_utf8 : Bool) where
  open r use {Charsxp, na_string, mk_char_len_ce}

  -- The record loop of strings(); `i` counts from the record at hand.
  unfoldable pub strings_loop : View → ℕ → ℕ → ℕ → Result (List Charsxp)
  strings_loop v zero i begin = ok []
  strings_loop v (suc k) i begin = do
    let enc = get_or v.tags i 0
    let end = end_at host v i
    x ←
        if enc == cetype_na
        then ok na_string
        else mk_char_len_ce (take (end - begin) (drop begin v.bytes)) (to_base_encoding enc)
    xs ← strings_loop v k (i + 1) end
    ok (x ∷ xs)

  unfoldable pub strings : List ℕ → Result (List Charsxp)
  strings data1 = let v = parse host data1 in strings_loop v v.n 0 0

  unfoldable pub serialized_state : Charpack Charsxp → Result (StateValue Charsxp)
  serialized_state (materialized data2) = ok (strings_state data2)
  serialized_state unfilled = ok null_state
  serialized_state (filled data1) =
      if has_native host data1 && not native_is_utf8
      then (strings data1 >>= λ xs. ok (strings_state xs))
      else if host_is_little_endian host
      then ok (raw_state data1)
      else ok (raw_state (swap_words host data1 true))

  unfoldable pub unserialize : StateValue Charsxp → Result (Restored Charsxp)
  unserialize (strings_state xs) = ok (character xs)
  unserialize (raw_state raw) =
      let swap = not (host_is_little_endian host) in
      do
        state_error host raw swap
        let data1 = if swap then swap_words host raw false else raw
        ok (
            packed (
              filled (
                if has_native host data1 && not native_is_utf8
                then retag_raw host data1
                else data1)))
  unserialize (altrep_raw_state raw) = err bad_state_type
  unserialize null_state = err bad_state_type
  unserialize other_state = err bad_state_type
