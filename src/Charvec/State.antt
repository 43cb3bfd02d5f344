-- ===== src/Charvec/State.antt =====
-- src/charvec_altrep.h: the serialized state of a charvec,
-- "CPV2", an endian flag, then [u64 n][u32 size x n][u8 cetype_ext x n][bytes].
-- A raw vector is the list of its bytes, which RAW has at the start of a block, and a pointer into it
-- is the list from there on; `data_at` is the place of the payload. `max` is the greatest R_xlen_t.
pub mod Encoded
pub mod Reading
pub mod Trip
pub mod Writing
use charport.Prelude.{
  ℕ, zero, suc, ◌+◌, ◌-◌, ◌*◌, ◌^◌, Bool, true, false, ◌||◌, ◌&&◌, not, List, [], ◌∷◌, ◌++◌, length,
  map, take, drop, get_or, if◌then◌else◌, Result, ok, err, ◌>>=◌, ◌>>◌, require, ltb, ◌==◌,
  bad_encoding, bad_state_type, state_truncated, bad_format, bad_endian_flag, header_truncated,
  string_too_long, na_not_empty, payload_truncated, trailing_bytes, length_too_big,
}
use charport.Memory.{Mem, Ptr, null, at, advance, read}
use charport.Interop.{StrView, cetype_na, cetype_native, cetype_utf8, int_is_negative}
use charport.Sizes.{checked_add_size, checked_mul_size, check_r_string_len}
use charport.Words.{Endian, read_u64, read_u32, write_u64_le, write_u32_le, native_endian_flag}
use charport.Charsxp.{RStrings, valid_view_encoding, make_charsxp}
use charport.Charpack.State.{
  StateValue, strings_state, raw_state, altrep_raw_state, null_state, other_state,
}
use charport.Charvec.Store.{Allocator, Store}
use charport.Charvec.Builder.Serial.{Builder, new_builder}
use charport.Charvec.Builder.Serial as Serial
use charport.Charvec.Fill.{released}

-- charvec_serialized_prefix_bytes
abbrev pub prefix_bytes : ℕ
prefix_bytes = 5

-- 'C', 'P', 'V', '1' and '2'
abbrev pub letter_c : ℕ
letter_c = 67

abbrev pub letter_p : ℕ
letter_p = 80

abbrev pub letter_v : ℕ
letter_v = 86

abbrev pub digit_1 : ℕ
digit_1 = 49

abbrev pub digit_2 : ℕ
digit_2 = 50

-- charvec_serialized_length
unfoldable pub serialized_length : ℕ → ℕ → ℕ → Result ℕ
serialized_length max n payload_bytes = do
  sizes_bytes ← checked_mul_size n 4
  enc_bytes ← checked_mul_size n 1
  with_n ← checked_add_size prefix_bytes 8
  with_sizes ← checked_add_size with_n sizes_bytes
  header_bytes ← checked_add_size with_sizes enc_bytes
  total_bytes ← checked_add_size header_bytes payload_bytes
  require (not (ltb max total_bytes)) length_too_big
  ok total_bytes

-- charvec_serialized_layout, with the lists from size_offset, enc_offset and data_offset on.
pub record SerializedLayout : Type 0 where
  pub n : ℕ
  pub swap : Bool
  pub native_is_utf8_text : Bool
  pub sizes : List ℕ
  pub encs : List ℕ
  pub payload : List ℕ
  pub data_at : ℕ

-- charvec_parse_packed of the body that begins at `body_at`.
unfoldable pub parse_packed : Endian → ℕ → ℕ → List ℕ → Bool → Result SerializedLayout
parse_packed host max body_at body swap = do
  require (not (ltb (length body) 8)) state_truncated
  let n = read_u64 host body swap
  require (not (ltb max n)) length_too_big
  sizes_bytes ← checked_mul_size n 4
  enc_bytes ← checked_mul_size n 1
  with_sizes ← checked_add_size 8 sizes_bytes
  header_bytes ← checked_add_size with_sizes enc_bytes
  require (not (ltb (length body) header_bytes)) header_truncated
  let sizes = drop 8 body
  let encs = drop sizes_bytes sizes
  ok (record {
    n = n;
    swap = swap;
    native_is_utf8_text = false;
    sizes = sizes;
    encs = encs;
    payload = drop enc_bytes encs;
    data_at = body_at + 8 + sizes_bytes + enc_bytes;
  })

-- charvec_parse_serialized of a raw vector.
unfoldable pub parse_serialized : Endian → ℕ → List ℕ → Result SerializedLayout
parse_serialized host max raw = do
  require (not (ltb (length raw) (prefix_bytes + 8))) state_truncated
  require
      (get_or raw 0 0 == letter_c
        && get_or raw 1 0 == letter_p
        && get_or raw 2 0 == letter_v
        && (get_or raw 3 0 == digit_1 || get_or raw 3 0 == digit_2))
      bad_format
  let source_endian = get_or raw 4 0
  require (source_endian == 1 || source_endian == 2) bad_endian_flag
  let swap = not (source_endian == native_endian_flag host)
  layout ← parse_packed host max prefix_bytes (drop prefix_bytes raw) swap
  ok (record layout { native_is_utf8_text = get_or raw 3 0 == digit_2 })

-- The record loop of charvec_check_records; `used` never exceeds the payload.
unfoldable pub check_sizes : Endian → Bool → ℕ → ℕ → List ℕ → List ℕ → ℕ → Result (Unit {0})
check_sizes host swap payload zero sizes encs used = require (used == payload) trailing_bytes
check_sizes host swap payload (suc k) sizes encs used = do
  let size = read_u32 host sizes swap
  require (check_r_string_len size) string_too_long
  let encoding = get_or encs 0 0
  require (valid_view_encoding encoding) bad_encoding
  require (not (encoding == cetype_na && not (size == 0))) na_not_empty
  require (not (ltb (payload - used) size)) payload_truncated
  check_sizes host swap payload k (drop 4 sizes) (drop 1 encs) (used + size)

unfoldable pub check_records : Endian → SerializedLayout → Result (Unit {0})
check_records host layout =
    check_sizes host layout.swap (length layout.payload) layout.n layout.sizes layout.encs 0

-- native_as_utf8: 0, -1 (not asked yet) and 1.
pub data NativeAs : Type 0 where
  keep not_asked as_utf8 : NativeAs

-- What is known after a record of the encoding was met.
unfoldable pub asked : Bool → ℕ → NativeAs → NativeAs
asked native_is_utf8 encoding keep = keep
asked native_is_utf8 encoding as_utf8 = as_utf8
asked native_is_utf8 encoding not_asked =
    if encoding == cetype_native then (if native_is_utf8 then keep else as_utf8) else not_asked

unfoldable pub restored_encoding : NativeAs → ℕ → ℕ
restored_encoding as_utf8 encoding = if encoding == cetype_native then cetype_utf8 else encoding
restored_encoding keep encoding = encoding
restored_encoding not_asked encoding = encoding

module _ (host : Endian) (native_is_utf8 : Bool) (al : Allocator) where
  -- The record loop of unserialize_store: `k` records are left, and `data` points at the bytes of
  -- the next.
  unfoldable pub restore_records :
      Mem → Builder → Bool → ℕ → ℕ → List ℕ → List ℕ → Ptr → NativeAs → Result (Mem × Builder)
  restore_records m b swap i zero sizes encs data_offset native_as_utf8 = ok (m, b)
  restore_records m b swap i (suc k) sizes encs data_offset native_as_utf8 = do
    let size = read_u32 host sizes swap
    let known = asked native_is_utf8 (get_or encs 0 0) native_as_utf8
    let encoding = restored_encoding known (get_or encs 0 0)
    q ←
        if encoding == cetype_na
        then Serial.set al m b i null 0 cetype_na
        else Serial.set al m b i data_offset size encoding
    restore_records q.0 q.1 swap (i + 1) k (drop 4 sizes) (drop 1 encs) (advance data_offset size)
        known

  -- `block` holds the raw vector.
  unfoldable pub unserialize_store : Mem → ℕ → SerializedLayout → Result (Mem × Store)
  unserialize_store m block layout = do
    checked ← check_records host layout
    q ← new_builder al m layout.n
    done ←
        restore_records q.0 q.1 layout.swap 0 layout.n layout.sizes layout.encs
          (at block layout.data_at) (if layout.native_is_utf8_text then not_asked else keep)
    ok (released done)

-- What Unserialize returns: an ordinary character vector, or a charvec over a store.
pub data Unserialized (C : Type 0) : Type 0 where
  character_vector : List C → Unserialized C
  stored_vector : Store → Unserialized C

-- Is there a native record?
unfoldable pub any_native : List StrView → Bool
any_native [] = false
any_native (v ∷ vs) = v.enc == cetype_native || any_native vs

-- The size that a record has in the state: 0 for a negative `int`.
abbrev pub stored_size : StrView → ℕ
stored_size v = if int_is_negative v.len then 0 else v.len

unfoldable pub payload_size : List StrView → ℕ → Result ℕ
payload_size [] total_size = ok total_size
payload_size (v ∷ vs) total_size = do
  next ← checked_add_size total_size (stored_size v)
  payload_size vs next

-- The three loops that write the state.
unfoldable pub size_words : Endian → List StrView → List ℕ
size_words host [] = []
size_words host (v ∷ vs) = write_u32_le host (stored_size v) ++ size_words host vs

unfoldable pub payload_bytes : Mem → List StrView → List ℕ
payload_bytes m [] = []
payload_bytes m (v ∷ vs) =
    (if not (int_is_negative v.len) && ltb 0 v.len then read m v.ptr v.len else [])
    ++ payload_bytes m vs

-- The bytes written to the raw vector, from its start.
unfoldable pub state_bytes : Endian → Mem → List StrView → List ℕ
state_bytes host m rows =
    (letter_c ∷ letter_p ∷ letter_v ∷ digit_2 ∷ 1 ∷ [])
    ++ (write_u64_le host (length rows)
        ++ (size_words host rows ++ (map (λ v. v.enc) rows ++ payload_bytes m rows)))

module _ (r : RStrings) where
  open r use {Charsxp}

  -- charvec_altrep::strings
  unfoldable pub strings : Mem → List StrView → Result (List Charsxp)
  strings m [] = ok []
  strings m (v ∷ vs) = do x ← make_charsxp r m v; xs ← strings m vs; ok (x ∷ xs)

module _ (r : RStrings) (host : Endian) (native_is_utf8 : Bool) (max : ℕ) where
  open r use {Charsxp}

  -- Serialized_state of a vector that has its store.
  unfoldable pub serialized_state : Mem → Store → Result (StateValue Charsxp)
  serialized_state m store =
      let rows = store.records.rows in
      elim (any_native rows && not native_is_utf8) [
        | true ↦ do xs ← strings r m rows; ok (strings_state xs)
        | false ↦ do
          total_size ← payload_size rows 0
          total_bytes ← serialized_length max (length rows) total_size
          ok (raw_state (state_bytes host m rows))
      ]

  unfoldable pub unserialize_raw :
      Allocator → Mem → ℕ → List ℕ → Result (Mem × Unserialized Charsxp)
  unserialize_raw al m block raw = do
    layout ← parse_serialized host max raw
    q ← unserialize_store host native_is_utf8 al m block layout
    ok (q.0, stored_vector q.1)

  -- Unserialize, whose argument's bytes are at the start of `block` if it is a raw vector.
  unfoldable pub unserialize :
      Allocator → Mem → ℕ → StateValue Charsxp → Result (Mem × Unserialized Charsxp)
  unserialize al m block (strings_state xs) = ok (m, character_vector xs)
  unserialize al m block (raw_state raw) = unserialize_raw al m block raw
  unserialize al m block (altrep_raw_state raw) = unserialize_raw al m block raw
  unserialize al m block null_state = err bad_state_type
  unserialize al m block other_state = err bad_state_type
