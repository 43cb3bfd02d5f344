-- ===== src/Charvec/State/Encoded.antt =====
-- The format as a function of the records that a state holds, and its header read back.
use charport.Sizes.Checked.{checked_mul_size_lem, checked_add_size_lem}
use charport.Sizes.{size_max, checked_mul_size, checked_add_size}
use charport.Words.Laws.{differ, length-to_bytes, read_u64-to_bytes}
use charport.Charvec.State.{
  parse_packed, parse_serialized, digit_1, digit_2, letter_c, SerializedLayout, letter_p,
  prefix_bytes, letter_v,
}
use charport.Prelude.{
  ℕ, Bool, false, List, ◌*◌, ◌+◌, true, length, ◌≤◌, ◌<◌, ◌++◌, ◌∷◌, ◌≡◌, ◌^◌, arith, ok,
  length-append, leb, [], ◌∙◌, length-map, refl, ltb, drop, drop-append, sym, ◌==◌, ◌||◌, not,
}
use charport.Words.{
  little, big, Endian, native_endian_flag, to_bytes, read_u64, host_is_little_endian, le_bytes,
}
use charport.Charpack.Encode.{Rec, tags_of, payload_of}

-- CPV1 and CPV2.
pub data Version : Type 0 where
  cpv1 cpv2 : Version

abbrev pub version_digit : Version → ℕ
version_digit cpv1 = digit_1
version_digit cpv2 = digit_2

abbrev pub is_cpv2 : Version → Bool
is_cpv2 cpv1 = false
is_cpv2 cpv2 = true

abbrev pub endian_flag : Endian → ℕ
endian_flag little = 1
endian_flag big = 2

unfoldable pub sizes_of : Endian → List Rec → List ℕ
sizes_of e [] = []
sizes_of e (r ∷ rs) = to_bytes e 4 (length r.bytes) ++ sizes_of e rs

abbrev pub encoded_body : Endian → List Rec → List ℕ
encoded_body e rs = to_bytes e 8 (length rs) ++ (sizes_of e rs ++ (tags_of rs ++ payload_of rs))

abbrev pub encoded : Version → Endian → List Rec → List ℕ
encoded v e rs =
    (letter_c ∷ letter_p ∷ letter_v ∷ version_digit v ∷ endian_flag e ∷ []) ++ encoded_body e rs

pub length-sizes_of : (e : Endian) (rs : List Rec) → length (sizes_of e rs) ≡ length rs * 4
unfolding sizes_of
length-sizes_of e [] = refl
length-sizes_of e (r ∷ rs) = omega (
  arith,
  length-append (to_bytes e 4 (length r.bytes)) (sizes_of e rs),
  length-to_bytes e 4 (length r.bytes),
  length-sizes_of e rs,
)

-- What is read of the header.
abbrev pub layout_of : Version → Endian → Endian → List Rec → SerializedLayout
layout_of v e host rs = record {
  n = length rs;
  swap = differ e host;
  native_is_utf8_text = is_cpv2 v;
  sizes = sizes_of e rs ++ (tags_of rs ++ payload_of rs);
  encs = tags_of rs ++ payload_of rs;
  payload = payload_of rs;
  data_at = prefix_bytes + 8 + length rs * 4 + length rs * 1;
}

pub mul_fits : (a b : ℕ) → a * b ≤ size_max → checked_mul_size a b ≡ ok (a * b)
mul_fits a b h =
    let fits : leb (a * b) size_max ≡ true = ground arith in checked_mul_size_lem a b ∙ rw fits refl

pub add_fits : (a b : ℕ) → a + b ≤ size_max → checked_add_size a b ≡ ok (a + b)
add_fits a b h =
    let fits : leb (a + b) size_max ≡ true = ground arith in
    checked_add_size_lem a b (omega arith) (omega arith) ∙ rw fits refl

parse_packed-body :
    (v : Version) (e host : Endian) (max : ℕ) (rs : List Rec)
    → max < 2 ^ 63
    → prefix_bytes + 8 + length rs * 5 ≤ max
    → parse_packed host max prefix_bytes (encoded_body e rs) (differ e host)
      ≡ ok (record (layout_of v e host rs) { native_is_utf8_text = false })
unfolding parse_packed
parse_packed-body v e host max rs bound few =
    let counted =
      length-append (to_bytes e 8 (length rs)) (sizes_of e rs ++ (tags_of rs ++ payload_of rs)) in
    let parts = length-append (sizes_of e rs) (tags_of rs ++ payload_of rs) in
    let tail = length-append (tags_of rs) (payload_of rs) in
    let head = length-to_bytes e 8 (length rs) in
    let words = length-sizes_of e rs in
    let tags = length-map (λ r. r.tag) rs in
    let long : ltb (length (encoded_body e rs)) 8 ≡ false = ground (arith, counted, head) in
    let read : read_u64 host (encoded_body e rs) (differ e host) ≡ length rs =
      read_u64-to_bytes host e (length rs) (sizes_of e rs ++ (tags_of rs ++ payload_of rs))
        (omega arith) in
    let within : ltb max (length rs) ≡ false = ground arith in
    let all : ltb (length (encoded_body e rs)) (8 + length rs * 4 + length rs * 1) ≡ false =
      ground (arith, counted, parts, tail, head, words, tags) in
    let sizes : drop 8 (encoded_body e rs) ≡ sizes_of e rs ++ (tags_of rs ++ payload_of rs) =
      drop-append 8 (to_bytes e 8 (length rs)) (sizes_of e rs ++ (tags_of rs ++ payload_of rs))
        (sym head) in
    let encs : drop (length rs * 4) (sizes_of e rs ++ (tags_of rs ++ payload_of rs))
        ≡ tags_of rs ++ payload_of rs =
      drop-append (length rs * 4) (sizes_of e rs) (tags_of rs ++ payload_of rs) (sym words) in
    let bytes : drop (length rs * 1) (tags_of rs ++ payload_of rs) ≡ payload_of rs =
      drop-append (length rs * 1) (tags_of rs) (payload_of rs) (omega (arith, tags)) in
    rw
      (
        long,
        read,
        within,
        mul_fits (length rs) 4 (omega arith),
        mul_fits (length rs) 1 (omega arith),
        add_fits 8 (length rs * 4) (omega arith),
        add_fits (8 + length rs * 4) (length rs * 1) (omega arith),
        all,
        sizes,
        encs,
        bytes,
      )
      refl

digit_known : (v : Version) → (version_digit v == digit_1 || version_digit v == digit_2) ≡ true
digit_known cpv1 = refl
digit_known cpv2 = refl

digit_text : (v : Version) → (version_digit v == digit_2) ≡ is_cpv2 v
digit_text cpv1 = refl
digit_text cpv2 = refl

flag_known : (e : Endian) → (endian_flag e == 1 || endian_flag e == 2) ≡ true
flag_known little = refl
flag_known big = refl

flag_differs : (e host : Endian) → not (endian_flag e == native_endian_flag host) ≡ differ e host
unfolding native_endian_flag host_is_little_endian to_bytes le_bytes
flag_differs little little = refl
flag_differs little big = refl
flag_differs big little = refl
flag_differs big big = refl

-- A state of either version, in either byte order, is parsed on every host.
pub parse_serialized-encoded :
    (v : Version) (e host : Endian) (max : ℕ) (rs : List Rec)
    → max < 2 ^ 63
    → prefix_bytes + 8 + length rs * 5 ≤ max
    → parse_serialized host max (encoded v e rs) ≡ ok (layout_of v e host rs)
unfolding parse_serialized
parse_serialized-encoded v e host max rs bound few =
    let counted =
      length-append (to_bytes e 8 (length rs)) (sizes_of e rs ++ (tags_of rs ++ payload_of rs)) in
    let head = length-to_bytes e 8 (length rs) in
    let long : ltb (length (encoded v e rs)) 13 ≡ false = ground (arith, counted, head) in
    rw
      (
        long,
        digit_known v,
        flag_known e,
        flag_differs e host,
        parse_packed-body v e host max rs bound few,
        digit_text v,
      )
      refl
