-- ===== src/Charpack/Reader/Correct.antt =====
-- The views that the Reader callbacks of a filled charpack write stand for its records.
use charport.Prelude.{
  ℕ, zero, suc, ◌+◌, ◌-◌, ◌*◌, ◌≤◌, ◌<◌, ◌^◌, ◌%◌, ◌≡◌, refl, sym, ap, ◌∙◌, Bool, true, false, List,
  [], ◌∷◌, ◌++◌, length, All, arith, take, drop, map, if◌then◌else◌, some, none, ◌==◌, ltb,
  Bool-cases, inl, inr, leb, drop-drop, length-map, drop-append, ◌≢◌,
}
use charport.Memory.{Mem, at, read}
use charport.Memory.Laws.{Holds, read-Holds, read_zero}
use charport.Interop.{cetype_na, na_integer, strview_is_na}
use charport.Interop.Views.{Str, content}
use charport.Words.{Endian}
use charport.Charpack.Layout.{end_of, offset_bytes, end_at}
use charport.Charpack.Encode.{
  Rec, encode, Fits, parsed, parse-encode, prefix, prefix-le-total, payload_of, tags_of,
}
use native.Mathlib.Numerals.{add-one}
use mathlib.Core.Path.{ap₂}
use charport.Charpack.Access.{rec_at, prefix-suc, bytes_at, end_at-parsed, tag-parsed, drop-rec_at}
use charport.Charpack.Fill.Encodes.{IsRec}
use charport.Charpack.State.Encoded.{length-encode, body_of, after_words}
use charport.Charpack.Reader.{
  put, range_rest, range_loop, index_loop, reader_strviews_range, reader_strviews_index,
}

-- The string that a record stands for.
abbrev pub str_of : Rec → Str
str_of r = if r.tag == cetype_na then none else some (r.bytes, r.tag)

All-rec_at : (rs : List Rec) (i : ℕ) → i < length rs → All IsRec rs → IsRec (rec_at rs i)
All-rec_at [] i h a = absurd (omega arith)
All-rec_at (r ∷ rs) zero h a = a.0
All-rec_at (r ∷ rs) (suc i) h a = All-rec_at rs i (omega arith) a.1

nil_of_length : (xs : List ℕ) → length xs ≡ 0 → [] ≡ xs
nil_of_length [] h = refl
nil_of_length (x ∷ xs) h = absurd (omega arith)

-- One view: the string between two end offsets.
put-content :
    (m : Mem) (tag begin end b base : ℕ) (bytes : List ℕ)
    → end ≡ begin + length bytes
    → length bytes < 2 ^ 31
    → read m (at b (base + begin)) (length bytes) ≡ bytes
    → content m (put tag begin end (at b base))
      ≡ (if tag == cetype_na then none else some (bytes, tag))
unfolding put content strview_is_na
put-content m tag begin end b base bytes e short held = elim (Bool-cases (tag == cetype_na)) [
  | inl na ↦ rw na refl
  | inr some_string ↦
      let len : (end - begin) % 2 ^ 32 ≡ length bytes = omega arith in
      let not_na : (length bytes == na_integer) ≡ false = ground arith in
      let nonneg : leb (2 ^ 31) (length bytes) ≡ false = ground arith in
      elim (Bool-cases (end == begin)) [
        | inl z ↦
            let none_left : length bytes ≡ 0 = ground arith in
            rw (some_string, z, len, not_na, nonneg)
              (ap (λ t. some (t, tag))
                (ap (read m (at 0 0)) none_left
                  ∙ read_zero m (at 0 0)
                  ∙ nil_of_length bytes none_left))
        | inr nz ↦ rw (some_string, nz, len, not_na, nonneg) (ap (λ t. some (t, tag)) held)
      ]
]

drop-encode :
    (host : Endian) (wide : Bool) (rs : List Rec)
    → drop (8 + offset_bytes wide * length rs + length rs) (encode host wide rs) ≡ payload_of rs
drop-encode host wide rs =
    ap (λ n. drop n (encode host wide rs))
      (let e : 8 + offset_bytes wide * length rs + length rs
            ≡ 8 + (offset_bytes wide * length rs + length rs) =
          omega arith in
        e)
    ∙ sym (drop-drop (offset_bytes wide * length rs + length rs) 8 (encode host wide rs))
    ∙ ap (drop (offset_bytes wide * length rs + length rs)) (body_of host wide rs)
    ∙ sym (drop-drop (length rs) (offset_bytes wide * length rs) _)
    ∙ ap (drop (length rs)) (after_words host wide rs (tags_of rs ++ payload_of rs))
    ∙ drop-append (length rs) (tags_of rs) (payload_of rs) (sym (length-map _ rs))

module _ (host : Endian) (wide : Bool) (rs : List Rec) (fits : Fits wide rs) (valid : All IsRec rs)
    (m : Mem) (b : ℕ) (held : Holds m b (encode host wide rs)) where
  -- The payload in memory, from the start of record `i` on.
  payload_read :
      (i : ℕ)
      → i < length rs
      → read m
          (at b (8 + offset_bytes wide * length rs + length rs + prefix i rs))
          (length (rec_at rs i).bytes)
        ≡ (rec_at rs i).bytes
  payload_read i h =
      read-Holds m b (encode host wide rs)
        (8 + offset_bytes wide * length rs + length rs + prefix i rs) (length (rec_at rs i).bytes)
        held inside
      ∙ ap (take (length (rec_at rs i).bytes)) (
          sym (
            drop-drop (prefix i rs) (8 + offset_bytes wide * length rs + length rs)
              (encode host wide rs))
          ∙ ap (drop (prefix i rs)) (drop-encode host wide rs))
      ∙ bytes_at rs i h
    where
      inside :
          8 + offset_bytes wide * length rs + length rs + prefix i rs + length (rec_at rs i).bytes
          ≤ length (encode host wide rs)
      inside =
          omega (arith, length-encode host wide rs, prefix-suc i rs, prefix-le-total (suc i) rs)

  view_content :
      (i begin end tag : ℕ)
      → i < length rs
      → begin ≡ prefix i rs
      → end ≡ prefix (suc i) rs
      → tag ≡ (rec_at rs i).tag
      → content m (put tag begin end (at b (8 + offset_bytes wide * length rs + length rs)))
        ≡ str_of (rec_at rs i)
  view_content i begin end tag h eb ee et =
      rw (eb, ee, et)
        (put-content m (rec_at rs i).tag (prefix i rs) (prefix (suc i) rs) b _ (rec_at rs i).bytes
          (prefix-suc i rs) (omega (arith, (All-rec_at rs i h valid).short)) (payload_read i h))

  ending :
      (i : ℕ)
      → i < length rs
      → end_of host (offset_bytes (parsed host wide rs fits).wide) (parsed host wide rs fits).ends i
        ≡ prefix (suc i) rs
  unfolding end_at
  ending i h = end_at-parsed host wide rs fits i h

  before :
      (i : ℕ)
      → i < length rs
      → i ≢ 0
      → end_of host
          (offset_bytes (parsed host wide rs fits).wide)
          (parsed host wide rs fits).ends
          (i - 1)
        ≡ prefix i rs
  before i h nz =
      ending (i - 1) (omega arith)
      ∙ ap (λ k. prefix k rs) (let e : suc (i - 1) ≡ i = omega arith in e)

  range_rest-content :
      (left i : ℕ)
      → i ≢ 0
      → i + left ≤ length rs
      → map (content m) (
          range_rest host
            (parsed host wide rs fits)
            (at b (8 + offset_bytes wide * length rs + length rs))
            left
            i)
        ≡ map str_of (take left (drop i rs))
  unfolding range_rest
  range_rest-content zero i nz h = refl
  range_rest-content (suc left) i nz h =
      rw (add-one, drop-rec_at rs i (omega arith))
        (ap₂ (λ x xs. x ∷ xs)
          (view_content i _ _ _ (omega arith) (before i (omega arith) nz) (ending i (omega arith))
            (tag-parsed host wide rs fits i (omega arith)))
          (range_rest-content left (suc i) (omega arith) (omega arith)))

  begin_of :
      (i : ℕ)
      → i < length rs
      → (if i == 0
          then 0
          else end_of host
              (offset_bytes (parsed host wide rs fits).wide)
              (parsed host wide rs fits).ends
              (i - 1))
        ≡ prefix i rs
  begin_of zero h = refl
  begin_of (suc i) h =
      let later : (suc i == 0) ≡ false = ground arith in rw later (before (suc i) h (omega arith))

  index_loop-content :
      (is : List ℕ)
      → All (λ i. i < length rs) is
      → map (content m) (
          index_loop host
            (parsed host wide rs fits)
            (at b (8 + offset_bytes wide * length rs + length rs))
            is)
        ≡ map (λ i. str_of (rec_at rs i)) is
  unfolding index_loop
  index_loop-content [] h = refl
  index_loop-content (i ∷ is) (hi, h) =
      ap₂ (λ x xs. x ∷ xs)
        (view_content i _ _ _ hi (begin_of i hi) (ending i hi) (tag-parsed host wide rs fits i hi))
        (index_loop-content is h)

  range_loop-content :
      (start size : ℕ)
      → start + size ≤ length rs
      → map (content m) (
          range_loop host
            (parsed host wide rs fits)
            (at b (8 + offset_bytes wide * length rs + length rs))
            start
            size)
        ≡ map str_of (take size (drop start rs))
  unfolding range_loop
  range_loop-content start zero h = unfold range_rest in refl
  range_loop-content zero (suc size) h =
      let some_left : ltb 0 (suc size) ≡ true = ground arith in
      let fewer : suc size - 1 ≡ size = omega arith in
      rw (some_left, fewer)
        (ap₂ (λ x xs. x ∷ xs)
            (view_content 0 _ _ _ (omega arith) refl (ending 0 (omega arith))
              (tag-parsed host wide rs fits 0 (omega arith)))
            (range_rest-content size 1 (omega arith) (omega arith))
          ∙ ap (λ t. map str_of (take (suc size) t)) (sym (drop-rec_at rs 0 (omega arith))))
  range_loop-content (suc start) (suc size) h =
      let some_left : ltb 0 (suc size) ≡ true = ground arith in
      let later : (suc start == 0) ≡ false = ground arith in
      rw (some_left, later) (range_rest-content (suc size) (suc start) (omega arith) h)

  -- A range read writes views that stand for the records of the range, in order, for every range
  -- within the vector.
  pub reader_strviews_range-content :
      (start size : ℕ)
      → start + size ≤ length rs
      → map (content m) (reader_strviews_range host b (encode host wide rs) start size)
        ≡ map str_of (take size (drop start rs))
  unfolding reader_strviews_range parsed
  reader_strviews_range-content start size h =
      rw (parse-encode host wide rs fits) (range_loop-content start size h)

  -- An indexed read writes views that stand for the records at the indices, in order, for indices
  -- within the vector.
  pub reader_strviews_index-content :
      (is : List ℕ)
      → All (λ i. i < length rs) is
      → map (content m) (reader_strviews_index host b (encode host wide rs) is)
        ≡ map (λ i. str_of (rec_at rs i)) is
  unfolding reader_strviews_index parsed
  reader_strviews_index-content is h = rw (parse-encode host wide rs fits) (index_loop-content is h)
