-- ===== src/Charvec/State/Writing.antt =====
-- What a writer makes of a store: the encoding of its records; and the way there and back.
use charport.Charvec.State.Trip.{unserialize-encoded}
use charport.Charvec.Fill.Whole.{strings_of}
use charport.Charvec.Fill.Total.{Serves}
use charport.Memory.Laws.{read_zero, Holds}
use charport.Sizes.{size_max, checked_add_size}
use charport.Charvec.State.Encoded.{sizes_of, encoded, cpv2, mul_fits, add_fits}
use charport.Charvec.State.Reading.{restored}
use charport.Charpack.Fill.Encodes.{IsRec}
use charport.Words.Laws.{write_u32_le-to_bytes, write_u64_le-to_bytes}
use charport.Charsxp.{valid_view_encoding, RStrings}
use charport.Charvec.State.{
  unserialize, serialized_state, strings, stored_vector, stored_size, size_words, payload_bytes,
  state_bytes, payload_size, serialized_length, prefix_bytes, letter_c, letter_p, letter_v, digit_2,
  any_native,
}
use charport.Charvec.Store.{na_record, Store, Allocator}
use charport.Prelude.{
  inr, inl, some, ◌≡◌, if◌then◌else◌, ◌==◌, sym, false, [], length, ◌<◌, not, arith, ◌^◌, leb, true,
  ◌&&◌, ltb, Bool, Bool-cases, List, All, ℕ, map, ◌+◌, ◌≤◌, ◌*◌, ap, ok, ◌∷◌, ◌++◌, refl, ◌∙◌,
  length-map, none, >>=-eq-ok, ok-injective,
}
use charport.Interop.Views.{content, Str, length-read_ptr}
use charport.Memory.{Mem, is_null, read}
use charport.Interop.{
  StrView, strview_is_na, cetype_na, int_is_negative, na_integer, cetype_native, cetype_utf8,
}
use mathlib.Core.Path.{subst, ap₂}
use charport.Words.{little, Endian, write_u32_le, to_bytes}
use charport.Charpack.Encode.{Rec, tags_of, payload_of, total}
use charport.Charpack.State.{strings_state, raw_state, StateValue}

-- A row as the builders and the writer make it: the NA record, or the bytes of a proper string.
pub data IsRow (v : StrView) : Type 0 where
  is_na_row : v ≡ na_record → IsRow v
  is_text_row :
      is_null v.ptr ≡ false
      → v.len < 2 ^ 31
      → (v.enc == cetype_na) ≡ false
      → valid_view_encoding v.enc ≡ true
      → IsRow v

abbrev pub rec_at : Mem → StrView → Rec
rec_at m v =
    if v.enc == cetype_na
    then record { bytes = []; tag = cetype_na }
    else record { bytes = read m v.ptr v.len; tag = v.enc }

-- A string, a native one as UTF-8 if it is to be converted.
abbrev pub as_text : Bool → Str → Str
as_text convert none = none
as_text convert (some x) = some (x.0, if convert && x.1 == cetype_native then cetype_utf8 else x.1)

-- What a row gives to the state.
record Sends (host : Endian) (m : Mem) (v : StrView) : Type 0 where
  pub size : write_u32_le host (stored_size v) ≡ to_bytes little 4 (length (rec_at m v).bytes)
  pub counted : stored_size v ≡ length (rec_at m v).bytes
  pub tag : v.enc ≡ (rec_at m v).tag
  pub bytes :
      (if not (int_is_negative v.len) && ltb 0 v.len then read m v.ptr v.len else [])
      ≡ (rec_at m v).bytes
  pub proper : IsRec (rec_at m v)
  pub string : (convert : Bool) → restored convert (rec_at m v) ≡ as_text convert (content m v)

row-Sends : (host : Endian) (m : Mem) (v : StrView) → IsRow v → Sends host m v
unfolding content strview_is_na valid_view_encoding
row-Sends host m v (is_na_row e) = subst (Sends host m) (sym e) (record {
  size = write_u32_le-to_bytes host 0 (omega arith);
  counted = refl;
  tag = refl;
  bytes = refl;
  proper = record { valid = refl; short = omega arith; na_empty = λ h. refl };
  string = λ convert. refl;
})
row-Sends host m v (is_text_row there short known valid) =
    let nonneg : leb (2 ^ 31) v.len ≡ false = ground arith in
    let not_na : (v.len == na_integer) ≡ false = ground arith in
    let len : length (read m v.ptr v.len) ≡ v.len = length-read_ptr m v.ptr v.len there in
    record {
      size = rw (nonneg, known, len) (write_u32_le-to_bytes host v.len (omega arith));
      counted = rw (nonneg, known, len) refl;
      tag = rw known refl;
      bytes = sent_bytes nonneg;
      proper = rw known (record {
        valid = valid;
        short = omega (arith, len);
        na_empty = λ h. absurd (ground arith);
      });
      string = λ convert. rw (there, known, not_na, nonneg) (rw known refl);
    }
  where
    sent_bytes :
        leb (2 ^ 31) v.len ≡ false
        → (if not (int_is_negative v.len) && ltb 0 v.len then read m v.ptr v.len else [])
          ≡ (rec_at m v).bytes
    sent_bytes nonneg = elim (Bool-cases (ltb 0 v.len)) [
      | inl some_bytes ↦ rw (nonneg, some_bytes, known) refl
      | inr none_left ↦
          let z : 0 ≡ v.len = ground arith in
          rw (nonneg, none_left, known) (sym (read_zero m v.ptr) ∙ ap (read m v.ptr) z)
    ]

size_words-sizes_of :
    (host : Endian) (m : Mem) (rows : List StrView)
    → All IsRow rows
    → size_words host rows ≡ sizes_of little (map (rec_at m) rows)
unfolding size_words sizes_of
size_words-sizes_of host m [] rows = refl
size_words-sizes_of host m (v ∷ vs) (row, rows) =
    let sends = row-Sends host m v row in
    rw (size_words-sizes_of host m vs rows)
      (ap (λ t. t ++ sizes_of little (map (rec_at m) vs)) sends.size)

tags_of-rows :
    (host : Endian) (m : Mem) (rows : List StrView)
    → All IsRow rows
    → map (λ v. v.enc) rows ≡ tags_of (map (rec_at m) rows)
tags_of-rows host m [] rows = refl
tags_of-rows host m (v ∷ vs) (row, rows) =
    let sends = row-Sends host m v row in
    ap₂ (λ t ts. t ∷ ts) sends.tag (tags_of-rows host m vs rows)

payload_bytes-payload_of :
    (host : Endian) (m : Mem) (rows : List StrView)
    → All IsRow rows
    → payload_bytes m rows ≡ payload_of (map (rec_at m) rows)
unfolding payload_bytes
payload_bytes-payload_of host m [] rows = refl
payload_bytes-payload_of host m (v ∷ vs) (row, rows) =
    let sends = row-Sends host m v row in
    ap₂ (λ xs ys. xs ++ ys) sends.bytes (payload_bytes-payload_of host m vs rows)

-- On every host the bytes written for a store are the little-endian encoding of its records.
pub state_bytes-encoded :
    (host : Endian) (m : Mem) (rows : List StrView)
    → length rows < 2 ^ 64
    → All IsRow rows
    → state_bytes host m rows ≡ encoded cpv2 little (map (rec_at m) rows)
unfolding state_bytes
state_bytes-encoded host m rows few proper =
    ap (λ t. (letter_c ∷ letter_p ∷ letter_v ∷ digit_2 ∷ 1 ∷ []) ++ t)
      (ap₂ (λ a b. a ++ b)
        (write_u64_le-to_bytes host (length rows) few
          ∙ ap (to_bytes little 8) (sym (length-map (rec_at m) rows)))
        (ap₂ (λ a b. a ++ b) (size_words-sizes_of host m rows proper)
          (ap₂ (λ a b. a ++ b) (tags_of-rows host m rows proper)
            (payload_bytes-payload_of host m rows proper))))

payload_size-total :
    (host : Endian) (m : Mem) (rows : List StrView) (sum : ℕ)
    → All IsRow rows
    → sum + total (map (rec_at m) rows) ≤ size_max
    → payload_size rows sum ≡ ok (sum + total (map (rec_at m) rows))
unfolding payload_size
payload_size-total host m [] sum rows small = ap ok (omega arith)
payload_size-total host m (v ∷ vs) sum (row, rows) small =
    let counted : stored_size v ≡ length (rec_at m v).bytes = (row-Sends host m v row).counted in
    let next : ℕ = sum + length (rec_at m v).bytes in
    rw (ap (checked_add_size sum) counted, add_fits sum (length (rec_at m v).bytes) (omega arith))
      (payload_size-total host m vs next rows (omega arith) ∙ ap ok (omega arith))

serialized_length-eq_ok :
    (max n payload : ℕ)
    → max < 2 ^ 63
    → prefix_bytes + 8 + n * 5 + payload ≤ max
    → serialized_length max n payload ≡ ok (prefix_bytes + 8 + n * 4 + n * 1 + payload)
unfolding serialized_length
serialized_length-eq_ok max n payload bound fits =
    let within : ltb max (prefix_bytes + 8 + n * 4 + n * 1 + payload) ≡ false = ground arith in
    rw
      (
        mul_fits n 4 (omega arith),
        mul_fits n 1 (omega arith),
        add_fits prefix_bytes 8 (omega arith),
        add_fits (prefix_bytes + 8) (n * 4) (omega arith),
        add_fits (prefix_bytes + 8 + n * 4) (n * 1) (omega arith),
        add_fits (prefix_bytes + 8 + n * 4 + n * 1) payload (omega arith),
        within,
      )
      refl

rows-IsRec :
    (host : Endian) (m : Mem) (rows : List StrView)
    → All IsRow rows
    → All IsRec (map (rec_at m) rows)
rows-IsRec host m [] rows = tt
rows-IsRec host m (v ∷ vs) (row, rows) =
    ((row-Sends host m v row).proper, rows-IsRec host m vs rows)

rows-restored :
    (host : Endian) (m : Mem) (convert : Bool) (rows : List StrView)
    → All IsRow rows
    → map (restored convert) (map (rec_at m) rows) ≡ map (as_text convert) (map (content m) rows)
rows-restored host m convert [] rows = refl
rows-restored host m convert (v ∷ vs) (row, rows) =
    ap₂ (λ c cs. c ∷ cs) ((row-Sends host m v row).string convert)
      (rows-restored host m convert vs rows)

-- The state of a store fits R's longest vector.
abbrev pub StateFits : ℕ → Mem → Store → Type 0
StateFits max m st =
    prefix_bytes + 8 + length st.records.rows * 5 + total (map (rec_at m) st.records.rows) ≤ max

module _ (r : RStrings) (host : Endian) (native_is_utf8 : Bool) (max : ℕ) where
  -- A raw state is the little-endian encoding of the store's records, on every host.
  serialized_state-encoded :
      (m : Mem) (st : Store) (raw : List ℕ)
      → max < 2 ^ 63
      → StateFits max m st
      → All IsRow st.records.rows
      → serialized_state r host native_is_utf8 max m st ≡ ok (raw_state raw)
      → raw ≡ encoded cpv2 little (map (rec_at m) st.records.rows)
  unfolding serialized_state
  serialized_state-encoded m st raw bound fits proper h =
      elim (Bool-cases (any_native st.records.rows && not native_is_utf8)) [
        | inl strange ↦
            let (xs, made, e) =
              >>=-eq-ok (strings r m st.records.rows) _ (rw (serialized_state, strange) at h) in
            absurd (strings-ne-raw (ok-injective e))
        | inr packable ↦
            let (sum, summed, h1) =
              >>=-eq-ok (payload_size st.records.rows 0) _ (rw (serialized_state, packable) at h) in
            let (len, sized, h2) =
              >>=-eq-ok (serialized_length max (length st.records.rows) sum) _ h1 in
            raw_state-injective (sym (ok-injective h2))
            ∙ state_bytes-encoded host m st.records.rows (omega arith) proper
      ]
    where
      strings-ne-raw : {xs : List r.Charsxp} {bs : List ℕ} → strings_state xs ≡ raw_state bs → ⊥
      strings-ne-raw e = cc

      raw_state-injective :
          {xs ys : List ℕ} → ◌≡◌ {A = StateValue r.Charsxp} (raw_state xs) (raw_state ys) → xs ≡ ys
      raw_state-injective e = cc

-- Where a store is sent as a raw state, any host, of either byte order, restores it from memory that
-- holds that state, and memory does not run out: the store made there holds the same strings, except
-- that native ones are UTF-8 where the locale is not.
pub unserialize-state_bytes :
    (r : RStrings) (host host' : Endian) (native_is_utf8 native_is_utf8' : Bool) (max : ℕ)
    (al : Allocator) (m m' : Mem) (st : Store) (raw : List ℕ) (k : ℕ)
    → max < 2 ^ 63
    → StateFits max m st
    → All IsRow st.records.rows
    → serialized_state r host native_is_utf8 max m st ≡ ok (raw_state raw)
    → Serves al (length st.records.rows)
    → 0 < k
    → k < m'.next
    → Holds m' k raw
    → (q : Mem × Store) × (unserialize r host' native_is_utf8' max al m' k (raw_state raw)
        ≡ ok (q.0, stored_vector q.1))
      × (strings_of q.0 q.1 ≡ map (as_text (not native_is_utf8')) (strings_of m st))
unserialize-state_bytes r host host' native_is_utf8 native_is_utf8' max al m m' st raw k bound fits
      proper sent serves pos low held =
    let rs : List Rec = map (rec_at m) st.records.rows in
    let counted : length rs ≡ length st.records.rows = length-map (rec_at m) st.records.rows in
    let e = serialized_state-encoded r host native_is_utf8 max m st raw bound fits proper sent in
    let (q, made, strings) =
      unserialize-encoded r host' native_is_utf8' max al cpv2 little rs m' k bound
        (omega (arith, counted)) (rows-IsRec host m st.records.rows proper)
        (subst (Serves al) (sym counted) serves) pos low (subst (Holds m' k) e held) in
    (
      q,
      subst
          (λ bytes.
            unserialize r host' native_is_utf8' max al m' k (raw_state bytes)
            ≡ ok (q.0, stored_vector q.1))
          (sym e) made,
      strings ∙ rows-restored host m (not native_is_utf8') st.records.rows proper,
    )
