-- ===== src/Charvec/State/Reading.antt =====
-- What a reader makes of a state: its checks pass, and its record loop sets the views of the records.
use charport.Charvec.Builder.Records.{content_of_stored}
use charport.Memory.Laws.{read-append, length-read}
use charport.Charvec.Builder.{set_view}
use charport.Charvec.Builder.Serial as Serial
use charport.Charvec.Fill.Whole.{Given}
use charport.Words.Laws.{differ, read_u32-to_bytes, length-to_bytes}
use charport.Charvec.Builder.Serial.{Builder, set_strview}
use charport.Charpack.Fill.Encodes.{IsRec}
use charport.Charvec.Store.{Allocator, na_record}
use charport.Interop.Views.{Str, content}
use charport.Charvec.Fill.{set_views}
use charport.Interop.{
  StrView, cetype_na, cetype_native, cetype_utf8, make_strview, strview_is_na, na_integer,
}
use charport.Sizes.{check_r_string_len, r_string_size_max}
use charport.Charpack.Encode.{Rec, total, payload_of, tags_of, length-payload_of}
use charport.Words.{Endian, to_bytes}
use charport.Memory.{Mem, read, at, null}
use charport.Charvec.State.Encoded.{Version, sizes_of, is_cpv2, layout_of}
use charport.Prelude.{
  inr, inl, ℕ, Bool, List, ◌&&◌, ◌≡◌, All, if◌then◌else◌, not, false, ◌<◌, ◌==◌, true, ◌+◌, ok,
  length, none, ◌++◌, some, arith, map, leb, append_assoc, ltb, drop-append, ◌-◌, sym, ap, ◌>>=◌,
  ◌∙◌, >>=-eq, Bool-cases, [], ◌^◌, refl, length-append, take-append, take, drop,
}
use charport.Charvec.State.{
  ◌∷◌, check_sizes, check_records, asked, NativeAs, restore_records, restored_encoding, keep,
  not_asked, as_utf8,
}
use mathlib.Core.Path.{ap₂}

check_sizes-sizes_of :
    (e host : Endian) (payload : ℕ) (rs : List Rec) (rest more : List ℕ) (used : ℕ)
    → All IsRec rs
    → used + total rs ≡ payload
    → check_sizes host
        (differ e host)
        payload
        (length rs)
        (sizes_of e rs ++ rest)
        (tags_of rs ++ more)
        used
      ≡ ok tt
unfolding check_sizes sizes_of check_r_string_len
check_sizes-sizes_of e host payload [] rest more used recs whole =
    let done : (used == payload) ≡ true = ground arith in rw done refl
check_sizes-sizes_of e host payload (r ∷ rs) rest more used (own, recs) whole =
    let short = own.short in
    let na_empty : not (r.tag == cetype_na && not (length r.bytes == 0)) ≡ true =
      ground (arith, own.na_empty) in
    let fits : leb (length r.bytes) r_string_size_max ≡ true = ground arith in
    let room : ltb (payload - used) (length r.bytes) ≡ false = ground arith in
    rw
      (
        append_assoc,
        read_u32-to_bytes host e (length r.bytes) (sizes_of e rs ++ rest) (omega arith),
        drop-append 4 (to_bytes e 4 (length r.bytes)) (sizes_of e rs ++ rest)
            (sym (length-to_bytes e 4 (length r.bytes))),
        fits,
        own.valid,
        na_empty,
        room,
      )
      (check_sizes-sizes_of e host payload rs rest more (used + length r.bytes) recs (omega arith))

-- The checks of a reader accept every state that a list of proper records encodes.
pub check_records-encoded :
    (v : Version) (e host : Endian) (rs : List Rec)
    → All IsRec rs
    → check_records host (layout_of v e host rs) ≡ ok tt
unfolding check_records
check_records-encoded v e host rs recs =
    check_sizes-sizes_of e host (length (payload_of rs)) rs (tags_of rs ++ payload_of rs)
      (payload_of rs) 0 recs (omega (arith, length-payload_of rs))

-- The views that the record loop sets, for payload bytes from offset `o` of block `k` on.
abbrev pub view_of : ℕ → ℕ → Rec → ℕ → StrView
view_of k o r enc =
    if enc == cetype_na then na_record else make_strview (at k o) (length r.bytes) enc

module _ (native_is_utf8 : Bool) (k : ℕ) where
  unfoldable pub views_of : ℕ → NativeAs → List Rec → List StrView
  views_of o known [] = []
  views_of o known (r ∷ rs) =
      view_of k o r (restored_encoding (asked native_is_utf8 r.tag known) r.tag)
      ∷ views_of (o + length r.bytes) (asked native_is_utf8 r.tag known) rs

  set_known-eq_set_strview :
      (al : Allocator) (m : Mem) (b : Builder) (i o n enc : ℕ)
      → n < 2 ^ 31
      → (enc == cetype_na) ≡ false
      → Serial.set al m b i (at k o) n enc ≡ set_strview al m b i (make_strview (at k o) n enc)
  unfolding Serial.set set_strview set_view strview_is_na
  set_known-eq_set_strview al m b i o n enc short known =
      let counted : (n == na_integer) ≡ false = ground arith in
      let nonneg : leb (2 ^ 31) n ≡ false = ground arith in rw (known, counted, nonneg) refl

  set_na-eq_set_strview :
      (al : Allocator) (m : Mem) (b : Builder) (i : ℕ)
      → Serial.set al m b i null 0 cetype_na ≡ set_strview al m b i na_record
  unfolding Serial.set set_strview set_view strview_is_na
  set_na-eq_set_strview al m b i = refl

  set_at-eq_set_view :
      (al : Allocator) (m : Mem) (b : Builder) (i o enc : ℕ) (r : Rec)
      → length r.bytes < 2 ^ 31
      → (if enc == cetype_na
          then Serial.set al m b i null 0 cetype_na
          else Serial.set al m b i (at k o) (length r.bytes) enc)
        ≡ set_strview al m b i (view_of k o r enc)
  set_at-eq_set_view al m b i o enc r short = elim (Bool-cases (enc == cetype_na)) [
    | inl na ↦ rw na (set_na-eq_set_strview al m b i)
    | inr known ↦ rw known (set_known-eq_set_strview al m b i o (length r.bytes) enc short known)
  ]

  pub restore_records-eq_set_views :
      (e host : Endian) (al : Allocator) (m : Mem) (b : Builder) (i o : ℕ) (known : NativeAs)
      (rs : List Rec) (rest more : List ℕ)
      → All IsRec rs
      → restore_records host native_is_utf8 al m b
          (differ e host)
          i
          (length rs)
          (sizes_of e rs ++ rest)
          (tags_of rs ++ more)
          (at k o)
          known
        ≡ set_views al m b i (views_of o known rs)
  unfolding restore_records set_views sizes_of views_of
  restore_records-eq_set_views e host al m b i o known [] rest more recs = refl
  restore_records-eq_set_views e host al m b i o known (r ∷ rs) rest more (own, recs) =
      let short = own.short in
      let next = asked native_is_utf8 r.tag known in
      rw
        (
          append_assoc,
          read_u32-to_bytes host e (length r.bytes) (sizes_of e rs ++ rest) (omega arith),
          drop-append 4 (to_bytes e 4 (length r.bytes)) (sizes_of e rs ++ rest)
              (sym (length-to_bytes e 4 (length r.bytes))),
        )
        (ap
            (λ call. call >>= λ q.
              restore_records host native_is_utf8 al q.0 q.1 (differ e host) (i + 1) (length rs)
                (sizes_of e rs ++ rest) (tags_of rs ++ more) (at k (o + length r.bytes)) next)
            (set_at-eq_set_view al m b i o (restored_encoding next r.tag) r (omega arith))
          ∙ >>=-eq (set_strview al m b i (view_of k o r (restored_encoding next r.tag))) _ _ (λ q.
            restore_records-eq_set_views e host al q.0 q.1 (i + 1) (o + length r.bytes) next rs rest
              more recs))

-- Native records become UTF-8 where the state says that they are, and the locale is not.
abbrev pub converts : Version → Bool → Bool
converts v native_is_utf8 = is_cpv2 v && not native_is_utf8

-- The string that a record of the state is restored to.
abbrev pub restored : Bool → Rec → Str
restored convert r =
    if r.tag == cetype_na
    then none
    else some (r.bytes, if convert && r.tag == cetype_native then cetype_utf8 else r.tag)

-- What is known of the locale agrees with whether records are converted.
abbrev pub Agrees : Bool → Bool → NativeAs → Type 0
Agrees native_is_utf8 convert keep = convert ≡ false
Agrees native_is_utf8 convert not_asked = convert ≡ not native_is_utf8
Agrees native_is_utf8 convert as_utf8 = convert ≡ true

asked-Agrees :
    (native_is_utf8 convert : Bool) (tag : ℕ) (known : NativeAs)
    → Agrees native_is_utf8 convert known
    → Agrees native_is_utf8 convert (asked native_is_utf8 tag known)
      × (restored_encoding (asked native_is_utf8 tag known) tag
          ≡ (if convert && tag == cetype_native then cetype_utf8 else tag))
unfolding asked restored_encoding
asked-Agrees native_is_utf8 convert tag keep h = (h, ground arith)
asked-Agrees native_is_utf8 convert tag as_utf8 h = (h, ground arith)
asked-Agrees native_is_utf8 convert tag not_asked h = elim (Bool-cases (tag == cetype_native)) [
  | inr other ↦ rw other (h, ground arith)
  | inl native ↦ rw native (elim (Bool-cases native_is_utf8) [
    | inl utf8 ↦ let e : convert ≡ false = ground (arith, h, utf8) in rw (utf8, e) (refl, refl)
    | inr plain ↦
        let e : convert ≡ true = ground (arith, h, plain) in rw (plain, e) (refl, rw native refl)
  ])
]

restored_tag_na :
    (convert : Bool) (tag : ℕ)
    → ((if convert && tag == cetype_native then cetype_utf8 else tag) == cetype_na)
      ≡ (tag == cetype_na)
restored_tag_na convert tag = ground arith

view_of-content :
    (m : Mem) (k o : ℕ) (convert : Bool) (r : Rec)
    → 0 < k
    → k < m.next
    → length r.bytes < 2 ^ 31
    → read m (at k o) (length r.bytes) ≡ r.bytes
    → (content m (view_of k o r (if convert && r.tag == cetype_native then cetype_utf8 else r.tag))
        ≡ restored convert r)
      × Given m (view_of k o r (if convert && r.tag == cetype_native then cetype_utf8 else r.tag))
unfolding content strview_is_na
view_of-content m k o convert r pos low short held = elim (Bool-cases (r.tag == cetype_na)) [
  | inl na ↦ rw (restored_tag_na convert r.tag, na) (refl, tt)
  | inr known ↦
      rw (restored_tag_na convert r.tag, known)
        (
          content_of_stored m (at k o)
              (if convert && r.tag == cetype_native then cetype_utf8 else r.tag) r.bytes refl short
              (restored_tag_na convert r.tag ∙ known) held,
          (low, short, inl (λ e. omega arith)),
        )
]

-- The views stand for the strings of the records, and their bytes are in the block.
pub views_of-content :
    (m : Mem) (k : ℕ) (native_is_utf8 convert : Bool) (o : ℕ) (known : NativeAs) (rs : List Rec)
    → 0 < k
    → k < m.next
    → All IsRec rs
    → Agrees native_is_utf8 convert known
    → read m (at k o) (length (payload_of rs)) ≡ payload_of rs
    → (map (content m) (views_of native_is_utf8 k o known rs) ≡ map (restored convert) rs)
      × All (Given m) (views_of native_is_utf8 k o known rs)
unfolding views_of
views_of-content m k native_is_utf8 convert o known [] pos low recs agrees held = (refl, tt)
views_of-content m k native_is_utf8 convert o known (r ∷ rs) pos low (own, recs) agrees held =
    let (still, tag) = asked-Agrees native_is_utf8 convert r.tag known agrees in
    let short = own.short in
    let both : read m (at k o) (length r.bytes)
          ++ read m (at k (o + length r.bytes)) (length (payload_of rs))
        ≡ r.bytes ++ payload_of rs =
      sym (read-append m k o (length r.bytes) (length (payload_of rs)))
      ∙ ap (read m (at k o)) (sym (length-append r.bytes (payload_of rs)))
      ∙ held in
    let counted = length-read m k o (length r.bytes) in
    let first : read m (at k o) (length r.bytes) ≡ r.bytes =
      sym (take-append (length r.bytes) (read m (at k o) (length r.bytes)) _ (sym counted))
      ∙ ap (take (length r.bytes)) both
      ∙ take-append (length r.bytes) r.bytes (payload_of rs) refl in
    let later : read m (at k (o + length r.bytes)) (length (payload_of rs)) ≡ payload_of rs =
      sym (drop-append (length r.bytes) (read m (at k o) (length r.bytes)) _ (sym counted))
      ∙ ap (drop (length r.bytes)) both
      ∙ drop-append (length r.bytes) r.bytes (payload_of rs) refl in
    let (string, given) = view_of-content m k o convert r pos low (omega arith) first in
    let (strings, all) =
      views_of-content m k native_is_utf8 convert (o + length r.bytes)
        (asked native_is_utf8 r.tag known) rs pos low recs still later in
    rw tag (ap₂ (λ c cs. c ∷ cs) string strings, (given, all))
