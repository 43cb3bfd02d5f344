-- ===== src/Charvec/State/Trip.antt =====
-- A store that is sent through a serialized state, from one host and locale to another.
use charport.Words.Laws.{length-to_bytes}
use charport.Charvec.Builder.Serial.{release_store}
use charport.Charvec.Fill.Whole.{strings_of, Started, new_builder-Started, set_views-whole}
use charport.Interop.{cetype_na, strview_is_na}
use charport.Charvec.Fill.{released}
use charport.Charvec.Fill.Total.{IsShort, Serves, new_builder_total, set_views_total}
use charport.Charpack.Fill.Encodes.{IsRec}
use charport.Memory.Laws.{Holds, read-Holds}
use charport.Charvec.Store.{Allocator, Store, table_size}
use charport.Charvec.State.{
  stored_vector, raw_state, unserialize, ◌∷◌, NativeAs, not_asked, keep, prefix_bytes,
  unserialize_raw, unserialize_store, asked, restored_encoding, letter_c, letter_p, letter_v,
}
use charport.Prelude.{
  inr, inl, Bool, ℕ, List, All, length, ◌≡◌, if◌then◌else◌, ◌+◌, ◌*◌, refl, ap, Bool-cases, suc,
  ◌==◌, ◌<◌, [], ◌^◌, ◌≤◌, ok, arith, map, sym, ◌++◌, ◌∙◌, length-replicate, none, length-map,
  append_assoc, length-append, take, drop, drop-append, append-nil, take-append,
}
use charport.Charsxp.{RStrings}
use charport.Memory.{Mem, read, at}
use charport.Charvec.State.Encoded.{
  Version, encoded, is_cpv2, cpv1, parse_serialized-encoded, version_digit, endian_flag, sizes_of,
  length-sizes_of, cpv2,
}
use charport.Charvec.State.Reading.{
  views_of, Agrees, converts, view_of, restored, views_of-content, restore_records-eq_set_views,
  check_records-encoded,
}
use mathlib.Core.Path.{subst}
use charport.Words.{Endian, to_bytes}
use charport.Charpack.Encode.{Rec, tags_of, payload_of}

views_of-IsShort :
    (native_is_utf8 : Bool) (k o : ℕ) (known : NativeAs) (rs : List Rec)
    → All IsRec rs
    → All IsShort (views_of native_is_utf8 k o known rs)
unfolding views_of
views_of-IsShort native_is_utf8 k o known [] recs = tt
views_of-IsShort native_is_utf8 k o known (r ∷ rs) (own, recs) = (
  view_of-IsShort (restored_encoding (asked native_is_utf8 r.tag known) r.tag),
  views_of-IsShort native_is_utf8 k (o + length r.bytes) (asked native_is_utf8 r.tag known) rs recs,
)
  where
    view_of-IsShort : (enc : ℕ) → IsShort (view_of k o r enc)
    view_of-IsShort enc = elim (Bool-cases (enc == cetype_na)) [
      | inl na ↦ rw na (inl (unfold strview_is_na in refl))
      | inr other ↦ rw other (inr (ground (arith, own.short)))
    ]

length-views_of :
    (native_is_utf8 : Bool) (k o : ℕ) (known : NativeAs) (rs : List Rec)
    → length (views_of native_is_utf8 k o known rs) ≡ length rs
unfolding views_of
length-views_of native_is_utf8 k o known [] = refl
length-views_of native_is_utf8 k o known (r ∷ rs) =
    ap suc
      (length-views_of native_is_utf8 k (o + length r.bytes) (asked native_is_utf8 r.tag known) rs)

start-Agrees :
    (v : Version) (native_is_utf8 : Bool)
    → Agrees native_is_utf8 (converts v native_is_utf8) (if is_cpv2 v then not_asked else keep)
start-Agrees cpv1 native_is_utf8 = refl
start-Agrees cpv2 native_is_utf8 = refl

-- The payload's bytes lie in the block where the header says.
payload_held :
    (m : Mem) (k : ℕ) (v : Version) (e : Endian) (rs : List Rec)
    → Holds m k (encoded v e rs)
    → read m (at k (prefix_bytes + 8 + length rs * 4 + length rs * 1)) (length (payload_of rs))
      ≡ payload_of rs
payload_held m k v e rs held =
    read-Holds m k (encoded v e rs) (prefix_bytes + 8 + length rs * 4 + length rs * 1)
      (length (payload_of rs)) held (omega (arith, counted, ap length parts, front_length))
    ∙ ap
        (λ bytes.
          take (length (payload_of rs))
            (drop (prefix_bytes + 8 + length rs * 4 + length rs * 1) bytes))
        parts
    ∙ ap (take (length (payload_of rs))) (drop-append _ front (payload_of rs) (sym front_length))
    ∙ ap (take (length (payload_of rs))) (sym (append-nil (payload_of rs)))
    ∙ take-append (length (payload_of rs)) (payload_of rs) [] refl
  where
    head : List ℕ
    head = letter_c ∷ letter_p ∷ letter_v ∷ version_digit v ∷ endian_flag e ∷ []

    front : List ℕ
    front = head ++ (to_bytes e 8 (length rs) ++ (sizes_of e rs ++ tags_of rs))

    parts : encoded v e rs ≡ front ++ payload_of rs
    parts =
        ap (λ t. head ++ t)
          (ap (λ t. to_bytes e 8 (length rs) ++ t)
              (sym (append_assoc (sizes_of e rs) (tags_of rs) (payload_of rs)))
            ∙ sym (
                append_assoc (to_bytes e 8 (length rs)) (sizes_of e rs ++ tags_of rs)
                  (payload_of rs)))

    counted : length (front ++ payload_of rs) ≡ length front + length (payload_of rs)
    counted = length-append front (payload_of rs)

    front_length : length front ≡ prefix_bytes + 8 + length rs * 4 + length rs * 1
    front_length = omega (
      arith,
      length-append (to_bytes e 8 (length rs)) (sizes_of e rs ++ tags_of rs),
      length-append (sizes_of e rs) (tags_of rs),
      length-to_bytes e 8 (length rs),
      length-sizes_of e rs,
      length-map (λ r. r.tag) rs,
    )

module _ (r : RStrings) (host : Endian) (native_is_utf8 : Bool) (max : ℕ) (al : Allocator) where
  -- A state of either version, written in either byte order, is read back on every host: where
  -- memory does not run out, Unserialize makes a store that holds the strings encoded, native ones as
  -- UTF-8 if the state is of version 2 and the locale is not UTF-8.
  pub unserialize-encoded :
      (v : Version) (e : Endian) (rs : List Rec) (m : Mem) (k : ℕ)
      → max < 2 ^ 63
      → prefix_bytes + 8 + length rs * 5 ≤ max
      → All IsRec rs
      → Serves al (length rs)
      → 0 < k
      → k < m.next
      → Holds m k (encoded v e rs)
      → (q : Mem × Store) × (unserialize r host native_is_utf8 max al m k
            (raw_state (encoded v e rs))
          ≡ ok (q.0, stored_vector q.1))
        × (strings_of q.0 q.1 ≡ map (restored (converts v native_is_utf8)) rs)
  unfolding unserialize unserialize_raw unserialize_store released
  unserialize-encoded v e rs m k bound few recs serves pos low held =
      let known : NativeAs = if is_cpv2 v then not_asked else keep in
      let o : ℕ = prefix_bytes + 8 + length rs * 4 + length rs * 1 in
      let vs = views_of native_is_utf8 k o known rs in
      let (content, given) =
        views_of-content m k native_is_utf8 (converts v native_is_utf8) o known rs pos low recs
          (start-Agrees v native_is_utf8) (payload_held m k v e rs held) in
      let (q, made) = new_builder_total al m (length rs) serves (omega arith) in
      let start : Started m q.0 q.1 vs (length vs) =
        subst (Started m q.0 q.1 vs) (sym (length-views_of native_is_utf8 k o known rs))
          (new_builder-Started al m (length rs) vs (omega arith) given made) in
      let sized : length vs ≡ table_size q.1.store.records =
        sym (length-replicate (length vs) none)
        ∙ ap length (sym start.strings)
        ∙ length-map (charport.Interop.Views.content q.0) q.1.store.records.rows in
      let (done, filled) =
        set_views_total al q.0 q.1 0 vs serves.slices start.whole start.settled
          (views_of-IsShort native_is_utf8 k o known rs recs) (omega (arith, sized)) in
      let looped =
        restore_records-eq_set_views native_is_utf8 k e host al q.0 q.1 0 o known rs
          (tags_of rs ++ payload_of rs) (payload_of rs) recs
        ∙ filled in
      (
        (done.0, (release_store done.1).0),
        rw
            (
              parse_serialized-encoded v e host max rs bound few,
              check_records-encoded v e host rs recs,
              made,
              looped,
            )
            refl,
        set_views-whole al m q.0 done.0 q.1 done.1 vs start filled ∙ content,
      )
