-- ===== src/Charpack/Fill/Encodes.antt =====
-- What a fill installs is the encoding of the records that its input describes.
use charport.Prelude.{
  ℕ, suc, ◌+◌, ◌≤◌, ◌<◌, ◌^◌, ◌%◌, ◌≡◌, ◌≢◌, refl, sym, ap, ◌∙◌, Bool, true, false, ◌||◌, List, [],
  ◌∷◌, length, All, arith, map, if◌then◌else◌, ok, Bool-cases, inl, inr, ◌==◌,
}
use charport.Memory.{Mem, Ptr, null, at, read, is_null}
use charport.Memory.Laws.{length-read}
use charport.Interop.{StrView, cetype_na}
use charport.Charsxp.{valid_view_encoding, view_is_na}
use charport.Sizes.{size_max, r_string_size_max}
use charport.Words.{Endian}
use charport.Charpack.Encode.{Rec, total, words, tags_of, payload_of, limit_of}
use charport.Charpack.Fill.{entry_is_na, checked_payload, write_records, copy_views}

-- A record that every charpack may hold.
pub record IsRec (r : Rec) : Type 0 where
  pub valid : valid_view_encoding r.tag ≡ true
  pub short : length r.bytes ≤ r_string_size_max
  pub na_empty : r.tag ≡ cetype_na → length r.bytes ≡ 0

-- What the entries say of the records: their tags and their sizes.
abbrev pub Describes : Bool → List StrView → List Rec → Type 0
Describes hp [] [] = Unit {0}
Describes hp [] (r ∷ rs) = ⊥
Describes hp (v ∷ vs) [] = ⊥
Describes hp (v ∷ vs) (r ∷ rs) =
    (r.tag ≡ (if entry_is_na hp v then cetype_na else v.enc))
    × (length r.bytes ≡ (if entry_is_na hp v then 0 else v.len))
    × Describes hp vs rs

-- The strings that views stand for, as records.
unfoldable pub rec_of : Mem → StrView → Rec
rec_of m v =
    if entry_is_na true v
    then record { bytes = []; tag = cetype_na }
    else record { bytes = read m v.ptr v.len; tag = v.enc }

length-read_some :
    (m : Mem) (v : StrView) → entry_is_na true v ≡ false → length (read m v.ptr v.len) ≡ v.len
length-read_some m v h = by_ptr v.ptr (unfold entry_is_na in ground arith)
  where
    by_ptr : (p : Ptr) → is_null p ≡ false → length (read m p v.len) ≡ v.len
    by_ptr null e = cc
    by_ptr (at b o) e = length-read m b o v.len

pub rec_of-Describes : (m : Mem) (vs : List StrView) → Describes true vs (map (rec_of m) vs)
unfolding rec_of
rec_of-Describes m [] = tt
rec_of-Describes m (v ∷ vs) =
    (ground arith, ground (arith, length-read_some m v), rec_of-Describes m vs)

pub length-Describes :
    (hp : Bool) (vs : List StrView) (rs : List Rec) → Describes hp vs rs → length vs ≡ length rs
length-Describes hp [] [] d = refl
length-Describes hp [] (r ∷ rs) d = absurd d
length-Describes hp (v ∷ vs) [] d = absurd d
length-Describes hp (v ∷ vs) (r ∷ rs) d = ap suc (length-Describes hp vs rs d.2)

-- The regions of write_records hold the end offsets and the tags of the records described.
pub write_records-words :
    (host : Endian) (wide hp : Bool) (begin : ℕ) (vs : List StrView) (rs : List Rec)
    → Describes hp vs rs
    → begin + total rs < limit_of wide
    → write_records host wide hp begin vs ≡ (words host wide begin rs, tags_of rs)
unfolding write_records words
write_records-words host wide hp begin [] [] d h = refl
write_records-words host wide hp begin [] (r ∷ rs) d h = absurd d
write_records-words host wide hp begin (v ∷ vs) [] d h = absurd d
write_records-words host wide hp begin (v ∷ vs) (r ∷ rs) (dt, dl, d) h =
    rw (← dl, ← dt, wrap)
      (rw (write_records-words host wide hp (begin + length r.bytes) vs rs d (omega arith)) refl)
  where
    wrap : (begin + length r.bytes) % (if wide then 2 ^ 64 else 2 ^ 32) ≡ begin + length r.bytes
    wrap = ground arith

entry_is_na-enc : (hp : Bool) (v : StrView) → entry_is_na hp v ≡ false → v.enc ≢ cetype_na
unfolding entry_is_na
entry_is_na-enc hp v h = ground arith

na-valid : valid_view_encoding cetype_na ≡ true
unfolding valid_view_encoding
na-valid = refl

-- What checked_payload accepts are valid records, and it returns their size.
pub checked_payload-eq_ok :
    (hp : Bool) (sum p : ℕ) (vs : List StrView) (rs : List Rec)
    → Describes hp vs rs
    → sum ≤ size_max
    → checked_payload hp sum vs ≡ ok p
    → (p ≡ sum + total rs) × (p ≤ size_max) × All IsRec rs
unfolding checked_payload
checked_payload-eq_ok hp sum p [] [] d b h = ground arith
checked_payload-eq_ok hp sum p [] (r ∷ rs) d b h = absurd d
checked_payload-eq_ok hp sum p (v ∷ vs) [] d b h = absurd d
checked_payload-eq_ok hp sum p (v ∷ vs) (r ∷ rs) (dt, dl, d) b h =
    elim (Bool-cases (entry_is_na hp v)) [
      | inl e ↦ ground (arith, na-valid, checked_payload-eq_ok hp sum p vs rs d)
      | inr e ↦
          ground (arith, entry_is_na-enc hp v e, checked_payload-eq_ok hp (sum + v.len) p vs rs d)
    ]

read_zero : (m : Mem) (p : Ptr) → read m p 0 ≡ []
unfolding read
read_zero m null = refl
read_zero m (at b o) = refl

copied :
    (m : Mem) (v : StrView)
    → (if view_is_na v.ptr v.len v.enc || v.len == 0 then [] else read m v.ptr v.len)
      ≡ (rec_of m v).bytes
unfolding rec_of entry_is_na
copied m v = elim (Bool-cases (view_is_na v.ptr v.len v.enc)) [
  | inl na ↦ rw na
  | inr some_string ↦ elim (Bool-cases (v.len == 0)) [
    | inl z ↦
        let len_zero : v.len ≡ 0 = ground arith in
        rw (some_string, z) (sym (ap (read m v.ptr) len_zero ∙ read_zero m v.ptr))
    | inr nz ↦ rw (some_string, nz)
  ]
]

pub copy_views-payload_of :
    (m : Mem) (vs : List StrView) → copy_views m vs ≡ payload_of (map (rec_of m) vs)
unfolding copy_views
copy_views-payload_of m [] = refl
copy_views-payload_of m (v ∷ vs) = rw (copied m v, copy_views-payload_of m vs)
