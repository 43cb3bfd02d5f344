-- ===== src/Charpack/Fill/Alloc.antt =====
-- The size computation of the layout, and the metadata that alloc_data1 writes.
use charport.Prelude.{
  leb, if◌then◌else◌, require-eq_ok, ok-injective, ℕ, ◌+◌, ◌*◌, ◌≤◌, ◌<◌, ◌^◌, ◌≡◌, ◌≢◌, refl, sym,
  ◌∙◌, Bool, true, false, ◌||◌, List, ◌++◌, length, arith, ok, append_assoc, ◌==◌, raw_too_long,
  bad_alloc,
}
use charport.Interop.{StrView}
use charport.Sizes.{size_max}
use charport.Words.{Endian}
use charport.Charpack.Layout.{needs_wide, total_bytes, offset_bytes, write_head}
use charport.Charpack.Encode.{Rec, total, words, tags_of, payload_of, encode, Fits, limit_of}
use charport.Charpack.Fill.{not, write_records, alloc_data1}
use charport.Charpack.Fill.Encodes.{Describes, write_records-words, length-Describes}

pub total_bytes_lem :
    (max n p : ℕ) (wide : Bool)
    → 8 ≤ max
    → (8 + n * (offset_bytes wide + 1) + p ≤ max
        → total_bytes max n p wide ≡ 8 + n * (offset_bytes wide + 1) + p)
      × (max < 8 + n * (offset_bytes wide + 1) + p → total_bytes max n p wide ≡ 0)
unfolding total_bytes
total_bytes_lem max n p true h = ground arith
total_bytes_lem max n p false h = ground arith

-- For a maximum of at least the head, `total_bytes` is the exact size of the layout when that is
-- within the maximum, and otherwise 0.
pub total_bytes_exact :
    (max n p : ℕ) (wide : Bool)
    → 8 ≤ max
    → total_bytes max n p wide ≡ (
        if leb (8 + n * (offset_bytes wide + 1) + p) max
        then 8 + n * (offset_bytes wide + 1) + p
        else 0)
total_bytes_exact max n p wide h = ground (arith, total_bytes_lem max n p wide h)

pub fits_of_total :
    (max n p : ℕ) (wide : Bool)
    → 8 ≤ max
    → total_bytes max n p wide ≢ 0
    → 8 + n * (offset_bytes wide + 1) + p ≤ max
fits_of_total max n p wide h nz = ground (arith, total_bytes_lem max n p wide h)

-- The offsets chosen for a payload are wide enough for it.
wide_enough : (fw : Bool) (p : ℕ) → p ≤ size_max → p < limit_of (fw || needs_wide p)
unfolding needs_wide
wide_enough true p h = omega arith
wide_enough false p h = ground arith

pub fits_of_bound :
    (max p : ℕ) (fw : Bool) (rs : List Rec)
    → max < 2 ^ 63
    → p ≡ total rs
    → p ≤ size_max
    → 8 + length rs * (offset_bytes (fw || needs_wide p) + 1) + p ≤ max
    → Fits (fw || needs_wide p) rs
fits_of_bound max p fw rs hm e hp h =
    (counted (fw || needs_wide p) h, rw (← e) (wide_enough fw p hp))
  where
    counted : (w : Bool) → 8 + length rs * (offset_bytes w + 1) + p ≤ max → length rs < 2 ^ 63
    counted true k = omega arith
    counted false k = omega arith

alloc_data1-eq_ok :
    (host : Endian) (max : ℕ) (fails : ℕ → Bool) (hp : Bool) (vs : List StrView) (p : ℕ) (fw : Bool)
    {front : List ℕ}
    → alloc_data1 host max fails hp vs p fw ≡ ok front
    → (total_bytes max (length vs) p (fw || needs_wide p) ≢ 0)
      × (front
          ≡ write_head host (length vs) (fw || needs_wide p)
            ++ ((write_records host (fw || needs_wide p) hp 0 vs).0
                ++ (write_records host (fw || needs_wide p) hp 0 vs).1))
unfolding alloc_data1
alloc_data1-eq_ok host max fails hp vs p fw h =
    let (t, e) =
      require-eq_ok (not (total_bytes max (length vs) p (fw || needs_wide p) == 0)) raw_too_long _
        h in
    let (room, made) =
      require-eq_ok (not (fails (total_bytes max (length vs) p (fw || needs_wide p)))) bad_alloc _
        e in
    (ground (arith, t), sym (ok-injective made))

-- The metadata of described records, followed by their bytes, is their encoding.
pub alloc_data1-encode :
    (host : Endian) (max : ℕ) (fails : ℕ → Bool) (hp : Bool) (vs : List StrView) (rs : List Rec)
    (p : ℕ) (fw : Bool)
    → 8 ≤ max
    → max < 2 ^ 63
    → Describes hp vs rs
    → p ≡ total rs
    → p ≤ size_max
    → {front : List ℕ} → alloc_data1 host max fails hp vs p fw ≡ ok front
    → Fits (fw || needs_wide p) rs × (front ++ payload_of rs ≡ encode host (fw || needs_wide p) rs)
unfolding encode
alloc_data1-encode host max fails hp vs rs p fw h8 hm d e hp' {front} h = (fits, joined)
  where
    same : length vs ≡ length rs
    same = length-Describes hp vs rs d

    room : total_bytes max (length vs) p (fw || needs_wide p) ≢ 0
    room = (alloc_data1-eq_ok host max fails hp vs p fw h).0

    fits : Fits (fw || needs_wide p) rs
    fits =
        fits_of_bound max p fw rs hm e hp' (rw (← same) (fits_of_total max (length vs) p _ h8 room))

    regions :
        write_records host (fw || needs_wide p) hp 0 vs
        ≡ (words host (fw || needs_wide p) 0 rs, tags_of rs)
    regions = write_records-words host (fw || needs_wide p) hp 0 vs rs d (omega (arith, fits.1))

    front_lem :
        front
        ≡ write_head host (length rs) (fw || needs_wide p)
          ++ (words host (fw || needs_wide p) 0 rs ++ tags_of rs)
    front_lem = (alloc_data1-eq_ok host max fails hp vs p fw h).1 ∙ rw (same, regions) refl

    joined : front ++ payload_of rs ≡ encode host (fw || needs_wide p) rs
    joined = rw front_lem (simp append_assoc)
