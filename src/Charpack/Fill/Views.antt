-- ===== src/Charpack/Fill/Views.antt =====
-- fill_views, in full: what it accepts, and what it installs.
use charport.Prelude.{
  ℕ, ◌+◌, ◌*◌, ◌≤◌, ◌<◌, ◌^◌, ◌≡◌, refl, sym, ap, ◌∙◌, Bool, true, false, ◌||◌, List, [], ◌∷◌, ◌++◌,
  length, All, arith, ok, Option, require-eq_ok, >>=-eq-ok, ok-injective, not, map, ◌==◌,
  Bool-cases, inl, inr, negative_length,
}
use mathlib.Core.Path.{subst}
use charport.Memory.{Mem, Ptr}
use charport.Interop.{StrView, xlen_is_negative}
use charport.Charsxp.{valid_view_encoding}
use charport.Sizes.{size_max}
use charport.Words.{Endian}
use charport.Charpack.Layout.{needs_wide, total_bytes, offset_bytes, write_head}
use charport.Charpack.Encode.{Rec, total, encode, Fits}
use charport.Charpack.Fill.{
  Charpack, unfilled, filled, materialized, Sexp, charpack, other, check_unfilled, entries,
  entry_is_na, checked_payload, alloc_data1, fill_views, write_records,
}
use charport.Charpack.Fill.Encodes.{
  Describes, IsRec, rec_of, rec_of-Describes, checked_payload-eq_ok, copy_views-payload_of,
}
use charport.Charpack.Fill.Alloc.{alloc_data1-encode, total_bytes_lem}

-- The records of views, and the width of their offsets.
abbrev pub recs : Mem → List StrView → List Rec
recs m vs = map (rec_of m) vs

abbrev pub width : Bool → List Rec → Bool
width force_wide rs = force_wide || needs_wide (total rs)

pub check_unfilled-eq_ok :
    {C : Type 0} (x : Sexp C) → check_unfilled x ≡ ok tt → x ≡ charpack unfilled
unfolding check_unfilled
check_unfilled-eq_ok (charpack unfilled) h = refl
check_unfilled-eq_ok (charpack (filled raw)) h = cc
check_unfilled-eq_ok (charpack (materialized xs)) h = cc
check_unfilled-eq_ok other h = cc

-- A fill that succeeds was given an unfilled placeholder, and leaves it filled with the encoding of
-- exactly the strings that the views stand for, in offsets that are wide if that was asked for or the
-- payload needs it; every record is valid, and the count and offsets fit. (R_XLEN_T_MAX is below
-- 2 ^ 63.)
pub fill_views-encode :
    {C : Type 0} (host : Endian) (max : ℕ) (fails : ℕ → Bool) (m : Mem) (x : Sexp C) (n : ℕ)
    (ps : Option (List Ptr)) (ls es : Option (List ℕ)) (fw : Bool) (st : Charpack C)
    → 8 ≤ max
    → max < 2 ^ 63
    → fill_views host max fails m x n ps ls es fw ≡ ok st
    → (vs : List StrView) × (entries n ps ls es ≡ ok vs)
      × (x ≡ charpack unfilled)
      × (st ≡ filled (encode host (width fw (recs m vs)) (recs m vs)))
      × Fits (width fw (recs m vs)) (recs m vs)
      × All IsRec (recs m vs)
unfolding fill_views
fill_views-encode host max fails m x n ps ls es fw st h8 hm h =
    let (u, placed, h1) = >>=-eq-ok (check_unfilled x) _ h in
    let (nonneg, h2) = require-eq_ok (not (xlen_is_negative n)) negative_length _ h1 in
    let (vs, read_in, h3) = >>=-eq-ok (entries n ps ls es) _ h2 in
    let (p, checked, h4) = >>=-eq-ok (checked_payload true 0 vs) _ h3 in
    let (front, allocated, h5) = >>=-eq-ok (alloc_data1 host max fails true vs p fw) _ h4 in
    let d = rec_of-Describes m vs in
    let (sum, small, valid) =
      checked_payload-eq_ok true 0 p vs (recs m vs) d (omega arith) checked in
    let whole : p ≡ total (recs m vs) = omega arith in
    let (fits, written) =
      alloc_data1-encode host max fails true vs (recs m vs) p fw h8 hm d whole small allocated in
    (
      vs,
      read_in,
      check_unfilled-eq_ok x placed,
      sym (ok-injective h5)
          ∙ ap filled (
              ap (λ t. front ++ t) (copy_views-payload_of m vs)
              ∙ written
              ∙ ap (λ q. encode host (fw || needs_wide q) (recs m vs)) whole),
      subst (λ q. Fits (fw || needs_wide q) (recs m vs)) whole fits,
      valid,
    )

-- Entries that a fill takes: a known encoding, and NA or a length that is not negative.
abbrev pub IsEntry : Bool → StrView → Type 0
IsEntry hp v = (valid_view_encoding v.enc ≡ true) × (entry_is_na hp v ≡ false → v.len < 2 ^ 31)

pub checked_payload-total :
    (hp : Bool) (sum : ℕ) (vs : List StrView) (rs : List Rec)
    → Describes hp vs rs
    → All (IsEntry hp) vs
    → sum + total rs ≤ size_max
    → checked_payload hp sum vs ≡ ok (sum + total rs)
unfolding checked_payload
checked_payload-total hp sum [] [] d a b = ground arith
checked_payload-total hp sum [] (r ∷ rs) d a b = absurd d
checked_payload-total hp sum (v ∷ vs) [] d a b = absurd d
checked_payload-total hp sum (v ∷ vs) (r ∷ rs) (dt, dl, d) ((valid, nonneg), a) b =
    elim (Bool-cases (entry_is_na hp v)) [
      | inl e ↦ ground (arith, checked_payload-total hp sum vs rs d a)
      | inr e ↦ ground (arith, nonneg e, checked_payload-total hp (sum + v.len) vs rs d a)
    ]

-- `alloc_data1` gives its metadata where the layout fits.
pub alloc_data1_total :
    (host : Endian) (max : ℕ) (fails : ℕ → Bool) (hp : Bool) (vs : List StrView) (p : ℕ) (fw : Bool)
    → 8 ≤ max
    → 8 + length vs * (offset_bytes (fw || needs_wide p) + 1) + p ≤ max
    → ((size : ℕ) → fails size ≡ false)
    → (front : List ℕ) × (alloc_data1 host max fails hp vs p fw ≡ ok front)
unfolding alloc_data1
alloc_data1_total host max fails hp vs p fw h8 fits served =
    let nonzero : not (total_bytes max (length vs) p (fw || needs_wide p) == 0) ≡ true =
      ground (arith, total_bytes_lem max (length vs) p (fw || needs_wide p) h8) in
    let wide : Bool = fw || needs_wide p in
    let regions : List ℕ × List ℕ = write_records host wide hp 0 vs in
    (write_head host (length vs) wide ++ (regions.0 ++ regions.1), rw (nonzero, served) refl)

-- A fill of a placeholder succeeds wherever every entry is acceptable, the layout is no longer than
-- R's longest vector, and R's allocation does not fail.
pub fill_views-total :
    {C : Type 0} (host : Endian) (max : ℕ) (fails : ℕ → Bool) (m : Mem) (n : ℕ)
    (ps : Option (List Ptr)) (ls es : Option (List ℕ)) (fw : Bool) (vs : List StrView)
    → 8 ≤ max
    → max < 2 ^ 63
    → n < 2 ^ 63
    → entries n ps ls es ≡ ok vs
    → All (IsEntry true) vs
    → 8 + length vs * (offset_bytes (width fw (recs m vs)) + 1) + total (recs m vs) ≤ max
    → ((size : ℕ) → fails size ≡ false)
    → fill_views {C = C} host max fails m (charpack unfilled) n ps ls es fw
      ≡ ok (filled (encode host (width fw (recs m vs)) (recs m vs)))
unfolding fill_views check_unfilled
fill_views-total {C} host max fails m n ps ls es fw vs h8 hm hn read_in valid fits served =
    let rs : List Rec = recs m vs in
    let p : ℕ = total rs in
    let d = rec_of-Describes m vs in
    let small : p ≤ size_max = ground arith in
    let nonneg : not (xlen_is_negative n) ≡ true = ground arith in
    let checked : checked_payload true 0 vs ≡ ok p =
      checked_payload-total true 0 vs rs d valid (omega arith)
      ∙ ap ok (let e : 0 + p ≡ p = omega arith in e) in
    let (front, allocated) = alloc_data1_total host max fails true vs p fw h8 fits served in
    let (_, written) =
      alloc_data1-encode host max fails true vs rs p fw h8 hm d refl small allocated in
    rw (nonneg, read_in, checked, allocated)
      (ap (λ t. ok (filled t)) (ap (λ t. front ++ t) (copy_views-payload_of m vs) ∙ written))
