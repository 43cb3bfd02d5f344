-- ===== src/Charpack/Fill/Slices.antt =====
-- fill_slices: the bytes of the slices, joined, are cut into records by the lengths.
use charport.Prelude.{
  ℕ, ◌+◌, ◌≤◌, ◌<◌, ◌^◌, ◌≡◌, refl, sym, ap, ◌∙◌, Bool, false, ◌||◌, List, [], ◌∷◌, ◌++◌, length,
  All, arith, if◌then◌else◌, ok, Option, require-eq_ok, >>=-eq-ok, ok-injective, not, Bool-cases,
  inl, inr, negative_length, take, drop, ltb, ◌==◌, length-append, length-take, length-drop,
  take-append-drop, slice_mismatch, true, zero,
}
use charport.Memory.{Mem, Ptr, null, at, is_null, read}
use charport.Memory.Laws.{length-read}
use charport.Interop.{StrView, xlen_is_negative, cetype_na}
use charport.Words.{Endian}
use charport.Charpack.Layout.{needs_wide}
use charport.Charpack.Encode.{Rec, total, payload_of, encode}
use charport.Charpack.Fill.{
  suc, Charpack, unfilled, filled, Sexp, charpack, check_unfilled, bare_entries, slice_entries,
  entry_is_na, checked_payload, checked_sliced, alloc_data1, copy_slices, fill_slices,
}
use charport.Charpack.Fill.Encodes.{Describes, IsRec, checked_payload-eq_ok}
use charport.Charpack.Fill.Alloc.{alloc_data1-encode}
use charport.Charpack.Fill.Views.{width, check_unfilled-eq_ok}

-- The size of an entry, and of all.
abbrev size : Bool → StrView → ℕ
size hp v = if entry_is_na hp v then 0 else v.len

abbrev sizes : Bool → List StrView → ℕ
sizes hp [] = 0
sizes hp (v ∷ vs) = size hp v + sizes hp vs

-- Bytes cut into records by the entries' lengths, in order.
unfoldable pub cut : List ℕ → List StrView → List Rec
cut bytes [] = []
cut bytes (v ∷ vs) =
    record {
      bytes = take (size false v) bytes;
      tag = if entry_is_na false v then cetype_na else v.enc;
    }
    ∷ cut (drop (size false v) bytes) vs

checked_payload-sizes :
    (hp : Bool) (sum p : ℕ) (vs : List StrView)
    → checked_payload hp sum vs ≡ ok p
    → p ≡ sum + sizes hp vs
unfolding checked_payload
checked_payload-sizes hp sum p [] h = ground arith
checked_payload-sizes hp sum p (v ∷ vs) h = elim (Bool-cases (entry_is_na hp v)) [
  | inl e ↦ ground (arith, checked_payload-sizes hp sum p vs)
  | inr e ↦ ground (arith, checked_payload-sizes hp (sum + v.len) p vs)
]

cut-Describes :
    (bytes : List ℕ) (vs : List StrView)
    → sizes false vs ≤ length bytes
    → Describes false vs (cut bytes vs)
unfolding cut
cut-Describes bytes [] h = tt
cut-Describes bytes (v ∷ vs) h = (
  refl,
  omega (arith, length-take (size false v) bytes),
  cut-Describes (drop (size false v) bytes) vs (omega (arith, length-drop (size false v) bytes)),
)

payload_of-cut :
    (bytes : List ℕ) (vs : List StrView)
    → sizes false vs ≡ length bytes
    → payload_of (cut bytes vs) ≡ bytes
unfolding cut
payload_of-cut [] [] h = refl
payload_of-cut (b ∷ bytes) [] h = absurd (omega arith)
payload_of-cut bytes (v ∷ vs) h =
    rw
      (payload_of-cut (drop (size false v) bytes) vs
        (omega (arith, length-drop (size false v) bytes)))
      (take-append-drop (size false v) bytes)

length-read_filled : (m : Mem) (p : Ptr) (b : ℕ) → is_null p ≡ false → length (read m p b) ≡ b
length-read_filled m null b h = cc
length-read_filled m (at c o) b h = length-read m c o b

checked_sliced-length :
    (m : Mem) (s t : ℕ) (ss : List (Ptr × ℕ))
    → checked_sliced s ss ≡ ok t
    → t ≡ s + length (copy_slices m ss)
unfolding checked_sliced copy_slices
checked_sliced-length m s t [] h = ground arith
checked_sliced-length m s t ((p, b) ∷ ss) h = elim (Bool-cases (ltb 0 b)) [
  | inl some_bytes ↦ ground (
    arith,
    length-read_filled m p b,
    length-append (read m p b) (copy_slices m ss),
    checked_sliced-length m (s + b) t ss,
  )
  | inr none_left ↦ ground (arith, checked_sliced-length m (s + b) t ss)
]

-- The bytes of the slices, the first slice's first.
abbrev pub joined : Mem → List (Ptr × ℕ) → List ℕ
joined m [] = []
joined m ((p, b) ∷ ss) = read m p b ++ joined m ss

read_none : (m : Mem) (p : Ptr) → read m p 0 ≡ []
unfolding read
read_none m null = refl
read_none m (at c o) = refl

copy_slices-joined : (m : Mem) (ss : List (Ptr × ℕ)) → copy_slices m ss ≡ joined m ss
unfolding copy_slices
copy_slices-joined m [] = refl
copy_slices-joined m ((p, zero) ∷ ss) = rw (read_none m p, copy_slices-joined m ss) refl
copy_slices-joined m ((p, suc b) ∷ ss) =
    let some_bytes : ltb 0 (suc b) ≡ true = ground arith in
    rw (some_bytes, copy_slices-joined m ss) refl

-- A `fill_slices` that succeeds was given an unfilled placeholder and slices that hold exactly as
-- many bytes as the lengths need. It leaves the encoding of the records that the lengths cut, in
-- order, from the joined bytes of the slices, wherever the slices' borders are.
pub fill_slices-encode :
    {C : Type 0} (host : Endian) (max : ℕ) (fails : ℕ → Bool) (m : Mem) (x : Sexp C) (n : ℕ)
    (ls es : Option (List ℕ)) (ns : ℕ) (ps : Option (List Ptr)) (bs : Option (List ℕ)) (fw : Bool)
    (st : Charpack C)
    → 8 ≤ max
    → max < 2 ^ 63
    → fill_slices host max fails m x n ls es ns ps bs fw ≡ ok st
    → (vs : List StrView) × (ss : List (Ptr × ℕ)) × (bare_entries n ls es ≡ ok vs)
      × (slice_entries ns ps bs ≡ ok ss)
      × (x ≡ charpack unfilled)
      × (payload_of (cut (joined m ss) vs) ≡ joined m ss)
      × (st ≡ filled (encode host (width fw (cut (joined m ss) vs)) (cut (joined m ss) vs)))
      × All IsRec (cut (joined m ss) vs)
unfolding fill_slices
fill_slices-encode host max fails m x n ls es ns ps bs fw st h8 hm h =
    let (u, placed, h1) = >>=-eq-ok (check_unfilled x) _ h in
    let (nonneg, h2) =
      require-eq_ok (not (xlen_is_negative n || xlen_is_negative ns)) negative_length _ h1 in
    let (vs, lens_in, h3) = >>=-eq-ok (bare_entries n ls es) _ h2 in
    let (ss, slices_in, h4) = >>=-eq-ok (slice_entries ns ps bs) _ h3 in
    let (p, checked, h5) = >>=-eq-ok (checked_payload false 0 vs) _ h4 in
    let (q, sliced, h6) = >>=-eq-ok (checked_sliced 0 ss) _ h5 in
    let (matched, h7) = require-eq_ok (q == p) slice_mismatch _ h6 in
    let (front, allocated, h8') = >>=-eq-ok (alloc_data1 host max fails false vs p fw) _ h7 in
    let bytes : List ℕ = joined m ss in
    let copied = copy_slices-joined m ss in
    let rs : List Rec = cut bytes vs in
    let same : q ≡ p = ground arith in
    let exact : sizes false vs ≡ length bytes = omega (
      arith,
      checked_payload-sizes false 0 p vs checked,
      checked_sliced-length m 0 q ss sliced,
      ap length copied,
    ) in
    let d = cut-Describes bytes vs (omega arith) in
    let whole_bytes = payload_of-cut bytes vs exact in
    let (sum, small, valid) = checked_payload-eq_ok false 0 p vs rs d (omega arith) checked in
    let whole : p ≡ total rs = omega arith in
    let (_, written) =
      alloc_data1-encode host max fails false vs rs p fw h8 hm d whole small allocated in
    (
      vs,
      ss,
      lens_in,
      slices_in,
      check_unfilled-eq_ok x placed,
      whole_bytes,
      sym (ok-injective h8')
          ∙ ap filled (
              ap (λ t. front ++ t) (copied ∙ sym whole_bytes)
              ∙ written
              ∙ ap (λ k. encode host (fw || needs_wide k) rs) whole),
      valid,
    )
