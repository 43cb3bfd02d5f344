-- ===== src/Charpack/Methods/Subset.antt =====
-- A subset of an encoding is the encoding of the records selected.
use mathlib.Core.Path.{ap₂}
use charport.Charpack.Methods.Selection.{by_int, get_or-selected_int, get_or-beyond}
use charport.Prelude.{
  ℕ, zero, suc, ◌+◌, ◌-◌, ◌*◌, ◌≤◌, ◌<◌, ◌^◌, ◌≡◌, refl, sym, ap, ◌∙◌, Bool, true, false, List, [],
  ◌∷◌, ◌++◌, length, All, arith, map, take, drop, if◌then◌else◌, ◌/◌, some, ◌-◌, ok, ◌==◌,
  Bool-cases, inl, inr, length-map, ltb, get_or,
}
use charport.Interop.{cetype_na}
use charport.Sizes.{size_max}
use charport.Words.{Endian}
use charport.Charpack.Layout.{
  write_head, parse, write_head, end_at, needs_wide, total_bytes, offset_bytes,
}
use charport.Charpack.Encode.{
  Rec, total, words, tags_of, payload_of, encode, Fits, parsed, parse-encode, prefix,
}
use charport.Charpack.Access.{rec_at, prefix-suc, end_at-parsed, tag-parsed, bytes-parsed, n-parsed}
use charport.Charpack.Fill.{filled}
use charport.Charpack.Methods.{
  Real, not_finite, finite, ints, selected_int, selected_real, extract_subset, begin_at,
  subset_payload, subset_records, subset_of,
}
use charport.Charpack.Fill.Alloc.{total_bytes_exact}

-- The record that an index selects: NA beyond the end.
abbrev pub na_rec : Rec
na_rec = record { bytes = []; tag = cetype_na }

abbrev pub pick : List Rec → ℕ → Rec
pick rs i = if i == length rs then record { bytes = []; tag = cetype_na } else rec_at rs i

get_or-default :
    {A : Type 0} (xs : List A) (i : ℕ) (d e : A) → i < length xs → get_or xs i d ≡ get_or xs i e
get_or-default [] i d e h = absurd (omega arith)
get_or-default (x ∷ xs) zero d e h = refl
get_or-default (x ∷ xs) (suc i) d e h = get_or-default xs i d e (omega arith)

pick-get_or : (rs : List Rec) (i : ℕ) → i ≤ length rs → pick rs i ≡ get_or rs i na_rec
pick-get_or rs i h = elim (Bool-cases (i == length rs)) [
  | inl past ↦ rw past (sym (get_or-beyond rs i na_rec (ground (arith, past))))
  | inr within ↦ rw within (get_or-default rs i _ na_rec (ground (arith, within)))
]

encode-counted :
    (host : Endian) (w : Bool) (n : ℕ) (qs : List Rec)
    → n ≡ length qs
    → write_head host n w ++ (words host w 0 qs ++ (tags_of qs ++ payload_of qs)) ≡ encode host w qs
unfolding encode
encode-counted host w n qs e =
    ap (λ k. write_head host k w ++ (words host w 0 qs ++ (tags_of qs ++ payload_of qs))) e

module _ (host : Endian) (wide : Bool) (rs : List Rec) (fits : Fits wide rs) where
  begin_at-parsed :
      (i : ℕ) → i < length rs → begin_at host (parsed host wide rs fits) i ≡ prefix i rs
  unfolding begin_at
  begin_at-parsed zero h = refl
  begin_at-parsed (suc i) h =
      let later : (suc i == 0) ≡ false = ground arith in
      let before : suc i - 1 ≡ i = omega arith in
      rw (later, before) (end_at-parsed host wide rs fits i (omega arith))

  len-parsed :
      (i : ℕ)
      → i < length rs
      → end_at host (parsed host wide rs fits) i - begin_at host (parsed host wide rs fits) i
        ≡ length (rec_at rs i).bytes
  len-parsed i h =
      rw (end_at-parsed host wide rs fits i h, begin_at-parsed i h) (omega (arith, prefix-suc i rs))

  at_end : (i : ℕ) (b : Bool) → (i == length rs) ≡ b → (i == (parsed host wide rs fits).n) ≡ b
  at_end i b h = ap (λ n. i == n) (n-parsed host wide rs fits) ∙ h

  subset_payload-parsed :
      (is : List ℕ) (sum : ℕ)
      → All (λ i. i ≤ length rs) is
      → sum + total (map (pick rs) is) ≤ size_max
      → subset_payload host (parsed host wide rs fits) is sum ≡ ok (sum + total (map (pick rs) is))
  unfolding subset_payload
  subset_payload-parsed [] sum h small = ap ok (omega arith)
  subset_payload-parsed (i ∷ is) sum (hi, h) small = elim (Bool-cases (i == length rs)) [
    | inl past ↦
        rw (subset_payload, at_end i true past, past)
          (subset_payload-parsed is sum h (ground arith) ∙ ap ok (omega arith))
    | inr inside ↦
        let fewer : i < length rs = ground arith in
        let len : ℕ = length (rec_at rs i).bytes in
        let small' : sum + (len + total (map (pick rs) is)) ≤ size_max = ground arith in
        let room : ltb (size_max - length (rec_at rs i).bytes) sum ≡ false = ground arith in
        rw (subset_payload, at_end i false inside, inside, len-parsed i fewer, room)
          (subset_payload-parsed is (sum + length (rec_at rs i).bytes) h (omega arith)
            ∙ ap ok (omega arith))
  ]

  slice :
      (i : ℕ)
      → i < length rs
      → take (length (rec_at rs i).bytes) (drop (prefix i rs) (parsed host wide rs fits).bytes)
        ≡ (rec_at rs i).bytes
  slice i h =
      ap (λ k. take k (drop (prefix i rs) (parsed host wide rs fits).bytes))
        (omega (arith, prefix-suc i rs))
      ∙ bytes-parsed host wide rs fits i h

  subset_records-parsed :
      (w : Bool) (is : List ℕ) (end : ℕ)
      → All (λ i. i ≤ length rs) is
      → subset_records host (parsed host wide rs fits) w is end ≡ (
        words host w end (map (pick rs) is),
        tags_of (map (pick rs) is),
        payload_of (map (pick rs) is),
      )
  unfolding subset_records words
  subset_records-parsed w [] end h = refl
  subset_records-parsed w (i ∷ is) end (hi, h) = elim (Bool-cases (i == length rs)) [
    | inl past ↦ rw (at_end i true past, past, subset_records-parsed w is (end + 0) h) refl
    | inr inside ↦
        let fewer : i < length rs = ground arith in
        rw
          (
            at_end i false inside,
            inside,
            len-parsed i fewer,
            begin_at-parsed i fewer,
            tag-parsed host wide rs fits i fewer,
            slice i fewer,
            subset_records-parsed w is (end + length (rec_at rs i).bytes) h,
          )
          refl
  ]

  -- The subset of an encoding is the encoding of the records selected, NA for those beyond the end,
  -- in offsets as narrow as they can be; it is made whenever its size is within the maximum.
  pub subset_of-encode :
      (max : ℕ) (fails : ℕ → Bool) (is : List ℕ)
      → 8 ≤ max
      → max < 2 ^ 63
      → All (λ i. i ≤ length rs) is
      → 8
          + length is * (offset_bytes (needs_wide (total (map (pick rs) is))) + 1)
          + total (map (pick rs) is)
        ≤ max
      → ((size : ℕ) → fails size ≡ false)
      → subset_of host max fails (encode host wide rs) is
        ≡ ok (encode host (needs_wide (total (map (pick rs) is))) (map (pick rs) is))
  unfolding subset_of
  subset_of-encode max fails is h8 hm inside fits' served =
      let sum : ℕ = total (map (pick rs) is) in
      let small : 0 + total (map (pick rs) is) ≤ size_max = omega arith in
      let none_before : 0 + sum ≡ sum = omega arith in
      let nonzero : (total_bytes max (length is) (total (map (pick rs) is))
              (needs_wide (total (map (pick rs) is)))
            == 0)
          ≡ false =
        ground (
          arith,
          total_bytes_exact max (length is) (total (map (pick rs) is))
              (needs_wide (total (map (pick rs) is))) h8,
        ) in
      rw
        (
          parse-encode host wide rs fits,
          subset_payload-parsed is 0 inside small,
          none_before,
          nonzero,
          served,
          subset_records-parsed (needs_wide (total (map (pick rs) is))) is 0 inside,
        )
        (ap ok (
          encode-counted host (needs_wide sum) (length is) (map (pick rs) is)
            (sym (length-map (pick rs) is))))

  -- What integer subscripts select.
  abbrev pub selection : List ℕ → List Rec
  selection ks = map (by_int na_rec rs) ks

  selected_int-le : (n k : ℕ) → selected_int n k ≤ n
  unfolding selected_int
  selected_int-le n k = ground arith

  pick-by_int : (k : ℕ) → pick rs (selected_int (length rs) k) ≡ by_int na_rec rs k
  pick-by_int k =
      pick-get_or rs (selected_int (length rs) k) (selected_int-le (length rs) k)
      ∙ get_or-selected_int na_rec rs k

  selection-pick : (ks : List ℕ) → map (pick rs) (map (selected_int (length rs)) ks) ≡ selection ks
  selection-pick [] = refl
  selection-pick (k ∷ ks) = ap₂ (λ q qs. q ∷ qs) (pick-by_int k) (selection-pick ks)

  selected_real-le : (n : ℕ) (k : Real) → selected_real n k ≤ n
  unfolding selected_real
  selected_real-le n not_finite = omega arith
  selected_real-le n (finite negative num scale) =
      elim (Bool-cases (ltb num ((n + 1) * 2 ^ scale))) [
        | inl below ↦
            let lt : num < (n + 1) * 2 ^ scale = ground arith in
            let quotient : num / 2 ^ scale < n + 1 = grind arith in ground arith
        | inr past ↦ ground arith
      ]

  All-map :
      {A : Type 0} (f : A → ℕ) (n : ℕ) (ks : List A)
      → ((k : A) → f k ≤ n)
      → All (λ i. i ≤ n) (map f ks)
  All-map f n [] h = tt
  All-map f n (k ∷ ks) h = (h k, All-map f n ks h)

  -- Extract_subset of a filled charpack by integer subscripts gives the charpack of the records that
  -- they select, NA for an NA subscript and for one out of range, whenever its size is within the
  -- maximum and R's allocation does not fail.
  pub extract_subset-encode :
      {C : Type 0} (max : ℕ) (fails : ℕ → Bool) (ks : List ℕ)
      → 8 ≤ max
      → max < 2 ^ 63
      → 8
          + length ks * (offset_bytes (needs_wide (total (selection ks))) + 1)
          + total (selection ks)
        ≤ max
      → ((size : ℕ) → fails size ≡ false)
      → extract_subset {C = C} host max fails (filled (encode host wide rs)) (ints ks)
        ≡ ok (some (filled (encode host (needs_wide (total (selection ks))) (selection ks))))
  unfolding extract_subset
  extract_subset-encode max fails ks h8 hm fits' served =
      let is : List ℕ = map (selected_int (length rs)) ks in
      let chosen = selection-pick ks in
      rw
        (
          count,
          subset_of-encode max fails is h8 hm
              (All-map (selected_int (length rs)) (length rs) ks (selected_int-le (length rs)))
              (rw (length-map (selected_int (length rs)) ks, chosen) fits') served,
          chosen,
        )
        refl
    where
      count : (parse host (encode host wide rs)).n ≡ length rs
      count = ap (λ v. v.n) (parse-encode host wide rs fits) ∙ n-parsed host wide rs fits
