-- ===== src/Charpack/Access.antt =====
-- Constant-time access: the tag, the end offsets and the bytes of record `i` of an encoding.
use charport.Prelude.{
  ℕ, zero, suc, ◌+◌, ◌-◌, ◌*◌, ◌<◌, ◌≡◌, refl, ap, ◌∙◌, Bool, List, [], ◌∷◌, ◌++◌, length, arith,
  take, drop, get_or, take-append, Bool-cases, ◌==◌, inl, inr,
}
use charport.Words.{Endian}
use charport.Charpack.Layout.{end_at, payload, offset_bytes}
use charport.Charpack.Encode.{Rec, total, tags_of, payload_of, Fits, prefix, end_of-words, parsed}

abbrev pub no_rec : Rec
no_rec = record { bytes = []; tag = 255 }

-- Record `i`.
abbrev pub rec_at : List Rec → ℕ → Rec
rec_at rs i = get_or rs i no_rec

pub prefix-suc :
    (i : ℕ) (rs : List Rec) → prefix (suc i) rs ≡ prefix i rs + length (rec_at rs i).bytes
prefix-suc zero [] = omega arith
prefix-suc zero (r ∷ rs) = omega arith
prefix-suc (suc i) [] = omega arith
prefix-suc (suc i) (r ∷ rs) = omega (arith, prefix-suc i rs)

pub prefix_all : (rs : List Rec) → prefix (length rs) rs ≡ total rs
prefix_all [] = refl
prefix_all (r ∷ rs) = omega (arith, prefix_all rs)

total_of_none : (rs : List Rec) → length rs ≡ 0 → 0 ≡ total rs
total_of_none [] h = refl
total_of_none (r ∷ rs) h = absurd (omega arith)

pub tags-get_or :
    (rs : List Rec) (more : List ℕ) (i : ℕ)
    → i < length rs
    → get_or (tags_of rs ++ more) i 0 ≡ (rec_at rs i).tag
tags-get_or [] more i h = absurd (omega arith)
tags-get_or (r ∷ rs) more zero h = refl
tags-get_or (r ∷ rs) more (suc i) h = tags-get_or rs more i (omega arith)

pub bytes_at :
    (rs : List Rec) (i : ℕ)
    → i < length rs
    → take (length (rec_at rs i).bytes) (drop (prefix i rs) (payload_of rs)) ≡ (rec_at rs i).bytes
bytes_at [] i h = absurd (omega arith)
bytes_at (r ∷ rs) zero h = take-append (length r.bytes) r.bytes (payload_of rs) refl
bytes_at (r ∷ rs) (suc i) h =
    ap (take (length (rec_at rs i).bytes)) (later r.bytes (prefix i rs) (payload_of rs))
    ∙ bytes_at rs i (omega arith)
  where
    later : (xs : List ℕ) (k : ℕ) (ys : List ℕ) → drop (length xs + k) (xs ++ ys) ≡ drop k ys
    later [] k ys = let e : 0 + k ≡ k = omega arith in ap (λ n. drop n ys) e
    later (x ∷ xs) k ys =
        let e : length (x ∷ xs) + k ≡ suc (length xs + k) = omega arith in
        ap (λ n. drop n (x ∷ (xs ++ ys))) e ∙ later xs k ys

pub drop-rec_at :
    (rs : List Rec) (i : ℕ) → i < length rs → drop i rs ≡ rec_at rs i ∷ drop (suc i) rs
drop-rec_at [] i h = absurd (omega arith)
drop-rec_at (r ∷ rs) zero h = refl
drop-rec_at (r ∷ rs) (suc i) h = drop-rec_at rs i (omega arith)

module _ (host : Endian) (wide : Bool) (rs : List Rec) (fits : Fits wide rs) where
  -- The end offset of record `i` is the size of the records up to it.
  pub end_at-parsed :
      (i : ℕ) → i < length rs → end_at host (parsed host wide rs fits) i ≡ prefix (suc i) rs
  unfolding end_at parsed
  end_at-parsed i h =
      end_of-words host wide i 0 rs (tags_of rs ++ payload_of rs) h (omega (arith, fits.1))
      ∙ omega arith

  -- The payload is as long as all records together.
  pub payload-parsed : payload host (parsed host wide rs fits) ≡ total rs
  unfolding payload parsed
  payload-parsed = elim (Bool-cases (length rs == 0)) [
    | inl z ↦ rw z (total_of_none rs (ground arith))
    | inr nz ↦
        let last : suc (length rs - 1) ≡ length rs = ground arith in
        rw nz
          (end_at-parsed (length rs - 1) (omega arith) ∙ ap (λ k. prefix k rs) last ∙ prefix_all rs)
  ]

  pub tag-parsed :
      (i : ℕ) → i < length rs → get_or (parsed host wide rs fits).tags i 0 ≡ (rec_at rs i).tag
  unfolding parsed
  tag-parsed i h = tags-get_or rs (payload_of rs) i h

  -- From the end of the previous record to the end of record `i` are the bytes of record `i`.
  pub bytes-parsed :
      (i : ℕ)
      → i < length rs
      → take (prefix (suc i) rs - prefix i rs) (drop (prefix i rs) (parsed host wide rs fits).bytes)
        ≡ (rec_at rs i).bytes
  unfolding parsed
  bytes-parsed i h =
      ap (λ n. take n (drop (prefix i rs) (payload_of rs))) (omega (arith, prefix-suc i rs))
      ∙ bytes_at rs i h

  pub n-parsed : (parsed host wide rs fits).n ≡ length rs
  unfolding parsed
  n-parsed = refl

  pub bytes_at-parsed :
      (parsed host wide rs fits).bytes_at ≡ 8 + offset_bytes wide * length rs + length rs
  unfolding parsed
  bytes_at-parsed = refl
