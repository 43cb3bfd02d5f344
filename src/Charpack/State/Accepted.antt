-- ===== src/Charpack/State/Accepted.antt =====
-- What state_error has checked of a state that it accepts (src/charpack_altrep.h).
use charport.Prelude.{
  ℕ, zero, suc, ◌+◌, ◌-◌, ◌*◌, ◌^◌, ◌≤◌, ◌<◌, ◌≡◌, ◌⊎◌, refl, sym, ap, ◌∙◌, Bool, not, ◌||◌, ◌&&◌,
  List, [], ◌∷◌, length, drop, get_or, arith, ok, ltb, ◌==◌, require-eq_ok, drop-drop,
  ends_out_of_order, string_too_long, bad_encoding, na_not_empty, state_truncated, true, ◌/◌, false,
}
use mathlib.Core.Path.{subst}
use charport.Interop.{cetype_na}
use charport.Charsxp.{valid_view_encoding}
use charport.Sizes.{check_r_string_len}
use charport.Words.{Endian, read_u64}
use charport.Charpack.Layout.{offset_bytes, head_wide, head_n}
use charport.Charpack.State.{read_word, check_ends, state_error}

-- Where record `i` begins and the one before it ends.
abbrev pub boundary : Endian → Bool → Bool → List ℕ → ℕ → ℕ → ℕ
boundary host wide swap ends begin zero = begin
boundary host wide swap ends begin (suc i) =
    read_word host (drop (i * offset_bytes wide) ends) wide swap

-- A record from `low` to `high` of a payload: in it, no longer than R's longest string, with a tag that
-- has a meaning, and empty if it is NA.
abbrev pub IsPlaced : ℕ → ℕ → ℕ → ℕ → Type 0
IsPlaced payload low high tag =
    (low ≤ high)
    × (high ≤ payload)
    × (high - low < 2 ^ 31)
    × ((tag ≤ 3) ⊎ (tag ≡ 100) ⊎ (tag ≡ 254) ⊎ (tag ≡ 255))
    × (tag ≡ 255 → high ≡ low)

module _ (host : Endian) (wide swap : Bool) (payload : ℕ) where
  shift :
      (ends : List ℕ) (begin i : ℕ)
      → boundary host wide swap (drop (offset_bytes wide) ends) (read_word host ends wide swap) i
        ≡ boundary host wide swap ends begin (suc i)
  shift ends begin zero =
      let e : 0 ≡ 0 * offset_bytes wide = omega arith in
      ap (λ k. read_word host (drop k ends) wide swap) e
  shift ends begin (suc i) =
      let w : ℕ = offset_bytes wide in
      let e : w + i * w ≡ suc i * w = grind arith in
      ap (λ xs. read_word host xs wide swap) (drop-drop (i * w) w ends ∙ ap (λ k. drop k ends) e)

  get_or-drop : (tags : List ℕ) (i : ℕ) → get_or (drop 1 tags) i 0 ≡ get_or tags (suc i) 0
  get_or-drop [] i = refl
  get_or-drop (t ∷ tags) i = refl

  placed :
      (begin end tag : ℕ)
      → not (ltb end begin || ltb payload end) ≡ true
      → check_r_string_len (end - begin) ≡ true
      → valid_view_encoding tag ≡ true
      → not (tag == cetype_na && not (end == begin)) ≡ true
      → IsPlaced payload begin end tag
  unfolding check_r_string_len valid_view_encoding
  placed begin end tag ordered short known empty = (
    ground (arith, ordered),
    ground (arith, ordered),
    ground (arith, short),
    ground (arith, known),
    λ na. ground (arith, empty, na),
  )

  check_ends-IsPlaced :
      (count : ℕ) (ends tags : List ℕ) (begin : ℕ)
      → check_ends host wide swap payload count ends tags begin ≡ ok tt
      → (boundary host wide swap ends begin count ≡ payload)
        × ((i : ℕ)
            → i < count
            → IsPlaced payload
                (boundary host wide swap ends begin i)
                (boundary host wide swap ends begin (suc i))
                (get_or tags i 0))
  unfolding check_ends
  check_ends-IsPlaced zero ends tags begin h =
      (ground (arith, h), λ i low. absurd (omega (arith, low)))
  check_ends-IsPlaced (suc count) ends tags begin h =
      let end : ℕ = read_word host ends wide swap in
      let tag : ℕ = get_or tags 0 0 in
      let (ordered, h1) =
        require-eq_ok (not (ltb end begin || ltb payload end)) ends_out_of_order _ h in
      let (short, h2) = require-eq_ok (check_r_string_len (end - begin)) string_too_long _ h1 in
      let (known, h3) = require-eq_ok (valid_view_encoding tag) bad_encoding _ h2 in
      let (empty, h4) =
        require-eq_ok (not (tag == cetype_na && not (end == begin))) na_not_empty _ h3 in
      let (whole, rest) =
        check_ends-IsPlaced count (drop (offset_bytes wide) ends) (drop 1 tags) end h4 in
      let first : IsPlaced payload begin end tag = placed begin end tag ordered short known empty in
      (sym (shift ends begin count) ∙ whole, λ i low. by_index end tag first rest i low)
    where
      by_index :
          (end tag : ℕ)
          → IsPlaced payload begin (read_word host ends wide swap) (get_or tags 0 0)
          → ((i : ℕ)
              → i < count
              → IsPlaced payload
                  (boundary host wide swap
                    (drop (offset_bytes wide) ends)
                    (read_word host ends wide swap)
                    i)
                  (boundary host wide swap
                    (drop (offset_bytes wide) ends)
                    (read_word host ends wide swap)
                    (suc i))
                  (get_or (drop 1 tags) i 0))
          → (i : ℕ) → i < suc count
          → IsPlaced payload
              (boundary host wide swap ends begin i)
              (boundary host wide swap ends begin (suc i))
              (get_or tags i 0)
      by_index end tag first rest zero low =
          subst (λ b. IsPlaced payload begin b (get_or tags 0 0)) (shift ends begin 0) first
      by_index end tag first rest (suc i) low =
          subst
            (λ t.
              IsPlaced payload (boundary host wide swap ends begin (suc i))
                (boundary host wide swap ends begin (suc (suc i))) t)
            (get_or-drop tags i)
            (subst
              (λ b.
                IsPlaced payload (boundary host wide swap ends begin (suc i)) b
                  (get_or (drop 1 tags) i 0))
              (shift ends begin (suc i))
              (subst
                (λ a.
                  IsPlaced payload a
                    (boundary host wide swap (drop (offset_bytes wide) ends)
                      (read_word host ends wide swap) (suc i))
                    (get_or (drop 1 tags) i 0))
                (shift ends begin i) (rest i (omega (arith, low)))))

-- A state whose head counts `n` records, in either width: the end offsets and the tags are there, every
-- record is in its place, and the last one ends where the payload does.
abbrev pub IsWhole : Endian → List ℕ → Bool → Type 0
IsWhole host raw swap =
    (wide : Bool) × (n meta : ℕ) × (wide ≡ head_wide (read_u64 host raw swap))
    × (n ≡ head_n (read_u64 host raw swap))
    × (meta ≡ 8 + n * (offset_bytes wide + 1))
    × (meta ≤ length raw)
    × (boundary host wide swap (drop 8 raw) 0 n ≡ length raw - meta)
    × ((i : ℕ)
        → i < n
        → IsPlaced (length raw - meta) (boundary host wide swap (drop 8 raw) 0 i)
            (boundary host wide swap (drop 8 raw) 0 (suc i))
            (get_or (drop (offset_bytes wide * n) (drop 8 raw)) i 0))

-- A state that is accepted, in either byte order, has room for the end offset and the tag of every
-- record that its head counts; every record lies in the payload after the one before it, is no longer
-- than R's longest string, has a known tag, and is empty if it is NA; and the last record ends where
-- the payload does.
pub state_error-IsPlaced :
    (host : Endian) (raw : List ℕ) (swap : Bool)
    → state_error host raw swap ≡ ok tt
    → IsWhole host raw swap
unfolding state_error
state_error-IsPlaced host raw swap h =
    let wide : Bool = head_wide (read_u64 host raw swap) in
    let n : ℕ = head_n (read_u64 host raw swap) in
    let (long, h1) = require-eq_ok (not (ltb (length raw) 8)) state_truncated _ h in
    let (room, h2) =
      require-eq_ok (not (ltb ((length raw - 8) / (offset_bytes wide + 1)) n)) state_truncated _
        h1 in
    let meta : ℕ = 8 + n * (offset_bytes wide + 1) in
    let (whole, placed) =
      check_ends-IsPlaced host wide swap (length raw - meta) n (drop 8 raw)
        (drop (offset_bytes wide * n) (drop 8 raw)) 0 h2 in
    (wide, n, meta, refl, refl, refl, fits wide n long room, whole, placed)
  where
    fits :
        (wide : Bool) (n : ℕ)
        → not (ltb (length raw) 8) ≡ true
        → not (ltb ((length raw - 8) / (offset_bytes wide + 1)) n) ≡ true
        → 8 + n * (offset_bytes wide + 1) ≤ length raw
    fits true n long room = ground (arith, long, room)
    fits false n long room = ground (arith, long, room)
