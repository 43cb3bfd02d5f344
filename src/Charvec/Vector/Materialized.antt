-- ===== src/Charvec/Vector/Materialized.antt =====
-- Materialize of a charvec that has its store and its Elt cache (src/charvec_altrep.h).
use charport.Charvec.Store.{na_record, Store}
use charport.Interop.Views.{content}
use charport.Charvec.Fill.Whole.{Given, strings_of}
use charport.Charvec.Vector.Coherence.{
  cached, charsxp_of_str, in_chunk, make_charsxp-content, IsCoherent,
}
use charport.Interop.{StrView}
use charport.Memory.{Mem}
use charport.Charsxp.{RStrings}
use charport.Charvec.Vector.{
  live, materialize, some, ◌∷◌, chunk_len, Cache, chunk_size, make_strings, fill_blanks,
  materialize_chunks,
}
use charport.Prelude.{
  inr, inl, List, ℕ, ◌<◌, take, ◌≤◌, All, map, Option, Bool, get_or, length, drop, ◌++◌, ◌*◌, ◌≡◌,
  ◌+◌, ◌-◌, arith, ap, Bool-cases, ◌∙◌, ltb, ok, false, sym, none, drop-drop, drop_all, suc,
  take-append-drop, length-take, ◌/◌, ◌%◌, zero, [], length-drop, refl, Result, collect, ◌>>=◌,
  Result-cases,
}

get_or-take-drop :
    {A : Type 0} (xs : List A) (n k j : ℕ) (d : A)
    → j < n
    → get_or (take n (drop k xs)) j d ≡ get_or xs (k + j) d
get_or-take-drop xs zero k j d h = absurd (omega arith)
get_or-take-drop [] (suc n) k j d h = nothing k
  where
    nothing : (k : ℕ) → get_or (take (suc n) (drop k [])) j d ≡ d
    nothing zero = refl
    nothing (suc k) = refl
get_or-take-drop (x ∷ xs) (suc n) zero zero d h = refl
get_or-take-drop (x ∷ xs) (suc n) zero (suc j) d h =
    get_or-take-drop xs n zero j d (omega arith) ∙ ap (λ i. get_or (x ∷ xs) i d) (at_start j)
  where
    at_start : (j : ℕ) → suc (0 + j) ≡ 0 + suc j
    at_start j = omega arith
get_or-take-drop (x ∷ xs) (suc n) (suc k) j d h =
    get_or-take-drop xs (suc n) k j d h ∙ ap (λ i. get_or (x ∷ xs) i d) (suc_out k)
  where
    suc_out : (k : ℕ) → suc (k + j) ≡ suc k + j
    suc_out k = omega arith

-- A chunk and what follows it.
chunk-append :
    {A : Type 0} (xs : List A) (c : ℕ)
    → take (chunk_len (length xs) c) (drop (c * chunk_size) xs) ++ drop ((c + 1) * chunk_size) xs
      ≡ drop (c * chunk_size) xs
unfolding chunk_len
chunk-append xs c = elim (Bool-cases (ltb chunk_size (length xs - c * chunk_size))) [
  | inl more ↦ rw more (
      ap (λ t. take chunk_size (drop (c * chunk_size) xs) ++ t) (later chunk_size (omega arith))
      ∙ take-append-drop chunk_size (drop (c * chunk_size) xs))
  | inr last ↦ rw last (
      ap (λ t. take (length xs - c * chunk_size) (drop (c * chunk_size) xs) ++ t)
        (drop_all ((c + 1) * chunk_size) xs (ground (arith, last))
          ∙ sym (
              drop_all (length xs - c * chunk_size) (drop (c * chunk_size) xs)
                (omega (arith, length-drop (c * chunk_size) xs))))
      ∙ take-append-drop (length xs - c * chunk_size) (drop (c * chunk_size) xs))
]
  where
    later :
        (k : ℕ)
        → (c + 1) * chunk_size ≡ c * chunk_size + k
        → drop ((c + 1) * chunk_size) xs ≡ drop k (drop (c * chunk_size) xs)
    later k e = ap (λ i. drop i xs) e ∙ sym (drop-drop k (c * chunk_size) xs)

chunk_len_bounds : (n c : ℕ) → (chunk_len n c ≤ chunk_size) × (chunk_len n c ≤ n - c * chunk_size)
unfolding chunk_len
chunk_len_bounds n c = elim (Bool-cases (ltb chunk_size (n - c * chunk_size))) [
  | inl more ↦ rw more (omega arith, ground (arith, more))
  | inr last ↦ rw last (ground (arith, last), omega arith)
]

All-drop : {A : Type 0} (P : A → Type 0) (n : ℕ) (xs : List A) → All P xs → All P (drop n xs)
All-drop P zero xs h = h
All-drop P (suc n) [] h = h
All-drop P (suc n) (x ∷ xs) (p, h) = All-drop P n xs h

All-take : {A : Type 0} (P : A → Type 0) (n : ℕ) (xs : List A) → All P xs → All P (take n xs)
All-take P zero xs h = tt
All-take P (suc n) [] h = tt
All-take P (suc n) (x ∷ xs) (p, h) = (p, All-take P n xs h)

collect-append :
    {A B : Type 0} (f : A → Result B) (xs ys : List A)
    → collect f (xs ++ ys) ≡ (collect f xs >>= λ ys1. collect f ys >>= λ ys2. ok (ys1 ++ ys2))
collect-append f [] ys = elim (Result-cases (collect f ys)) [
  | inl (bs, e) ↦ rw e refl
  | inr (reason, e) ↦ rw e refl
]
collect-append f (x ∷ xs) ys =
    let rest = collect-append f xs ys in
    elim (Result-cases (f x)) [
      | inr (reason, e) ↦ rw e refl
      | inl (y, e) ↦ elim (Result-cases (collect f xs)) [
        | inr (reason, e1) ↦ rw (e, rest, e1) refl
        | inl (ys1, e1) ↦ elim (Result-cases (collect f ys)) [
          | inr (reason, e2) ↦ rw (e, rest, e1, e2) refl
          | inl (ys2, e2) ↦ rw (e, rest, e1, e2) refl
        ]
      ]
    ]

whole_chunk : (n l : ℕ) → l ≡ chunk_len n 0 → n ≤ (0 + 1) * chunk_size → l ≡ n
unfolding chunk_len
whole_chunk n l e h = elim (Bool-cases (ltb chunk_size (n - 0 * chunk_size))) [
  | inl more ↦ absurd (ground (arith, more, h))
  | inr last ↦ e ∙ rw last (omega arith)
]

-- The chunks of a cache for `n` elements, from chunk `c` on, have their lengths.
abbrev pub ShapedFrom : {C : Type 0} → ℕ → ℕ → List (Option (List C)) → Type 0
ShapedFrom n c [] = n ≤ c * chunk_size
ShapedFrom n c (none ∷ chunks) = ShapedFrom n (c + 1) chunks
ShapedFrom n c (some xs ∷ chunks) = (length xs ≡ chunk_len n c) × ShapedFrom n (c + 1) chunks

abbrev pub IsShaped : {C : Type 0} → ℕ → Cache C → Type 0
IsShaped n none = Unit {0}
IsShaped n (some chunks) = ShapedFrom n 0 chunks

module _ (r : RStrings) (blank : r.Charsxp) (is_blank : r.Charsxp → Bool) (m : Mem) where
  open r use {Charsxp}

  -- R's string of a row, or the error with which R refuses to make it.
  abbrev of_row : StrView → Result Charsxp
  of_row v = charsxp_of_str r blank is_blank (content m v)

  make_strings-of_row :
      (vs : List StrView)
      → All (Given m) vs
      → make_strings r blank is_blank m vs ≡ collect of_row vs
  unfolding make_strings
  make_strings-of_row [] given = refl
  make_strings-of_row (v ∷ vs) (own, given) =
      rw (make_charsxp-content r blank is_blank m v own, make_strings-of_row vs given) refl

  fill_blanks-of_row :
      (xs : List Charsxp) (vs : List StrView)
      → length xs ≡ length vs
      → All (Given m) vs
      → ((j : ℕ)
          → j < length xs
          → is_blank (get_or xs j blank) ≡ false
          → of_row (get_or vs j na_record) ≡ ok (get_or xs j blank))
      → fill_blanks r blank is_blank m xs vs ≡ collect of_row vs
  unfolding fill_blanks
  fill_blanks-of_row [] [] e given agree = refl
  fill_blanks-of_row [] (v ∷ vs) e given agree = absurd (omega arith)
  fill_blanks-of_row (x ∷ xs) [] e given agree = absurd (omega arith)
  fill_blanks-of_row (x ∷ xs) (v ∷ vs) e (own, given) agree =
      let rest =
        fill_blanks-of_row xs vs (omega arith) given
          (λ j h full. agree (suc j) (omega arith) full) in
      elim (Bool-cases (is_blank x)) [
        | inl miss ↦ rw (miss, make_charsxp-content r blank is_blank m v own, rest) refl
        | inr full ↦ rw (full, rest, agree 0 (omega arith) full) refl
      ]

  materialize_chunks-of_row :
      (rows : List StrView) (c : ℕ) (chunks : List (Option (List Charsxp)))
      → All (Given m) rows
      → ShapedFrom (length rows) c chunks
      → ((k j : ℕ)
          → j < chunk_size
          → is_blank (in_chunk r blank is_blank (get_or chunks k none) j) ≡ false
          → of_row (get_or rows ((c + k) * chunk_size + j) na_record)
            ≡ ok (in_chunk r blank is_blank (get_or chunks k none) j))
      → materialize_chunks r blank is_blank m rows c chunks
        ≡ collect of_row (drop (c * chunk_size) rows)
  unfolding materialize_chunks
  materialize_chunks-of_row rows c [] given shaped agree =
      ap (λ t. collect of_row t) (sym (drop_all (c * chunk_size) rows shaped))
  materialize_chunks-of_row rows c (none ∷ chunks) given shaped agree =
      let part : List StrView = take (chunk_len (length rows) c) (drop (c * chunk_size) rows) in
      let own : All (Given m) part =
        All-take (Given m) (chunk_len (length rows) c) (drop (c * chunk_size) rows)
          (All-drop (Given m) (c * chunk_size) rows given) in
      rw
        (
          make_strings-of_row part own,
          materialize_chunks-of_row rows (c + 1) chunks given shaped (λ k j h full.
              ap (λ i. of_row (get_or rows (i * chunk_size + j) na_record)) (next_chunk k)
              ∙ agree (suc k) j h full),
        )
        (sym (collect-append of_row part (drop ((c + 1) * chunk_size) rows))
          ∙ ap (collect of_row) (chunk-append rows c))
    where
      next_chunk : (k : ℕ) → c + 1 + k ≡ c + suc k
      next_chunk k = omega arith
  materialize_chunks-of_row rows c (some src ∷ chunks) given (sized, shaped) agree =
      let part : List StrView = take (chunk_len (length rows) c) (drop (c * chunk_size) rows) in
      let own : All (Given m) part =
        All-take (Given m) (chunk_len (length rows) c) (drop (c * chunk_size) rows)
          (All-drop (Given m) (c * chunk_size) rows given) in
      let bounds : (chunk_len (length rows) c ≤ chunk_size)
          × (chunk_len (length rows) c ≤ length rows - c * chunk_size) =
        chunk_len_bounds (length rows) c in
      let counted : length src ≡ length part = omega (
        arith,
        sized,
        length-take (chunk_len (length rows) c) (drop (c * chunk_size) rows),
        length-drop (c * chunk_size) rows,
        bounds.1,
      ) in
      rw
        (
          fill_blanks-of_row src part counted own (λ j h full. in_first j h full),
          materialize_chunks-of_row rows (c + 1) chunks given shaped (λ k j h full.
              ap (λ i. of_row (get_or rows (i * chunk_size + j) na_record)) (next_chunk k)
              ∙ agree (suc k) j h full),
        )
        (sym (collect-append of_row part (drop ((c + 1) * chunk_size) rows))
          ∙ ap (collect of_row) (chunk-append rows c))
    where
      next_chunk : (k : ℕ) → c + 1 + k ≡ c + suc k
      next_chunk k = omega arith

      in_first :
          (j : ℕ)
          → j < length src
          → is_blank (get_or src j blank) ≡ false
          → of_row
              (get_or (take (chunk_len (length rows) c) (drop (c * chunk_size) rows)) j na_record)
            ≡ ok (get_or src j blank)
      in_first j h full =
          let small : chunk_len (length rows) c ≤ chunk_size =
            (chunk_len_bounds (length rows) c).0 in
          unfold in_chunk in
          let place : c * chunk_size + j ≡ (c + 0) * chunk_size + j = omega arith in
          ap of_row (
            get_or-take-drop rows (chunk_len (length rows) c) (c * chunk_size) j na_record
              (omega (arith, sized))
            ∙ ap (λ i. get_or rows i na_record) place)
          ∙ agree 0 j (omega (arith, sized, small)) full

  collect-of_row :
      (vs : List StrView)
      → collect of_row vs ≡ collect (charsxp_of_str r blank is_blank) (map (content m) vs)
  collect-of_row [] = refl
  collect-of_row (v ∷ vs) = rw (collect-of_row vs) refl

  in_chunks :
      (st : Store) (chunks : List (Option (List Charsxp)))
      → IsCoherent r blank is_blank m st (some chunks)
      → (k j : ℕ) → j < chunk_size
      → is_blank (in_chunk r blank is_blank (get_or chunks k none) j) ≡ false
      → of_row (get_or st.records.rows ((0 + k) * chunk_size + j) na_record)
        ≡ ok (in_chunk r blank is_blank (get_or chunks k none) j)
  unfolding cached
  in_chunks st chunks co k j h full =
      let i : ℕ = (0 + k) * chunk_size + j in
      let chunk_of : i / chunk_size ≡ k = omega (arith, h) in
      let place_of : i % chunk_size ≡ j = omega (arith, h) in
      let same : cached r blank is_blank (some chunks) i
          ≡ in_chunk r blank is_blank (get_or chunks k none) j =
        ap (λ q. in_chunk r blank is_blank (get_or chunks q none) (i % chunk_size)) chunk_of
        ∙ ap (in_chunk r blank is_blank (get_or chunks k none)) place_of in
      co.agrees i (ap is_blank same ∙ full) ∙ ap (λ x. ok x) same

  in_whole :
      (st : Store) (chunk : List Charsxp)
      → ShapedFrom (length st.records.rows) 0 (some chunk ∷ [])
      → IsCoherent r blank is_blank m st (some (some chunk ∷ []))
      → (j : ℕ) → j < length chunk
      → is_blank (get_or chunk j blank) ≡ false
      → of_row (get_or st.records.rows j na_record) ≡ ok (get_or chunk j blank)
  unfolding in_chunk
  in_whole st chunk (sized, shaped) co j h full =
      let bounds : (chunk_len (length st.records.rows) 0 ≤ chunk_size)
          × (chunk_len (length st.records.rows) 0 ≤ length st.records.rows - 0 * chunk_size) =
        chunk_len_bounds (length st.records.rows) 0 in
      let small : j < chunk_size = omega (arith, sized, bounds.0, h) in
      let at_start : j ≡ (0 + 0) * chunk_size + j = omega arith in
      ap (λ i. of_row (get_or st.records.rows i na_record)) at_start
      ∙ in_chunks st (some chunk ∷ []) co 0 j small full

  -- Materializing a charvec that has its store, where its cache has chunks of the right lengths and
  -- agrees with the store, gives R's string of every record in their order, cached or made, or raises
  -- the error of the first that R refuses to make.
  pub materialize-strings :
      (st : Store) (cache : Cache Charsxp)
      → All (Given m) st.records.rows
      → IsShaped (length st.records.rows) cache
      → IsCoherent r blank is_blank m st cache
      → materialize r blank is_blank m (live st cache)
        ≡ collect (charsxp_of_str r blank is_blank) (strings_of m st)
  unfolding materialize
  materialize-strings st none given shaped co =
      make_strings-of_row st.records.rows given ∙ collect-of_row st.records.rows
  materialize-strings st (some []) given shaped co =
      materialize_chunks-of_row st.records.rows 0 [] given shaped (in_chunks st [] co)
      ∙ collect-of_row st.records.rows
  materialize-strings st (some (none ∷ [])) given shaped co =
      materialize_chunks-of_row st.records.rows 0 (none ∷ []) given shaped
        (in_chunks st (none ∷ []) co)
      ∙ collect-of_row st.records.rows
  materialize-strings st (some (some chunk ∷ [])) given (sized, shaped) co =
      fill_blanks-of_row chunk st.records.rows
        (whole_chunk (length st.records.rows) (length chunk) sized shaped) given
        (in_whole st chunk (sized, shaped) co)
      ∙ collect-of_row st.records.rows
  materialize-strings st (some (none ∷ next ∷ chunks)) given shaped co =
      materialize_chunks-of_row st.records.rows 0 (none ∷ next ∷ chunks) given shaped
        (in_chunks st (none ∷ next ∷ chunks) co)
      ∙ collect-of_row st.records.rows
  materialize-strings st (some (some chunk ∷ next ∷ chunks)) given shaped co =
      materialize_chunks-of_row st.records.rows 0 (some chunk ∷ next ∷ chunks) given shaped
        (in_chunks st (some chunk ∷ next ∷ chunks) co)
      ∙ collect-of_row st.records.rows
