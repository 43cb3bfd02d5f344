-- ===== src/Charvec/Vector/Coherence.antt =====
-- The Elt cache agrees with the store: what it holds of an element is that element's string, or the
-- blank string, which is a miss.
use charport.Charvec.Assign.Owned.{row_at}
use charport.Charvec.Store.{Store}
use charport.Sizes.{check_r_string_len_int}
use charport.Charvec.Builder.Shards.{SettledAt}
use charport.Charvec.Fill.Whole.{Given}
use charport.Interop.{StrView, strview_is_na}
use charport.Memory.{at, Mem, Ptr, is_null, null}
use charport.Charvec.Vector.{
  suc, ◌∷◌, Cache, cache_put, chunk_size, elt_chunk, chunk_len, chunk_count,
}
use charport.Interop.Views.{Str, content}
use charport.Charsxp.{RStrings, make_charsxp, to_base_encoding}
use charport.Prelude.{
  inl, ℕ, List, ◌≡◌, get_or, Bool, ◌⊎◌, set, replicate, Option, ◌≢◌, inr, Bool-cases, ◌/◌, ◌==◌,
  some, ok, none, get_or-set_ne, Option-cases, ◌%◌, refl, false, ◌<◌, ◌^◌, arith, zero, [], leb,
  true, length, get_or-set_self, none-ne-some, ap, ◌∙◌, sym, Result,
}
use mathlib.Core.Path.{subst}

pub Nat-cases : (i j : ℕ) → (i ≡ j) ⊎ (i ≢ j)
Nat-cases i j = elim (Bool-cases (i == j)) [
  | inl same ↦ inl (ground arith)
  | inr other ↦ inr (ground arith)
]

get_or-set_or :
    {A : Type 0} (xs : List A) (k : ℕ) (v d : A)
    → (get_or (set xs k v) k d ≡ v) ⊎ (get_or (set xs k v) k d ≡ d)
get_or-set_or [] k v d = inr refl
get_or-set_or (x ∷ xs) zero v d = inl refl
get_or-set_or (x ∷ xs) (suc k) v d = get_or-set_or xs k v d

get_or-replicate : {A : Type 0} (n k : ℕ) (d : A) → get_or (replicate n d) k d ≡ d
get_or-replicate zero k d = refl
get_or-replicate (suc n) zero d = refl
get_or-replicate (suc n) (suc k) d = get_or-replicate n k d

found_within :
    {A : Type 0} (xs : List (Option A)) (k : ℕ) {y : A} → get_or xs k none ≡ some y → k < length xs
found_within [] k e = absurd (none-ne-some e)
found_within (x ∷ xs) zero e = omega arith
found_within (x ∷ xs) (suc k) e = omega (arith, found_within xs k e)

module _ (r : RStrings) (blank : r.Charsxp) (is_blank : r.Charsxp → Bool) where
  open r use {Charsxp, na_string, mk_char_len_ce}

  -- R's string of a string of the vector, or the error with which R refuses to make it.
  unfoldable pub charsxp_of_str : Str → Result Charsxp
  charsxp_of_str none = ok na_string
  charsxp_of_str (some x) = mk_char_len_ce x.0 (to_base_encoding x.1)

  pub make_charsxp-content :
      (m : Mem) (v : StrView) → Given m v → make_charsxp r m v ≡ charsxp_of_str (content m v)
  unfolding make_charsxp content charsxp_of_str
  make_charsxp-content m v given = elim (Bool-cases (strview_is_na v)) [
    | inl na ↦ rw na refl
    | inr known ↦
        let short : v.len < 2 ^ 31 =
          by_ptr v.ptr given (unfold strview_is_na in ground (arith, known)) in
        let nonneg : leb (2 ^ 31) v.len ≡ false = ground arith in
        let fits : check_r_string_len_int v.len ≡ true =
          unfold check_r_string_len_int in ground arith in
        rw (known, fits, nonneg) refl
  ]
    where
      by_ptr : (p : Ptr) → SettledAt m.next 0 0 p v.len → is_null p ≡ false → v.len < 2 ^ 31
      by_ptr null h e = cc
      by_ptr (at b o) h e = h.1

  -- What the cache has of an element.
  unfoldable pub in_chunk : Option (List Charsxp) → ℕ → Charsxp
  in_chunk none j = blank
  in_chunk (some chunk) j = get_or chunk j blank

  unfoldable pub cached : Cache Charsxp → ℕ → Charsxp
  cached none i = blank
  cached (some chunks) i = in_chunk (get_or chunks (i / chunk_size) none) (i % chunk_size)

  -- A chunk put where it was, or where none was.
  cached-set_ne :
      (chunks : List (Option (List Charsxp))) (c j : ℕ) (y : Option (List Charsxp))
      → c ≢ j / chunk_size
      → cached (some (set chunks c y)) j ≡ cached (some chunks) j
  unfolding cached
  cached-set_ne chunks c j y ne = rw (get_or-set_ne chunks y none ne) refl

  pub cached-cache_put_ne :
      (cache : Cache Charsxp) (i j : ℕ) (x : Charsxp)
      → i ≢ j
      → cached (cache_put r blank is_blank cache i x) j ≡ cached cache j
  unfolding cache_put cached in_chunk
  cached-cache_put_ne none i j x ne = refl
  cached-cache_put_ne (some chunks) i j x ne =
      elim (Option-cases (get_or chunks (i / chunk_size) none)) [
        | inl missing ↦ rw (cache_put, missing) refl
        | inr found ↦
            let (chunk, e) = found in
            rw (cache_put, e)
              (elim (Nat-cases (i / chunk_size) (j / chunk_size)) [
                | inr apart ↦ cached-set_ne chunks (i / chunk_size) j _ apart
                | inl same ↦
                    let within : i % chunk_size ≢ j % chunk_size = λ f. ne (omega arith) in
                    let put : Option (List Charsxp) = some (set chunk (i % chunk_size) x) in
                    let after : get_or (set chunks (i / chunk_size) put) (j / chunk_size) none
                        ≡ put =
                      subst (λ q. get_or (set chunks (i / chunk_size) put) q none ≡ put) same
                        (get_or-set_self chunks (i / chunk_size) put none
                          (found_within chunks (i / chunk_size) e)) in
                    let before : get_or chunks (j / chunk_size) none ≡ some chunk =
                      subst (λ q. get_or chunks q none ≡ some chunk) same e in
                    ap (λ o. in_chunk o (j % chunk_size)) after
                    ∙ get_or-set_ne chunk x blank within
                    ∙ ap (λ o. in_chunk o (j % chunk_size)) (sym before)
              ])
      ]

  pub cached-cache_put_self :
      (cache : Cache Charsxp) (i : ℕ) (x : Charsxp)
      → (cached (cache_put r blank is_blank cache i x) i ≡ x)
        ⊎ (cached (cache_put r blank is_blank cache i x) i ≡ blank)
  unfolding cache_put cached in_chunk
  cached-cache_put_self none i x = inr refl
  cached-cache_put_self (some chunks) i x =
      elim (Option-cases (get_or chunks (i / chunk_size) none)) [
        | inl missing ↦ rw (cache_put, missing) (inr (rw missing refl))
        | inr found ↦
            let (chunk, e) = found in
            rw (cache_put, e)
              (elim (get_or-set_or chunks (i / chunk_size) (some (set chunk (i % chunk_size) x))
                none) [
                  | inl there ↦ rw there (get_or-set_or chunk (i % chunk_size) x blank)
                  | inr gone ↦ rw gone (inr refl)
                ])
      ]

  blank-set_chunk :
      (chunks : List (Option (List Charsxp))) (c j n : ℕ)
      → c ≡ j / chunk_size
      → cached (some (set chunks c (some (replicate n blank)))) j ≡ blank
  unfolding cached in_chunk
  blank-set_chunk chunks c j n e =
      subst
        (λ q.
          in_chunk (get_or (set chunks c (some (replicate n blank))) q none) (j % chunk_size)
          ≡ blank)
        e
        (elim (get_or-set_or chunks c (some (replicate n blank)) none) [
          | inl there ↦
              ap (λ o. in_chunk o (j % chunk_size)) there
              ∙ get_or-replicate n (j % chunk_size) blank
          | inr gone ↦ ap (λ o. in_chunk o (j % chunk_size)) gone
        ])

  -- A miss of a chunk leaves what the cache has of every element, or makes it blank.
  pub cached-elt_chunk :
      (n : ℕ) (cache : Cache Charsxp) (i j : ℕ)
      → (cached (elt_chunk r blank is_blank n cache i).1 j ≡ cached cache j)
        ⊎ (cached (elt_chunk r blank is_blank n cache i).1 j ≡ blank)
  unfolding elt_chunk cached in_chunk
  cached-elt_chunk n none i j = elim (Nat-cases (i / chunk_size) (j / chunk_size)) [
    | inl e ↦ inr (
        blank-set_chunk (replicate (chunk_count n) none) (i / chunk_size) j
          (chunk_len n (i / chunk_size)) e)
    | inr ne ↦ inr (
        cached-set_ne (replicate (chunk_count n) none) (i / chunk_size) j _ ne
        ∙ ap (λ o. in_chunk o (j % chunk_size))
            (get_or-replicate (chunk_count n) (j / chunk_size) none))
  ]
  cached-elt_chunk n (some chunks) i j = elim (Option-cases (get_or chunks (i / chunk_size) none)) [
    | inr found ↦ let (chunk, e) = found in rw (elt_chunk, e) (inl refl)
    | inl missing ↦
        rw (elt_chunk, missing)
          (elim (Nat-cases (i / chunk_size) (j / chunk_size)) [
            | inr ne ↦ inl (cached-set_ne chunks (i / chunk_size) j _ ne)
            | inl e ↦
                inr (blank-set_chunk chunks (i / chunk_size) j (chunk_len n (i / chunk_size)) e)
          ])
  ]

  -- The element that string_elt looks at.
  pub elt_chunk-cached :
      (n : ℕ) (cache : Cache Charsxp) (i : ℕ)
      → get_or (elt_chunk r blank is_blank n cache i).0 (i % chunk_size) blank ≡ cached cache i
  unfolding elt_chunk cached in_chunk
  elt_chunk-cached n none i = get_or-replicate (chunk_len n (i / chunk_size)) (i % chunk_size) blank
  elt_chunk-cached n (some chunks) i = elim (Option-cases (get_or chunks (i / chunk_size) none)) [
    | inr found ↦ let (chunk, e) = found in rw (elt_chunk, e) refl
    | inl missing ↦
        rw (elt_chunk, missing)
          (get_or-replicate (chunk_len n (i / chunk_size)) (i % chunk_size) blank)
  ]

  -- A vector that has its store: what the cache has of an element, unless it is blank, is R's string of
  -- the element of the store.
  pub record IsCoherent (m : Mem) (st : Store) (cache : Cache Charsxp) : Type 0 where
    pub agrees :
        (i : ℕ)
        → is_blank (cached cache i) ≡ false
        → charsxp_of_str (content m (row_at st i)) ≡ ok (cached cache i)

  module _ (blank_lem : is_blank blank ≡ true) where
    -- A cache of which each element is what it was, or blank, or the string of the store.
    pub IsCoherent-after :
        (m m' : Mem) (st st' : Store) (cache cache' : Cache Charsxp)
        → ((j : ℕ)
            → ((cached cache' j ≡ cached cache j)
                × (is_blank (cached cache j) ≡ false
                    → charsxp_of_str (content m' (row_at st' j)) ≡ ok (cached cache j)))
              ⊎ (cached cache' j ≡ blank)
              ⊎ (charsxp_of_str (content m' (row_at st' j)) ≡ ok (cached cache' j)))
        → IsCoherent m' st' cache'
    IsCoherent-after m m' st st' cache cache' step = record { agrees = λ j. at_index j (step j) }
      where
        clash : true ≡ false → ⊥
        clash e = ground (arith, e)

        at_index :
            (j : ℕ)
            → ((cached cache' j ≡ cached cache j)
                × (is_blank (cached cache j) ≡ false
                    → charsxp_of_str (content m' (row_at st' j)) ≡ ok (cached cache j)))
              ⊎ (cached cache' j ≡ blank)
              ⊎ (charsxp_of_str (content m' (row_at st' j)) ≡ ok (cached cache' j))
            → is_blank (cached cache' j) ≡ false
            → charsxp_of_str (content m' (row_at st' j)) ≡ ok (cached cache' j)
        at_index j (inl h) full = h.1 (sym (ap is_blank h.0) ∙ full) ∙ ap (λ x. ok x) (sym h.0)
        at_index j (inr (inl h)) full = absurd (clash (sym blank_lem ∙ sym (ap is_blank h) ∙ full))
        at_index j (inr (inr h)) full = h
