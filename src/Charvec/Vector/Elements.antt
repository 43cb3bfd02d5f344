-- ===== src/Charvec/Vector/Elements.antt =====
-- Elt and Set_elt through the cache give the strings of the store and change them.
use charport.Interop.{strview_is_na}
use charport.Charvec.Assign.Correct.{store_assign-Updated}
use charport.Charvec.Assign.{store_assign}
use charport.Charvec.Assign.Owned.{row_at, IsOwned, IsValue, Updated}
use charport.Interop.Views.{content, Str}
use charport.Charvec.Fill.Whole.{strings_of}
use charport.Charvec.Vector.Coherence.{
  charsxp_of_str, IsCoherent, IsCoherent-after, Nat-cases, cached-cache_put_ne, cached,
  make_charsxp-content, cached-cache_put_self,
}
use charport.Charvec.Store.{Store, Allocator, na_record}
use charport.Charvec.Vector.{suc, ◌∷◌, live, string_set_elt, Cache, Charvec, cache_put}
use charport.Memory.{Mem}
use charport.Prelude.{
  inr, inl, Bool, ◌≡◌, true, ℕ, ◌≢◌, ok, length, ◌∙◌, >>=-eq-ok, ap, sym, get_or, ok-injective,
  false, ◌⊎◌, refl, List, map, ◌<◌, none, arith, length-map, get_or-set_self, get_or-set_ne, [],
  zero, Result,
}
use charport.Charsxp.{RStrings, charsxp_to_view, make_charsxp}
use mathlib.Core.Path.{subst}

get_or-map_default :
    {A B : Type 0} (f : A → B) (xs : List A) (k : ℕ) (d : A)
    → get_or (map f xs) k (f d) ≡ f (get_or xs k d)
get_or-map_default f [] k d = refl
get_or-map_default f (x ∷ xs) zero d = refl
get_or-map_default f (x ∷ xs) (suc k) d = get_or-map_default f xs k d

content-row_at :
    (m : Mem) (st : Store) (i : ℕ) → get_or (strings_of m st) i none ≡ content m (row_at st i)
unfolding content strview_is_na
content-row_at m st i = get_or-map_default (content m) st.records.rows i na_record

module _ (r : RStrings) (blank : r.Charsxp) (is_blank : r.Charsxp → Bool)
    (blank_lem : is_blank blank ≡ true) where
  open r use {Charsxp}

  -- The abstract element.
  abbrev elt_of : Mem → Store → ℕ → Result Charsxp
  elt_of m st i = charsxp_of_str r blank is_blank (content m (row_at st i))

  IsCoherent-cache_put :
      (m m' : Mem) (st st' : Store) (cache : Cache Charsxp) (i : ℕ) (x : Charsxp)
      → elt_of m' st' i ≡ ok x
      → ((j : ℕ) → i ≢ j → content m' (row_at st' j) ≡ content m (row_at st j))
      → IsCoherent r blank is_blank m st cache
      → IsCoherent r blank is_blank m' st' (cache_put r blank is_blank cache i x)
  IsCoherent-cache_put m m' st st' cache i x own same co =
      IsCoherent-after r blank is_blank blank_lem m m' st st' cache
        (cache_put r blank is_blank cache i x)
        (λ j. elim (Nat-cases i j) [
          | inr ne ↦ inl (
            cached-cache_put_ne r blank is_blank cache i j x ne,
            λ full. ap (charsxp_of_str r blank is_blank) (same j ne) ∙ co.agrees j full,
          )
          | inl e ↦
              subst
                (λ k.
                  ((cached r blank is_blank (cache_put r blank is_blank cache i x) k
                      ≡ cached r blank is_blank cache k)
                    × (is_blank (cached r blank is_blank cache k) ≡ false
                        → elt_of m' st' k ≡ ok (cached r blank is_blank cache k)))
                  ⊎ (cached r blank is_blank (cache_put r blank is_blank cache i x) k ≡ blank)
                  ⊎ (elt_of m' st' k
                      ≡ ok (cached r blank is_blank (cache_put r blank is_blank cache i x) k)))
                e
                (elim (cached-cache_put_self r blank is_blank cache i x) [
                  | inl there ↦ inr (inr (own ∙ ap (λ y. ok y) (sym there)))
                  | inr gone ↦ inr (inl gone)
                ])
        ])

  -- Set_elt of a vector that has its store, whose rows share no byte, where the cache agrees with it and
  -- R gives the same string back for a string's view: where it succeeds, the store's list of strings is
  -- updated at the index, its rows still share no byte, and the cache still agrees with it.
  pub string_set_elt-IsCoherent :
      (al : Allocator) (m m' : Mem) (st : Store) (cache : Cache Charsxp) (i : ℕ) (x : Charsxp)
      (x' : Charvec Charsxp)
      → IsOwned m st
      → IsCoherent r blank is_blank m st cache
      → IsValue m (charsxp_to_view r x)
      → make_charsxp r m (charsxp_to_view r x) ≡ ok x
      → string_set_elt r blank is_blank al m (live st cache) i x ≡ ok (m', x')
      → (st' : Store) × (cache' : Cache Charsxp) × (x' ≡ live st' cache')
        × Updated m m' st st' i (content m (charsxp_to_view r x))
        × IsCoherent r blank is_blank m' st' cache'
  unfolding string_set_elt
  string_set_elt-IsCoherent al m m' st cache i x x' owned co value back h =
      let (q, assigned, h1) = >>=-eq-ok (store_assign al m st i (charsxp_to_view r x)) _ h in
      let (hi, up) =
        store_assign-Updated al m q.0 st q.1 i (charsxp_to_view r x) owned value assigned in
      let cache' = cache_put r blank is_blank cache i x in
      let c : Str = content m (charsxp_to_view r x) in
      let counted : i < length (strings_of m st) =
        omega (arith, length-map (content m) st.records.rows) in
      let own : elt_of q.0 q.1 i ≡ ok x =
        sym (
          ap (charsxp_of_str r blank is_blank) (
            sym (get_or-set_self (strings_of m st) i c none counted)
            ∙ sym (ap (λ cs. get_or cs i none) up.strings)
            ∙ content-row_at q.0 q.1 i))
        ∙ sym (make_charsxp-content r blank is_blank m (charsxp_to_view r x) value.given)
        ∙ back in
      let same : (j : ℕ) → i ≢ j → content q.0 (row_at q.1 j) ≡ content m (row_at st j) = λ j ne.
        sym (content-row_at q.0 q.1 j)
        ∙ ap (λ cs. get_or cs j none) up.strings
        ∙ get_or-set_ne (strings_of m st) c none ne
        ∙ content-row_at m st j in
      subst
        (λ (p : Mem × Charvec Charsxp).
          (st' : Store) × (cache' : Cache Charsxp) × (p.1 ≡ live st' cache')
          × Updated m p.0 st st' i (content m (charsxp_to_view r x))
          × IsCoherent r blank is_blank p.0 st' cache')
        (ok-injective h1)
        (q.1, cache', refl, up, IsCoherent-cache_put m q.0 st q.1 cache i x own same co)
