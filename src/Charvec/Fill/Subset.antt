-- ===== src/Charvec/Fill/Subset.antt =====
-- A subset of a store holds the strings that were selected.
use charport.Charpack.Methods.Selection.{by_subscript, get_or-selected_int, get_or-selected_real}
use charport.Charvec.Fill.Loops.{set_strview-Advances, kept_views}
use charport.Charvec.Fill.Whole.{Given, strings_of, new_builder-Started}
use charport.Charpack.Methods.{reals, ints, Subscript, other_subscript}
use charport.Charvec.Builder.Shards.{Settled}
use charport.Charvec.Builder.Contents.{IsBuilder, contents}
use charport.Interop.{StrView, strview_is_na}
use charport.Charvec.Store.{Allocator, Store, na_record}
use charport.Interop.Views.{content, Str}
use charport.Charvec.Builder.Serial.{Builder, release_store, finish_store, new_builder}
use charport.Charvec.Fill.{copy_element, copy_elements, subset_store, released, subset_rows}
use charport.Memory.{Mem}
use charport.Prelude.{
  inr, inl, List, ℕ, ◌<◌, length, get_or, ◌≤◌, All, map, ◌≡◌, arith, suc, ok, ◌++◌, replicate, none,
  ◌∷◌, ok-injective, [], >>=-eq-ok, not, ◌+◌, ltb, length-append, ◌||◌, ◌∙◌, append_assoc, zero,
  refl, true, Bool-cases, ap, sym, length-map, set, set-append,
}
use mathlib.Core.Path.{subst, ap₂}

get_or-map :
    {A B : Type 0} (f : A → B) (xs : List A) (k : ℕ) (d : A) (e : B)
    → k < length xs
    → get_or (map f xs) k e ≡ f (get_or xs k d)
get_or-map f [] k d e h = absurd (omega arith)
get_or-map f (x ∷ xs) zero d e h = refl
get_or-map f (x ∷ xs) (suc k) d e h = get_or-map f xs k d e (omega arith)

get_or-out : {A : Type 0} (xs : List A) (k : ℕ) (e : A) → length xs ≤ k → get_or xs k e ≡ e
get_or-out [] k e h = refl
get_or-out (x ∷ xs) zero e h = absurd (omega arith)
get_or-out (x ∷ xs) (suc k) e h = get_or-out xs k e (omega arith)

All-get_or :
    {A : Type 0} (P : A → Type 0) (xs : List A) (k : ℕ) (d : A)
    → k < length xs
    → All P xs
    → P (get_or xs k d)
All-get_or P [] k d h all = absurd (omega arith)
All-get_or P (x ∷ xs) zero d h (p, all) = p
All-get_or P (x ∷ xs) (suc k) d h (p, all) = All-get_or P xs k d (omega arith) all

-- A builder that is filled with `done` up to where `rest` NAs follow, beside a source whose rows it
-- leaves alone.
record Half (m : Mem) (b : Builder) (rows : List StrView) (old done : List Str) (rest : ℕ)
    : Type 0 where
  pub whole : IsBuilder m b
  pub settled : All (Settled m b.shard) rows
  pub source : map (content m) rows ≡ old
  pub strings : contents m b ≡ done ++ replicate rest none

copy_element-Half :
    (al : Allocator) (m m' : Mem) (b b' : Builder) (rows : List StrView) (old done : List Str)
    (rest k : ℕ)
    → Half m b rows old done (suc rest)
    → copy_element al m b rows (length done) k ≡ ok (m', b')
    → Half m' b' rows old (done ++ (get_or old k none ∷ [])) rest
unfolding copy_element content
copy_element-Half al m m' b b' rows old done rest k half h =
    elim (Bool-cases (not (ltb k (length rows)) || strview_is_na (get_or rows k na_record))) [
      | inl skip ↦
          subst
            (λ (q : Mem × Builder). Half q.0 q.1 rows old (done ++ (get_or old k none ∷ [])) rest)
            (ok-injective (rw (copy_element, skip) at h))
            (record {
              whole = half.whole;
              settled = half.settled;
              source = half.source;
              strings =
                  half.strings
                  ∙ sym (append_assoc done (none ∷ []) (replicate rest none))
                  ∙ ap (λ c. (done ++ (c ∷ [])) ++ replicate rest none) (sym (skipped skip));
            })
      | inr there ↦
          let st =
            set_strview-Advances al m m' b b' (length done) (get_or rows k na_record) half.whole
              (rw (copy_element, there) at h) in
          let (still, same) = kept_views m m' b.shard b'.shard rows st.kept half.settled in
          let within : k < length rows = ground (arith, there) in
          record {
            whole = st.whole;
            settled = still;
            source = same ∙ half.source;
            strings =
                st.strings
                ∙ ap (λ cs. set cs (length done) (content m (get_or rows k na_record))) half.strings
                ∙ set-append done (replicate rest none) none (content m (get_or rows k na_record))
                ∙ sym (
                    append_assoc done (content m (get_or rows k na_record) ∷ [])
                      (replicate rest none))
                ∙ ap (λ c. (done ++ (c ∷ [])) ++ replicate rest none)
                    (sym (get_or-map (content m) rows k na_record none within)
                      ∙ ap (λ cs. get_or cs k none) half.source);
          }
    ]
  where
    na_content : (v : StrView) → strview_is_na v ≡ true → content m v ≡ none
    na_content v na = rw na refl

    skipped :
        (not (ltb k (length rows)) || strview_is_na (get_or rows k na_record)) ≡ true
        → get_or old k none ≡ none
    skipped skip = elim (Bool-cases (ltb k (length rows))) [
      | inl within ↦
          ap (λ cs. get_or cs k none) (sym half.source)
          ∙ get_or-map (content m) rows k na_record none (ground arith)
          ∙ na_content (get_or rows k na_record) (ground (arith, skip, within))
      | inr out ↦
          let past : length rows ≤ k = ground (arith, out) in
          ap (λ cs. get_or cs k none) (sym half.source)
          ∙ get_or-out (map (content m) rows) k none
              (omega (arith, past, length-map (content m) rows))
    ]

copy_elements-strings :
    (al : Allocator) (m m' : Mem) (b b' : Builder) (rows : List StrView) (old done : List Str)
    (ks : List ℕ)
    → Half m b rows old done (length ks)
    → copy_elements al m b rows (length done) ks ≡ ok (m', b')
    → contents m' b' ≡ done ++ map (λ k. get_or old k none) ks
unfolding copy_elements
copy_elements-strings al m m' b b' rows old done [] half h =
    subst (λ (q : Mem × Builder). contents q.0 q.1 ≡ done ++ []) (ok-injective h) half.strings
copy_elements-strings al m m' b b' rows old done (k ∷ ks) half h =
    let (q, one, h1) = >>=-eq-ok (copy_element al m b rows (length done) k) _ h in
    let next = copy_element-Half al m q.0 b q.1 rows old done (length ks) k half one in
    let at_next : length done + 1 ≡ length (done ++ (get_or old k none ∷ [])) =
      omega (arith, length-append done (get_or old k none ∷ [])) in
    copy_elements-strings al q.0 m' q.1 b' rows old (done ++ (get_or old k none ∷ [])) ks next
      (subst (λ n. copy_elements al q.0 q.1 rows n ks ≡ ok (m', b')) at_next h1)
    ∙ append_assoc done (get_or old k none ∷ []) (map (λ k. get_or old k none) ks)

map-selected :
    {A B C : Type 0} (f : B → C) (g : A → B) (h : A → C) (ks : List A)
    → ((k : A) → f (g k) ≡ h k)
    → map f (map g ks) ≡ map h ks
map-selected f g h [] same = refl
map-selected f g h (k ∷ ks) same = ap₂ (λ x xs. x ∷ xs) (same k) (map-selected f g h ks same)

selected-by_subscript :
    (m : Mem) (source : Store) (indx : Subscript)
    → map (λ k. get_or (strings_of m source) k none) (subset_rows (length source.records.rows) indx)
      ≡ by_subscript none (strings_of m source) indx
unfolding subset_rows
selected-by_subscript m source indx =
    let counted : length (strings_of m source) ≡ length source.records.rows =
      length-map (content m) source.records.rows in
    subst
      (λ n.
        map (λ k. get_or (strings_of m source) k none) (subset_rows n indx)
        ≡ by_subscript none (strings_of m source) indx)
      counted (by_kind indx)
  where
    by_kind :
        (indx : Subscript)
        → map
            (λ k. get_or (strings_of m source) k none)
            (subset_rows (length (strings_of m source)) indx)
          ≡ by_subscript none (strings_of m source) indx
    by_kind (ints ks) = map-selected _ _ _ ks (get_or-selected_int none (strings_of m source))
    by_kind (reals ks) = map-selected _ _ _ ks (get_or-selected_real none (strings_of m source))
    by_kind other_subscript = refl

-- A subset of a store, where it is built, holds the strings that the subscripts select as R counts, in
-- their order: from 1, a real towards 0, and NA where there is no such element.
pub subset_store-strings :
    (al : Allocator) (m m' : Mem) (source st : Store) (indx : Subscript)
    → 0 < m.next
    → All (Given m) source.records.rows
    → subset_store al m source indx ≡ ok (m', st)
    → strings_of m' st ≡ by_subscript none (strings_of m source) indx
unfolding subset_store released release_store finish_store
subset_store-strings al m m' source st indx low given h =
    let ks = subset_rows (length source.records.rows) indx in
    let (q, made, h1) = >>=-eq-ok (new_builder al m (length ks)) _ h in
    let (done, filled, h2) = >>=-eq-ok (copy_elements al q.0 q.1 source.records.rows 0 ks) _ h1 in
    let start = new_builder-Started al m (length ks) source.records.rows low given made in
    subst
      (λ (p : Mem × Store). strings_of p.0 p.1 ≡ map (λ k. get_or (strings_of m source) k none) ks)
      (ok-injective h2)
      (copy_elements-strings al q.0 done.0 q.1 done.1 source.records.rows (strings_of m source) []
        ks
        (record {
          whole = start.whole;
          settled = start.settled;
          source = start.same;
          strings = start.strings;
        })
        filled)
    ∙ selected-by_subscript m source indx
