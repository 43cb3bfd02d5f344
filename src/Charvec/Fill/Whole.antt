-- ===== src/Charvec/Fill/Whole.antt =====
-- A store built from given strings holds them.
use charport.Charvec.Fill.Loops.{set_views-Advances, set_from, set_from-append}
use charport.Charvec.Builder.Contents.{contents, IsBuilder, new_builder-contents}
use charport.Charvec.Builder.{fresh_shard, set_view}
use charport.Interop.Views.{Str, content}
use charport.Charsxp.{RStrings, view_is_na, charsxp_to_view}
use charport.Charvec.Builder.Shards.{Settled}
use charport.Prelude.{
  inr, inl, ◌<◌, ℕ, List, length, map, All, some, ◌≡◌, replicate, none, >>=-eq-ok, Bool-cases,
  require-eq_ok, ap, ◌∙◌, ok-injective, not, sym, length-map, negative_length, [], refl, >>=-eq,
  ◌+◌,
}
use charport.Interop.{StrView, strview_is_na, xlen_is_negative}
use charport.Charvec.Fill.{
  ◌∷◌, ok, store_from_chars, fill_given, from_views, released, set_views, check_views,
}
use charport.Charvec.Store.{Allocator, Store, new_store, new_table}
use charport.Charvec.Builder.Serial.{
  new_builder, release_store, Builder, finish_store, set_strview, checked_vector_size,
}
use charport.Memory.{Mem}
use mathlib.Core.Path.{subst}
use charport.Charvec.Builder.Serial as Serial

-- The strings of a store.
abbrev pub strings_of : Mem → Store → List Str
strings_of m st = map (content m) st.records.rows

-- A view whose bytes lie in memory that was allocated before.
abbrev pub Given : Mem → StrView → Type 0
Given m v = Settled m fresh_shard v

new_builder-eq_ok :
    (al : Allocator) (m : Mem) (n : ℕ) {q : Mem × Builder}
    → new_builder al m n ≡ ok q
    → (m ≡ q.0) × (fresh_shard ≡ q.1.shard)
unfolding new_builder new_store
new_builder-eq_ok al m n {q} h =
    let (size, counted, h1) = >>=-eq-ok (checked_vector_size n) _ h in
    let (made, stored, h2) = >>=-eq-ok (new_store al m size 0) _ h1 in
    let (t, table, h3) = >>=-eq-ok (new_table al size) _ stored in
    let e : (made.0, record { store = made.1; shard = fresh_shard }) ≡ q = ok-injective h2 in
    (
      ap (λ (x : Mem × Store). x.0) (ok-injective h3) ∙ ap (λ (x : Mem × Builder). x.0) e,
      ap (λ (x : Mem × Builder). x.1.shard) e,
    )

-- A loop that starts on a new builder, where the views given are settled.
pub record Started (m m' : Mem) (b : Builder) (vs : List StrView) (n : ℕ) : Type 0 where
  pub whole : IsBuilder m' b
  pub strings : contents m' b ≡ replicate n none
  pub settled : All (Settled m' b.shard) vs
  pub same : map (content m') vs ≡ map (content m) vs

pub new_builder-Started :
    (al : Allocator) (m : Mem) (n : ℕ) (vs : List StrView) {q : Mem × Builder}
    → 0 < m.next
    → All (Given m) vs
    → new_builder al m n ≡ ok q
    → Started m q.0 q.1 vs n
new_builder-Started al m n vs {q} low given h =
    let (em, es) = new_builder-eq_ok al m n h in
    let (whole, strings) = new_builder-contents al m q.0 q.1 n low h in
    record {
      whole = whole;
      strings = strings;
      settled =
          subst (λ m'. All (Settled m' q.1.shard) vs) em
            (subst (λ s. All (Settled m s) vs) es given);
      same = ap (λ m'. map (content m') vs) (sym em);
    }

pub set_views-whole :
    (al : Allocator) (m m1 m' : Mem) (b b' : Builder) (vs : List StrView)
    → Started m m1 b vs (length vs)
    → set_views al m1 b 0 vs ≡ ok (m', b')
    → strings_of m' (release_store b').0 ≡ map (content m) vs
unfolding release_store finish_store
set_views-whole al m m1 m' b b' vs st h =
    let done = set_views-Advances al m1 m' b b' 0 vs st.whole st.settled h in
    done.strings
    ∙ ap (λ cs. set_from 0 cs (contents m1 b)) st.same
    ∙ ap (set_from 0 (map (content m) vs))
        (st.strings ∙ ap (λ n. replicate n none) (sym (length-map (content m) vs)))
    ∙ set_from-append [] (map (content m) vs)

-- A store built from R's strings, where it is built, holds those strings in their order.
pub store_from_chars-strings :
    (r : RStrings) (al : Allocator) (m m' : Mem) (xs : List r.Charsxp) (st : Store)
    → 0 < m.next
    → All (Given m) (map (charsxp_to_view r) xs)
    → store_from_chars r al m xs ≡ ok (m', st)
    → strings_of m' st ≡ map (content m) (map (charsxp_to_view r) xs)
unfolding store_from_chars released
store_from_chars-strings r al m m' xs st low given h =
    let (q, made, h1) = >>=-eq-ok (new_builder al m (length xs)) _ h in
    let (done, filled, h2) = >>=-eq-ok (set_views al q.0 q.1 0 (map (charsxp_to_view r) xs)) _ h1 in
    let start = new_builder-Started al m (length xs) (map (charsxp_to_view r) xs) low given made in
    subst (λ (p : Mem × Store). strings_of p.0 p.1 ≡ map (content m) (map (charsxp_to_view r) xs))
      (ok-injective h2)
      (set_views-whole al m q.0 done.0 q.1 done.1 (map (charsxp_to_view r) xs)
        (subst (Started m q.0 q.1 (map (charsxp_to_view r) xs))
          (sym (length-map (charsxp_to_view r) xs)) start)
        filled)

fill_given-eq_set_views :
    (al : Allocator) (m : Mem) (b : Builder) (i : ℕ) (vs : List StrView)
    → fill_given al m b i vs ≡ set_views al m b i vs
unfolding fill_given set_views Serial.set set_strview set_view view_is_na strview_is_na
fill_given-eq_set_views al m b i [] = refl
fill_given-eq_set_views al m b i (v ∷ vs) = elim (Bool-cases (view_is_na v.ptr v.len v.enc)) [
  | inl na ↦ rw na (>>=-eq _ _ _ (λ q. fill_given-eq_set_views al q.0 q.1 (i + 1) vs))
  | inr known ↦ rw known (>>=-eq _ _ _ (λ q. fill_given-eq_set_views al q.0 q.1 (i + 1) vs))
]

-- A store built from the views of a caller holds the strings that they stand for.
pub from_views-strings :
    (al : Allocator) (m m' : Mem) (vs : List StrView) (st : Store)
    → 0 < m.next
    → All (Given m) vs
    → from_views al m (length vs) (some vs) ≡ ok (m', st)
    → strings_of m' st ≡ map (content m) vs
unfolding from_views released
from_views-strings al m m' vs st low given h =
    let (counted, h0) = require-eq_ok (not (xlen_is_negative (length vs))) negative_length _ h in
    let (checked, fine, h1) = >>=-eq-ok (check_views vs) _ h0 in
    let (q, made, h2) = >>=-eq-ok (new_builder al m (length vs)) _ h1 in
    let (done, filled, h3) = >>=-eq-ok (fill_given al q.0 q.1 0 vs) _ h2 in
    subst (λ (p : Mem × Store). strings_of p.0 p.1 ≡ map (content m) vs) (ok-injective h3)
      (set_views-whole al m q.0 done.0 q.1 done.1 vs
        (new_builder-Started al m (length vs) vs low given made)
        (sym (fill_given-eq_set_views al q.0 q.1 0 vs) ∙ filled))
