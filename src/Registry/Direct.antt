-- ===== src/Registry/Direct.antt =====
-- src/charport_registry.cpp: the Reader callbacks over R's own string storage.
-- The state is the array of CHARSXPs; output arrays are the lists of what is written to them.
use charport.Prelude.{
  ◌∙◌, ℕ, zero, suc, ◌+◌, ◌≤◌, ◌≡◌, refl, ap, List, [], ◌∷◌, length, map, take, drop, get_or,
  drop-get_or, ◌∙◌, if◌then◌else◌, arith,
}
use charport.Memory.{null}
use charport.Interop.{StrView, ByteView, make_strview, make_byteview, na_integer, cetype_na}
use charport.Charsxp.{RStrings, charsxp_to_view, classify_charsxp}
use native.Mathlib.Numerals.{add-one}

module _ (r : RStrings) where
  open r use {Charsxp, na_string, is_na_string, chars, char_length}

  unfoldable pub direct_fill_strview : Charsxp → StrView
  direct_fill_strview cs =
      if is_na_string cs
      then make_strview null na_integer cetype_na
      else make_strview (chars cs) (char_length cs) (classify_charsxp r cs)

  unfoldable pub direct_fill_byteview : Charsxp → ByteView
  direct_fill_byteview cs =
      if is_na_string cs
      then make_byteview null na_integer
      else make_byteview (chars cs) (char_length cs)

  unfoldable pub direct_fill_length : Charsxp → ℕ
  direct_fill_length cs = if is_na_string cs then na_integer else char_length cs

  unfoldable pub direct_fill_encoding : Charsxp → ℕ
  direct_fill_encoding cs = if is_na_string cs then cetype_na else classify_charsxp r cs

  -- The loop over a range: entry `i` is start + j.
  unfoldable pub direct_range {ℓ} : {A : Type ℓ} → (Charsxp → A) → List Charsxp → ℕ → ℕ → List A
  direct_range fill ptr i zero = []
  direct_range fill ptr i (suc left) =
      fill (get_or ptr i na_string) ∷ direct_range fill ptr (i + 1) left

  unfoldable pub direct_index {ℓ} : {A : Type ℓ} → (Charsxp → A) → List Charsxp → List ℕ → List A
  direct_index fill ptr [] = []
  direct_index fill ptr (i ∷ is) = fill (get_or ptr i na_string) ∷ direct_index fill ptr is

  unfoldable pub direct_strviews_range : List Charsxp → ℕ → ℕ → List StrView
  direct_strviews_range ptr start size = direct_range direct_fill_strview ptr start size

  unfoldable pub direct_strviews_index : List Charsxp → List ℕ → List StrView
  direct_strviews_index ptr indices = direct_index direct_fill_strview ptr indices

  unfoldable pub direct_byteviews_range : List Charsxp → ℕ → ℕ → List ByteView
  direct_byteviews_range ptr start size = direct_range direct_fill_byteview ptr start size

  unfoldable pub direct_byteviews_index : List Charsxp → List ℕ → List ByteView
  direct_byteviews_index ptr indices = direct_index direct_fill_byteview ptr indices

  unfoldable pub direct_lengths_range : List Charsxp → ℕ → ℕ → List ℕ
  direct_lengths_range ptr start size = direct_range direct_fill_length ptr start size

  unfoldable pub direct_lengths_index : List Charsxp → List ℕ → List ℕ
  direct_lengths_index ptr indices = direct_index direct_fill_length ptr indices

  unfoldable pub direct_encodings_range : List Charsxp → ℕ → ℕ → List ℕ
  direct_encodings_range ptr start size = direct_range direct_fill_encoding ptr start size

  unfoldable pub direct_encodings_index : List Charsxp → List ℕ → List ℕ
  direct_encodings_index ptr indices = direct_index direct_fill_encoding ptr indices

  direct_range-take {ℓ} :
      {A : Type ℓ} (fill : Charsxp → A) (xs : List Charsxp) (start size : ℕ)
      → start + size ≤ length xs
      → direct_range fill xs start size ≡ map fill (take size (drop start xs))
  unfolding direct_range
  direct_range-take fill xs start zero h = refl
  direct_range-take fill xs start (suc size) h =
      rw (add-one, drop-get_or xs start na_string (omega arith))
        (ap (λ t. fill (get_or xs start na_string) ∷ t)
          (direct_range-take fill xs (suc start) size (omega arith)))

  -- A range of R's storage is read as the views that R's own strings convert to, in order.
  pub direct_strviews_range-map :
      (xs : List Charsxp) (start size : ℕ)
      → start + size ≤ length xs
      → direct_strviews_range xs start size ≡ map (charsxp_to_view r) (take size (drop start xs))
  unfolding direct_strviews_range
  direct_strviews_range-map xs start size h =
      direct_range-take direct_fill_strview xs start size h
      ∙ unfold direct_fill_strview charsxp_to_view in refl

  direct_index-map {ℓ} :
      {A : Type ℓ} (fill : Charsxp → A) (xs : List Charsxp) (is : List ℕ)
      → direct_index fill xs is ≡ map (λ i. fill (get_or xs i na_string)) is
  unfolding direct_index
  direct_index-map fill xs [] = refl
  direct_index-map fill xs (i ∷ is) =
      ap (λ t. fill (get_or xs i na_string) ∷ t) (direct_index-map fill xs is)

  -- Entries of R's storage are read as the views that R's own strings convert to, in the order of the
  -- indices.
  pub direct_strviews_index-map :
      (xs : List Charsxp) (is : List ℕ)
      → direct_strviews_index xs is ≡ map (λ i. charsxp_to_view r (get_or xs i na_string)) is
  unfolding direct_strviews_index
  direct_strviews_index-map xs is =
      direct_index-map direct_fill_strview xs is
      ∙ unfold direct_fill_strview charsxp_to_view in refl
