-- ===== src/Charpack/Methods/Strings.antt =====
-- The methods of a filled charpack answer as its records say.
use charport.Prelude.{
  ℕ, zero, suc, ◌<◌, ◌≡◌, ◌≢◌, ◌↔◌, refl, Bool, true, false, ◌&&◌, List, [], ◌∷◌, ◌++◌, length, All,
  arith, take, get_or, if◌then◌else◌, ltb, Result, collect, ok, ◌>>=◌, ◌∙◌, ap, >>=-eq-ok,
  ok-injective,
}
use charport.Charsxp.{RStrings}
use charport.Interop.{cetype_na}
use charport.Words.{Endian}
use charport.Charpack.Encode.{Rec, tags_of, payload_of, encode, Fits, parsed, parse-encode}
use charport.Charpack.Access.{rec_at}
use charport.Charpack.Fill.{filled, materialized}
use charport.Charpack.State.{has_byte}
use charport.Charpack.State.Trip.{charsxp_of, strings-encode}
use charport.Charpack.Methods.{elt, materialize, no_na}

get_or-collect :
    {C : Type 0} (f : Rec → Result C) (rs : List Rec) (xs : List C) (i : ℕ) (d : C)
    → i < length rs
    → collect f rs ≡ ok xs
    → f (rec_at rs i) ≡ ok (get_or xs i d)
get_or-collect f [] xs i d h made = absurd (omega arith)
get_or-collect {C = C} f (r ∷ rs) xs i d h made =
    let (y, one, rest) = >>=-eq-ok (f r) _ made in
    let (ys, more, e) = >>=-eq-ok (collect f rs) _ rest in
    by_index ys y one (λ k hk. get_or-collect f rs ys k d hk more) i h (ok-injective e)
  where
    by_index :
        (ys : List C) (y : C)
        → f r ≡ ok y
        → ((k : ℕ) → k < length rs → f (rec_at rs k) ≡ ok (get_or ys k d))
        → (i : ℕ) → i < length (r ∷ rs)
        → y ∷ ys ≡ xs
        → f (rec_at (r ∷ rs) i) ≡ ok (get_or xs i d)
    by_index ys y one more zero h e = one ∙ ap (λ t. ok (get_or t 0 d)) e
    by_index ys y one more (suc i) h e = more i (omega arith) ∙ ap (λ t. ok (get_or t (suc i) d)) e

-- Reading an element of a filled charpack makes R's strings of all its records, or raises the error of
-- the first that R refuses to make; it gives the one at the index, and leaves the vector materialized
-- with all of them.
pub elt-encode :
    (r : RStrings) (host : Endian) (utf8 wide : Bool) (rs : List Rec) (i : ℕ)
    → Fits wide rs
    → i < length rs
    → (elt r host utf8 (filled (encode host wide rs)) i
        ≡ (collect (charsxp_of r) rs >>= λ xs. ok (get_or xs i r.na_string, materialized xs)))
      × ((xs : List r.Charsxp)
          → collect (charsxp_of r) rs ≡ ok xs
          → charsxp_of r (rec_at rs i) ≡ ok (get_or xs i r.na_string))
unfolding elt materialize
elt-encode r host utf8 wide rs i fits h = (
  rw (strings-encode host wide rs fits r utf8) refl,
  λ xs made. get_or-collect (charsxp_of r) rs xs i r.na_string h made,
)

has_byte_iff :
    (b : ℕ) (rs : List Rec) (more : List ℕ)
    → (has_byte b (take (length rs) (tags_of rs ++ more)) ≡ false) ↔ All (λ q. q.tag ≢ b) rs
unfolding has_byte
has_byte_iff b [] more = ground arith
has_byte_iff b (r ∷ rs) more = ground (arith, has_byte_iff b rs more)

no_na_test :
    (rs : List Rec) (more : List ℕ)
    → ◌≡◌ {A = ℕ}
        (if ltb 0 (length rs) && has_byte cetype_na (take (length rs) (tags_of rs ++ more))
          then 0
          else 1)
        1
      ↔ All (λ q. q.tag ≢ cetype_na) rs
no_na_test [] more = ground arith
no_na_test (r ∷ rs) more =
    let some_left : ltb 0 (suc (length rs)) ≡ true = ground arith in
    rw some_left (ground (arith, has_byte_iff cetype_na (r ∷ rs) more))

-- No_NA of a filled charpack answers 1 exactly when no record is NA.
pub no_na_iff :
    (r : RStrings) (host : Endian) (utf8 wide : Bool) (rs : List Rec)
    → Fits wide rs
    → (no_na r host utf8 (filled (encode host wide rs)) ≡ 1) ↔ All (λ q. q.tag ≢ cetype_na) rs
unfolding no_na
no_na_iff r host utf8 wide rs fits =
    rw (parse-encode host wide rs fits) (unfold parsed in no_na_test rs (payload_of rs))
