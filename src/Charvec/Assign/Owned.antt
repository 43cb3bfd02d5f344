-- ===== src/Charvec/Assign/Owned.antt =====
-- Assigning a record is the update of the store's list of strings, in place or not.
use charport.Charvec.Builder.Records.{content_of_stored}
use charport.Charvec.Assign.{with_row}
use charport.Charvec.Builder.Storing.{content-eq, read-cell}
use charport.Memory.Laws.{read_zero, read-write_ne, next-write, read-write_self}
use charport.Charvec.Builder.Shards.{SettledAt}
use charport.Interop.Views.{Str, content, length-read_ptr}
use charport.Charvec.Fill.Whole.{Given, strings_of}
use charport.Prelude.{
  inr, inl, ◌∷◌, List, ℕ, ◌<◌, get_or, ◌≡◌, ◌≢◌, length, set, ◌≤◌, map, ◌⊎◌, arith, ◌+◌, suc, [],
  refl, zero, Bool-cases, ◌==◌, get_or-set_self, sym, ◌∙◌, get_or-set_ne, false, ◌^◌, some, leb,
}
use charport.Charvec.Store.{Store, set_row, SliceChain, na_record, table_size, Allocator}
use charport.Interop.{StrView, make_strview, strview_is_na, cetype_na}
use charport.Memory.{at, Ptr, Mem, null, write, read, is_null}
use mathlib.Core.Path.{subst, ap₂}

-- Two rows of which no byte is shared.
abbrev pub ApartAt : Ptr → ℕ → Ptr → ℕ → Type 0
ApartAt null n q k = Unit {0}
ApartAt (at b o) n null k = Unit {0}
ApartAt (at b o) n (at c q) k = (n ≡ 0) ⊎ (k ≡ 0) ⊎ (b ≢ c) ⊎ (o + n ≤ q) ⊎ (q + k ≤ o)

abbrev pub Apart : StrView → StrView → Type 0
Apart v w = ApartAt v.ptr v.len w.ptr w.len

abbrev pub row_at : Store → ℕ → StrView
row_at st i = get_or st.records.rows i na_record

-- The rows of a store lie in memory that was allocated, each in bytes of its own.
pub record IsOwned (m : Mem) (st : Store) : Type 0 where
  pub low : 0 < m.next
  pub given : (i : ℕ) → Given m (row_at st i)
  pub apart : (i j : ℕ) → i ≢ j → Apart (row_at st i) (row_at st j)

Apart-sym : (v w : StrView) → Apart v w → Apart w v
Apart-sym v w h = by_ptr v.ptr w.ptr h
  where
    by_ptr : (p q : Ptr) → ApartAt p v.len q w.len → ApartAt q w.len p v.len
    by_ptr null null h = tt
    by_ptr null (at c q) h = tt
    by_ptr (at b o) null h = tt
    by_ptr (at b o) (at c q) h = ground arith

-- A list changed at one index, where the function changes nothing elsewhere.
map-set_at :
    {A B : Type 0} (f' f : A → B) (xs : List A) (i : ℕ) (v d : A) (c : B)
    → f' v ≡ c
    → ((j : ℕ) → i ≢ j → j < length xs → f' (get_or xs j d) ≡ f (get_or xs j d))
    → map f' (set xs i v) ≡ set (map f xs) i c
map-set_at f' f [] i v d c own same = refl
map-set_at f' f (x ∷ xs) zero v d c own same =
    ap₂ (λ y ys. y ∷ ys) own (map-same xs (λ j h. same (suc j) (λ e. omega arith) (omega arith)))
  where
    map-same :
        (ys : List _)
        → ((j : ℕ) → j < length ys → f' (get_or ys j d) ≡ f (get_or ys j d))
        → map f' ys ≡ map f ys
    map-same [] h = refl
    map-same (y ∷ ys) h =
        ap₂ (λ z zs. z ∷ zs) (h 0 (omega arith)) (map-same ys (λ j k. h (suc j) (omega arith)))
map-set_at f' f (x ∷ xs) (suc i) v d c own same =
    ap₂ (λ y ys. y ∷ ys) (same 0 (λ e. omega arith) (omega arith))
      (map-set_at f' f xs i v d c own
        (λ j ne h. same (suc j) (λ e. ne (omega arith)) (omega arith)))

-- The row at `j` after the row at `i` was set.
abbrev pub AtRow : List StrView → ℕ → ℕ → StrView → Type 0
AtRow rows i j v =
    ((i ≡ j) × (get_or (set rows i v) j na_record ≡ v))
    ⊎ ((i ≢ j) × (get_or (set rows i v) j na_record ≡ get_or rows j na_record))

pub row_set : (rows : List StrView) (i j : ℕ) (v : StrView) → i < length rows → AtRow rows i j v
row_set rows i j v hi = elim (Bool-cases (i == j)) [
  | inl same ↦
      let e : i ≡ j = ground arith in
      inl (
        e,
        subst (λ k. get_or (set rows i v) k na_record ≡ v) e
            (get_or-set_self rows i v na_record hi),
      )
  | inr other ↦ let ne : i ≢ j = ground arith in inr (ne, get_or-set_ne rows v na_record ne)
]

-- What a step on one row leaves.
pub record Updated (m m' : Mem) (st st' : Store) (i : ℕ) (c : Str) : Type 0 where
  pub owned : IsOwned m' st'
  pub strings : strings_of m' st' ≡ set (strings_of m st) i c

pub Given-grown : (m m' : Mem) (w : StrView) → m.next ≤ m'.next → Given m w → Given m' w
Given-grown m m' w grown h = by_ptr w.ptr h
  where
    by_ptr : (p : Ptr) → SettledAt m.next 0 0 p w.len → SettledAt m'.next 0 0 p w.len
    by_ptr null h = tt
    by_ptr (at b o) (lo, short, apart) = (omega arith, short, apart)

-- A row that is replaced where the others keep their strings.
pub replaced :
    (m m' : Mem) (st : Store) (slices : SliceChain) (i : ℕ) (v : StrView) (c : Str)
    → IsOwned m st
    → i < table_size st.records
    → m.next ≤ m'.next
    → Given m' v
    → content m' v ≡ c
    → ((j : ℕ) → i ≢ j → Apart v (row_at st j))
    → ((j : ℕ) → i ≢ j → content m' (row_at st j) ≡ content m (row_at st j))
    → Updated m m' st (record { slices = slices; records = set_row st.records i v }) i c
unfolding set_row
replaced m m' st slices i v c owned hi grown given string apart same = record {
  owned = record {
    low = omega (arith, owned.low);
    given = λ j. given_at j (row_set st.records.rows i j v hi);
    apart = λ j k jk.
        apart_at j k jk (row_set st.records.rows i j v hi) (row_set st.records.rows i k v hi);
  };
  strings =
      map-set_at (content m') (content m) st.records.rows i v na_record c string
        (λ j ne h. same j ne);
}
  where
    given_at :
        (j : ℕ)
        → AtRow st.records.rows i j v
        → Given m' (get_or (set st.records.rows i v) j na_record)
    given_at j (inl h) = subst (Given m') (sym h.1) given
    given_at j (inr h) =
        subst (Given m') (sym h.1) (Given-grown m m' (row_at st j) grown (owned.given j))

    apart_at :
        (j k : ℕ)
        → j ≢ k
        → AtRow st.records.rows i j v
        → AtRow st.records.rows i k v
        → Apart
            (get_or (set st.records.rows i v) j na_record)
            (get_or (set st.records.rows i v) k na_record)
    apart_at j k jk (inl g) (inl h) = absurd (jk (sym g.0 ∙ h.0))
    apart_at j k jk (inl g) (inr h) =
        subst (λ w. Apart w (get_or (set st.records.rows i v) k na_record)) (sym g.1)
          (subst (Apart v) (sym h.1) (apart k h.0))
    apart_at j k jk (inr g) (inl h) =
        subst (Apart (get_or (set st.records.rows i v) j na_record)) (sym h.1)
          (subst (λ w. Apart w v) (sym g.1) (Apart-sym v (row_at st j) (apart j g.0)))
    apart_at j k jk (inr g) (inr h) =
        subst (λ w. Apart w (get_or (set st.records.rows i v) k na_record)) (sym g.1)
          (subst (Apart (row_at st j)) (sym h.1) (owned.apart j k jk))

-- A write to bytes that a row does not share leaves its string.
content-write_ne :
    (m : Mem) (v w : StrView) (xs : List ℕ)
    → Given m w
    → Apart v w
    → length xs ≤ v.len
    → content (write m v.ptr xs) w ≡ content m w
content-write_ne m v w xs given apart fits =
    content-eq m (write m v.ptr xs) m.next 0 0 w given (by_ptr v.ptr w.ptr apart)
  where
    by_ptr : (p q : Ptr) → ApartAt p v.len q w.len → read (write m p xs) q w.len ≡ read m q w.len
    by_ptr null q h = unfold write in refl
    by_ptr (at b o) null h = unfold read in refl
    by_ptr (at b o) (at c q) h = elim (Bool-cases (w.len == 0)) [
      | inl empty ↦
          let z : 0 ≡ w.len = ground arith in
          subst (λ n. read (write m (at b o) xs) (at c q) n ≡ read m (at c q) n) z
            (read_zero (write m (at b o) xs) (at c q) ∙ sym (read_zero m (at c q)))
      | inr some_bytes ↦ elim (Bool-cases (length xs == 0)) [
        | inl nothing ↦ no_bytes xs (ground arith)
        | inr something ↦ read-write_ne m b o xs c q w.len (ground arith)
      ]
    ]
      where
        no_bytes :
            (ys : List ℕ)
            → length ys ≡ 0
            → read (write m (at b o) ys) (at c q) w.len ≡ read m (at c q) w.len
        no_bytes [] e = unfold write in refl
        no_bytes (y ∷ ys) e = absurd (omega arith)

-- A row in place of one that is at least as long.
shorter :
    (m : Mem) (v : StrView) (n enc : ℕ)
    → n ≤ v.len
    → Given m v
    → Given m (make_strview v.ptr n enc)
      × ((w : StrView) → Apart v w → Apart (make_strview v.ptr n enc) w)
shorter m v n enc le given = (given_at v.ptr given, λ w h. apart_at v.ptr w.ptr w.len h)
  where
    given_at : (p : Ptr) → SettledAt m.next 0 0 p v.len → SettledAt m.next 0 0 p n
    given_at null h = tt
    given_at (at b o) h = ground arith

    apart_at : (p q : Ptr) (k : ℕ) → ApartAt p v.len q k → ApartAt p n q k
    apart_at null q k h = tt
    apart_at (at b o) null k h = tt
    apart_at (at b o) (at c q) k h = ground arith

-- A block that no row has.
Apart-fresh :
    (m : Mem) (n enc : ℕ) (w : StrView) → Given m w → Apart (make_strview (at m.next 0) n enc) w
Apart-fresh m n enc w h = by_ptr w.ptr h
  where
    by_ptr : (q : Ptr) → SettledAt m.next 0 0 q w.len → ApartAt (at m.next 0) n q w.len
    by_ptr null h = tt
    by_ptr (at c q) h = ground arith

-- A view as R's strings give it: one that is NA says so, any other is of memory that was allocated.
pub record IsValue (m : Mem) (v : StrView) : Type 0 where
  pub given : Given m v
  pub tagged : strview_is_na v ≡ (v.enc == cetype_na)

IsValue-there :
    (m : Mem) (v : StrView) → IsValue m v → (v.enc == cetype_na) ≡ false → is_null v.ptr ≡ false
unfolding strview_is_na
IsValue-there m v value known = ground (arith, value.tagged)

pub IsValue-short :
    (m : Mem) (v : StrView) → IsValue m v → (v.enc == cetype_na) ≡ false → v.len < 2 ^ 31
IsValue-short m v value known = by_ptr v.ptr value.given (IsValue-there m v value known)
  where
    by_ptr : (p : Ptr) → SettledAt m.next 0 0 p v.len → is_null p ≡ false → v.len < 2 ^ 31
    by_ptr null h e = cc
    by_ptr (at b o) h e = h.1

module _ (al : Allocator) (m : Mem) (st : Store) (i : ℕ) (v : StrView) (owned : IsOwned m st)
    (hi : i < table_size st.records) (value : IsValue m v)
    (known : (v.enc == cetype_na) ≡ false) where
  there : is_null v.ptr ≡ false
  there = IsValue-there m v value known

  short : v.len < 2 ^ 31
  short = IsValue-short m v value known

  pub string : content m v ≡ some (read m v.ptr v.len, v.enc)
  unfolding content
  string =
      let not_na : strview_is_na v ≡ false = value.tagged ∙ known in
      let nonneg : leb (2 ^ 31) v.len ≡ false = ground (arith, short) in rw (not_na, nonneg) refl

  bytes_length : length (read m v.ptr v.len) ≡ v.len
  bytes_length = length-read_ptr m v.ptr v.len there

  stored_content :
      (m1 : Mem) (p : Ptr)
      → is_null p ≡ false
      → content (write m1 p (read m v.ptr v.len)) (make_strview p v.len v.enc) ≡ content m v
  stored_content m1 null e = cc
  stored_content m1 (at b o) e =
      subst
        (λ n.
          content (write m1 (at b o) (read m v.ptr v.len)) (make_strview (at b o) n v.enc)
          ≡ content m v)
        bytes_length
        (content_of_stored (write m1 (at b o) (read m v.ptr v.len)) (at b o) v.enc
            (read m v.ptr v.len) refl (omega (arith, bytes_length, short)) known
            (read-write_self m1 b o (read m v.ptr v.len))
          ∙ sym string)

  pub in_place :
      0 < v.len
      → strview_is_na (row_at st i) ≡ false
      → v.len ≤ (row_at st i).len
      → Updated m
          (write m (row_at st i).ptr (read m v.ptr v.len))
          st
          (with_row st i (make_strview (row_at st i).ptr v.len v.enc))
          i
          (content m v)
  in_place pos held le =
      let m' = write m (row_at st i).ptr (read m v.ptr v.len) in
      let (given, apart) = shorter m (row_at st i) v.len v.enc le (owned.given i) in
      let next : m'.next ≡ m.next = next-write m (row_at st i).ptr (read m v.ptr v.len) in
      replaced m m' st st.slices i (make_strview (row_at st i).ptr v.len v.enc) (content m v) owned
        hi (omega (arith, next))
        (Given-grown m m' (make_strview (row_at st i).ptr v.len v.enc) (omega (arith, next)) given)
        (stored_content m (row_at st i).ptr (unfold strview_is_na in ground (arith, held)))
        (λ j ne. apart (row_at st j) (owned.apart i j ne))
        (λ j ne.
          content-write_ne m (row_at st i) (row_at st j) (read m v.ptr v.len) (owned.given j)
            (owned.apart i j ne) (omega (arith, bytes_length)))

  -- In a block of its own, at `m.next`.
  pub in_new_block :
      Updated m
        (write (record m { next = m.next + 1 }) (at m.next 0) (read m v.ptr v.len))
        st
        (record {
          slices = record { block = m.next; size = v.len } ∷ st.slices;
          records = set_row st.records i (make_strview (at m.next 0) v.len v.enc);
        })
        i
        (content m v)
  in_new_block =
      let m1 : Mem = record m { next = m.next + 1 } in
      let m' = write m1 (at m.next 0) (read m v.ptr v.len) in
      let next : m'.next ≡ m.next + 1 = next-write m1 (at m.next 0) (read m v.ptr v.len) in
      replaced m m' st (record { block = m.next; size = v.len } ∷ st.slices) i
        (make_strview (at m.next 0) v.len v.enc) (content m v) owned hi (omega (arith, next))
        (omega (arith, next), short, inl (λ e. omega (arith, owned.low)))
        (stored_content m1 (at m.next 0) refl)
        (λ j ne. Apart-fresh m v.len v.enc (row_at st j) (owned.given j))
        (λ j ne.
          content-write_ne m1 (make_strview (at m.next 0) v.len v.enc) (row_at st j)
            (read m v.ptr v.len) (Given-grown m m1 (row_at st j) (omega arith) (owned.given j))
            (Apart-fresh m v.len v.enc (row_at st j) (owned.given j)) (omega (arith, bytes_length))
          ∙ content-eq m m1 m.next 0 0 (row_at st j) (owned.given j)
              (read-cell m m1 (row_at st j).ptr (row_at st j).len refl))
