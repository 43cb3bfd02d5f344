-- ===== src/Charpack/Methods/Selection.antt =====
-- What the subscripts of a subset select, as R counts: from 1, a real towards 0, and NA where there is
-- no such element.
use charport.Prelude.{
  inr, inl, ℕ, List, if◌then◌else◌, ◌/◌, map, length, get_or, ltb, ◌^◌, [], ◌≤◌, ◌≡◌, Bool-cases,
  arith, true, ◌-◌, false, ◌∙◌, zero, refl, sym, ◌<◌, ◌⊎◌, ap, ◌&&◌, ◌+◌, leb, ◌*◌,
}
use charport.Charpack.Methods.{
  ◌∷◌, suc, Real, not_finite, finite, Subscript, ints, reals, other_subscript, selected_int,
  selected_real,
}
use native.Mathlib.Nat.{two-pow-succ}

-- The element counted from 1.
abbrev pub one_based {ℓ} : {A : Type ℓ} → A → List A → ℕ → A
one_based na xs zero = na
one_based na xs (suc k) = get_or xs k na

-- From 2 ^ 31 on an `int` is negative, or NA.
abbrev pub by_int {ℓ} : {A : Type ℓ} → A → List A → ℕ → A
by_int na xs k = if ltb k (2 ^ 31) then one_based na xs k else na

abbrev pub by_real {ℓ} : {A : Type ℓ} → A → List A → Real → A
by_real na xs not_finite = na
by_real na xs (finite true num scale) = na
by_real na xs (finite false num scale) = one_based na xs (num / 2 ^ scale)

abbrev pub by_subscript {ℓ} : {A : Type ℓ} → A → List A → Subscript → List A
by_subscript na xs (ints ks) = map (by_int na xs) ks
by_subscript na xs (reals ks) = map (by_real na xs) ks
by_subscript na xs other_subscript = []

pub get_or-beyond :
    {A : Type 0} (xs : List A) (k : ℕ) (na : A) → length xs ≤ k → get_or xs k na ≡ na
get_or-beyond [] k na h = refl
get_or-beyond (x ∷ xs) zero na h = absurd (omega arith)
get_or-beyond (x ∷ xs) (suc k) na h = get_or-beyond xs k na (omega arith)

selected_int-in : (n j : ℕ) → suc j ≤ n → suc j < 2 ^ 31 → selected_int n (suc j) ≡ j
unfolding selected_int
selected_int-in n j h small = ground arith

selected_int-out : (n k : ℕ) → (k ≡ 0) ⊎ (n < k) ⊎ (2 ^ 31 ≤ k) → selected_int n k ≡ n
unfolding selected_int
selected_int-out n k h = ground arith

pub get_or-selected_int :
    {A : Type 0} (na : A) (xs : List A) (k : ℕ)
    → get_or xs (selected_int (length xs) k) na ≡ by_int na xs k
get_or-selected_int na xs zero =
    ap (λ i. get_or xs i na) (selected_int-out (length xs) 0 (inl refl))
    ∙ get_or-beyond xs (length xs) na (omega arith)
get_or-selected_int na xs (suc j) = elim (Bool-cases (ltb (suc j) (2 ^ 31))) [
  | inr large ↦ rw large (
      ap (λ i. get_or xs i na)
        (selected_int-out (length xs) (suc j) (inr (inr (ground (arith, large)))))
      ∙ get_or-beyond xs (length xs) na (omega arith))
  | inl small ↦ rw small (elim (Bool-cases (ltb (length xs) (suc j))) [
    | inl past ↦
        ap (λ i. get_or xs i na)
          (selected_int-out (length xs) (suc j) (inr (inl (ground (arith, past)))))
        ∙ get_or-beyond xs (length xs) na (omega arith)
        ∙ sym (get_or-beyond xs j na (ground (arith, past)))
    | inr within ↦
        ap (λ i. get_or xs i na)
          (selected_int-in (length xs) j (ground (arith, within)) (ground (arith, small)))
  ])
]

two-pow_pos : (k : ℕ) → 0 < 2 ^ k
two-pow_pos zero = omega arith
two-pow_pos (suc k) = omega (arith, two-pow-succ k, two-pow_pos k)

quotient-lt : (d num k : ℕ) → 0 < d → num < k * d → num / d < k
quotient-lt d num k pos h = grind arith

quotient-ge : (d num k : ℕ) → 0 < d → k * d ≤ num → k ≤ num / d
quotient-ge d num k pos h = grind arith

ltb-quotient : (d num k : ℕ) → 0 < d → ltb num (k * d) ≡ ltb (num / d) k
ltb-quotient d num k pos = elim (Bool-cases (ltb num (k * d))) [
  | inl below ↦
      let e : num / d < k = quotient-lt d num k pos (ground (arith, below)) in
      below ∙ (let f : true ≡ ltb (num / d) k = ground arith in f)
  | inr past ↦
      let e : k ≤ num / d = quotient-ge d num k pos (ground (arith, past)) in
      past ∙ (let f : false ≡ ltb (num / d) k = ground arith in f)
]

selected_real-quotient :
    (n num scale : ℕ)
    → selected_real n (finite false num scale) ≡ (
        if ltb 0 (num / 2 ^ scale) && ltb (num / 2 ^ scale) (n + 1) then num / 2 ^ scale - 1 else n)
unfolding selected_real
selected_real-quotient n num scale =
    let pos = two-pow_pos scale in
    let lower : leb (2 ^ scale) num ≡ ltb 0 (num / 2 ^ scale) =
      let below : ltb num (1 * 2 ^ scale) ≡ ltb (num / 2 ^ scale) 1 =
        ltb-quotient (2 ^ scale) num 1 pos in
      ground (arith, below) in
    let upper : ltb num ((n + 1) * 2 ^ scale) ≡ ltb (num / 2 ^ scale) (n + 1) =
      ltb-quotient (2 ^ scale) num (n + 1) pos in
    rw (lower, upper) refl

by_row :
    {A : Type 0} (na : A) (xs : List A) (q : ℕ)
    → get_or xs (if ltb 0 q && ltb q (length xs + 1) then q - 1 else length xs) na
      ≡ one_based na xs q
by_row na xs zero = get_or-beyond xs (length xs) na (omega arith)
by_row na xs (suc k) =
    let some_row : ltb 0 (suc k) ≡ true = ground arith in
    elim (Bool-cases (ltb (suc k) (length xs + 1))) [
      | inl within ↦ rw (some_row, within) (ap (λ i. get_or xs i na) (omega arith))
      | inr past ↦
          rw (some_row, past)
            (get_or-beyond xs (length xs) na (omega arith)
              ∙ sym (get_or-beyond xs k na (ground (arith, past))))
    ]

pub get_or-selected_real :
    {A : Type 0} (na : A) (xs : List A) (k : Real)
    → get_or xs (selected_real (length xs) k) na ≡ by_real na xs k
get_or-selected_real na xs not_finite =
    unfold selected_real in get_or-beyond xs (length xs) na (omega arith)
get_or-selected_real na xs (finite true num scale) =
    unfold selected_real in get_or-beyond xs (length xs) na (omega arith)
get_or-selected_real na xs (finite false num scale) =
    ap (λ i. get_or xs i na) (selected_real-quotient (length xs) num scale)
    ∙ by_row na xs (num / 2 ^ scale)
