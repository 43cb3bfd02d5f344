-- ===== src/Sizes/Rounding.antt =====
-- `round_up` and `next_power_of_two`.
use charport.Prelude.{
  ℕ, zero, suc, ◌+◌, ◌-◌, ◌*◌, ◌/◌, ◌%◌, ◌^◌, ◌≤◌, ◌<◌, ◌≡◌, inl, inr, refl, ap, ◌∙◌, arith, ltb,
  leb, true, Bool-cases,
}
use native.Mathlib.Nat.{mod-lt, pow-suc, pow-le-pow_right}
use native.Mathlib.Decide.{dec_lt}
use charport.Sizes.{round_up, next_power_loop, next_power_of_two, size_max}

add_gap_mod : (v m : ℕ) → 0 < m → (v + (m - v % m)) % m ≡ 0
add_gap_mod v m h = grind arith

-- Where the result is a `size_t`, `round_up` gives the least multiple at or above the value.
pub round_up_lem :
    (value multiple : ℕ)
    → 0 < multiple
    → value + multiple ≤ 2 ^ 64
    → (value ≤ round_up value multiple)
      × (round_up value multiple < value + multiple)
      × (round_up value multiple % multiple ≡ 0)
unfolding round_up
round_up_lem value multiple h fits =
    ground (arith, add_gap_mod value multiple, mod-lt value {m = multiple} h)

-- A power of two at or above the value, and below its double.
abbrev pub IsPowerFor : ℕ → ℕ → Type 0
IsPowerFor value r = (j : ℕ) × (r ≡ 2 ^ j) × (value ≤ r) × (r < 2 * value)

next_power_loop_lem :
    (fuel value out k : ℕ)
    → out ≡ 2 ^ k
    → k + fuel ≡ 64
    → out < 2 * value
    → value ≤ 2 ^ 63
    → IsPowerFor value (next_power_loop fuel value out)
unfolding next_power_loop
next_power_loop_lem zero value out k e hk lo hi = absurd (omega (arith, full))
  where
    full : out ≡ 2 ^ 64
    full = let k64 : k ≡ 64 = omega arith in e ∙ ap (λ t. 2 ^ t) k64
next_power_loop_lem (suc fuel) value out k e hk lo hi = elim (Bool-cases (ltb out value)) [
  | inl more ↦
      let doubled : out * 2 % 2 ^ 64 ≡ 2 ^ suc k = ground (arith, pow-suc 2 k) in
      let shorter : out * 2 % 2 ^ 64 < 2 * value = ground arith in
      let small : leb out (size_max / 2) ≡ true = ground arith in
      let step =
        next_power_loop_lem fuel value (out * 2 % 2 ^ 64) (suc k) doubled (omega arith) shorter
          hi in
      rw (more, small) step
  | inr done ↦ rw done (k, e, ground arith, lo)
]

-- Above 2 ^ 63 the loop stops below the value.
next_power_loop-le :
    (fuel value out k : ℕ)
    → out ≡ 2 ^ k
    → k ≤ 63
    → 2 ^ 63 < value
    → next_power_loop fuel value out ≤ 2 ^ 63
unfolding next_power_loop
next_power_loop-le zero value out k e hk hi = rw e (pow-le-pow_right {n = 2} (omega arith) hk)
next_power_loop-le (suc fuel) value out k e hk hi = elim (Bool-cases (leb out (size_max / 2))) [
  | inl more ↦
      let below : k ≤ 62 = elim (dec_lt k 63) [
        | yes p ↦ omega arith
        | no p ↦
            absurd (ground (arith, e ∙ ap (λ t. 2 ^ t) (let k63 : k ≡ 63 = omega arith in k63)))
      ] in
      let doubled : out * 2 % 2 ^ 64 ≡ 2 ^ suc k = ground (arith, pow-suc 2 k) in
      let step =
        next_power_loop-le fuel value (out * 2 % 2 ^ 64) (suc k) doubled (omega arith) hi in
      ground (arith, step)
  | inr done ↦
      let top : out ≤ 2 ^ 63 = rw e (pow-le-pow_right {n = 2} (omega arith) hk) in ground arith
]

-- For a value from 2 up to 2 ^ 63 `next_power_of_two` gives the power of two at or above the value
-- that is below its double; 0 and 1 give 1, and above 2 ^ 63 the value comes back.
pub next_power_of_two_lem :
    (value : ℕ)
    → (value ≤ 1 → next_power_of_two value ≡ 1)
      × (1 < value → value ≤ 2 ^ 63 → IsPowerFor value (next_power_of_two value))
      × (2 ^ 63 < value → next_power_of_two value ≡ value)
unfolding next_power_of_two
next_power_of_two_lem value =
    ground (arith, next_power_loop_lem 64 value 1 0 refl refl, next_power_loop-le 64 value 1 0 refl)

-- From 1 up to 2 ^ 63 `next_power_of_two` gives a power of two at or above the value that is below
-- its double: the least one.
pub next_power_of_two-IsPowerFor :
    (value : ℕ) → 1 ≤ value → value ≤ 2 ^ 63 → IsPowerFor value (next_power_of_two value)
next_power_of_two-IsPowerFor value lo hi = elim (dec_lt 1 value) [
  | yes p ↦ (next_power_of_two_lem value).1 p hi
  | no p ↦
      let small : value ≤ 1 = omega arith in
      rw ((next_power_of_two_lem value).0 small) (0, refl, omega arith, omega arith)
]
