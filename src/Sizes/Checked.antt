-- ===== src/Sizes/Checked.antt =====
-- The checked operations give the exact sum or product, or the overflow error, and the ASCII test.
use charport.Prelude.{
  ℕ, ◌+◌, ◌*◌, ◌/◌, ◌≤◌, ◌<◌, ◌≡◌, ◌≢◌, ◌↔◌, List, [], ◌∷◌, All, true, arith, ok, err,
  size_overflow, leb, if◌then◌else◌,
}
use charport.Sizes.{check_ascii, checked_add_size, checked_mul_size, size_max}

-- On two `size_t`s `checked_add_size` returns the true sum exactly when that is a `size_t`, and
-- otherwise raises the overflow error.
pub checked_add_size_lem :
    (a b : ℕ)
    → a ≤ size_max
    → b ≤ size_max
    → checked_add_size a b ≡ (if leb (a + b) size_max then ok (a + b) else err size_overflow)
unfolding checked_add_size
checked_add_size_lem a b ha hb = ground arith

div_lt_of_lt_mul : (n a b : ℕ) → a ≢ 0 → n < a * b → n / a < b
div_lt_of_lt_mul n a b ha h = grind arith

lt_mul_of_div_lt : (n a b : ℕ) → a ≢ 0 → n / a < b → n < a * b
lt_mul_of_div_lt n a b ha h = grind arith

-- On two numbers `checked_mul_size` returns the true product exactly when that is a `size_t`, and
-- otherwise raises the overflow error.
pub checked_mul_size_lem :
    (a b : ℕ)
    → checked_mul_size a b ≡ (if leb (a * b) size_max then ok (a * b) else err size_overflow)
unfolding checked_mul_size
checked_mul_size_lem a b =
    ground (arith, div_lt_of_lt_mul size_max a b, lt_mul_of_div_lt size_max a b)

-- `check_ascii` answers true exactly when every byte is at most 127.
pub check_ascii_iff : (bs : List ℕ) → (check_ascii bs ≡ true) ↔ All (λ b. b ≤ 127) bs
unfolding check_ascii
check_ascii_iff [] = ground arith
check_ascii_iff (b ∷ bs) = ground (arith, check_ascii_iff bs)
