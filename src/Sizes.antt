-- ===== src/Sizes.antt =====
-- inst/include/charport/charvec/detail.h: sizes, their checks, and the ASCII test.
-- A `size_t` is a number below 2 ^ 64.
pub mod Rounding
pub mod Checked
use charport.Prelude.{
  ℕ, zero, suc, ◌+◌, ◌-◌, ◌*◌, ◌/◌, ◌%◌, ◌^◌, Bool, true, false, ◌&&◌, ◌||◌, not, List, [], ◌∷◌,
  ltb, leb, ◌==◌, if◌then◌else◌, Result, ok, err, Error, size_overflow,
}

abbrev pub size_max : ℕ
size_max = 2 ^ 64 - 1

abbrev pub u32_max : ℕ
u32_max = 2 ^ 32 - 1

-- std::numeric_limits<int>::max()
abbrev pub r_string_size_max : ℕ
r_string_size_max = 2 ^ 31 - 1

-- check_ascii without AVX2, on the bytes `ptr[0 .. len)`.
unfoldable pub check_ascii : List ℕ → Bool
check_ascii [] = true
check_ascii (b ∷ bs) = if ltb 127 b then false else check_ascii bs

-- The overload for unsigned types.
unfoldable pub check_r_string_len : ℕ → Bool
check_r_string_len value = leb value r_string_size_max

-- The overload for `int`, by its pattern.
unfoldable pub check_r_string_len_int : ℕ → Bool
check_r_string_len_int value = not (leb (2 ^ 31) value) && leb value r_string_size_max

unfoldable pub checked_u32 : ℕ → Result ℕ
checked_u32 size = if ltb u32_max size then err Error.length_too_big else ok size

unfoldable pub checked_add_size : ℕ → ℕ → Result ℕ
checked_add_size lhs rhs = if ltb (size_max - rhs) lhs then err size_overflow else ok (lhs + rhs)

unfoldable pub checked_mul_size : ℕ → ℕ → Result ℕ
checked_mul_size lhs rhs =
    if not (lhs == 0) && ltb (size_max / lhs) rhs then err size_overflow else ok (lhs * rhs)

-- `size_t` addition wraps.
unfoldable pub round_up : ℕ → ℕ → ℕ
round_up value multiple =
    if value == 0 || multiple == 0
    then value
    else let rem = value % multiple in
      if rem == 0 then value else (value + (multiple - rem)) % 2 ^ 64

-- `while(out < value && out <= (max >> 1)) out <<= 1;` on fuel: `out` doubles and stays below 2 ^ 64,
-- so 64 rounds are enough.
unfoldable pub next_power_loop : ℕ → ℕ → ℕ → ℕ
next_power_loop zero value out = out
next_power_loop (suc fuel) value out =
    let rest = next_power_loop fuel value (out * 2 % 2 ^ 64) in
    if ltb out value && leb out (size_max / 2) then rest else out

unfoldable pub next_power_of_two : ℕ → ℕ
unfolding next_power_loop
next_power_of_two value =
    if leb value 1
    then 1
    else let out = next_power_loop 64 value 1 in if ltb out value then value else out
