-- ===== src/Words.antt =====
-- src/charvec_altrep.h: words in byte buffers, on a host of either byte order.
-- memcpy between a word and a buffer is `to_bytes` and `of_bytes` of the host.
pub mod Laws
use charport.Prelude.{
  ℕ, zero, suc, ◌+◌, ◌*◌, ◌/◌, ◌%◌, ◌^◌, Bool, true, false, List, [], ◌∷◌, ◌++◌, take,
  if◌then◌else◌,
}
use mathlib.Core.List.{reverse}

-- Byte orders of a host, and of a serialized state.
pub data Endian : Type 0 where
  little big : Endian

unfoldable pub le_bytes : ℕ → ℕ → List ℕ
le_bytes zero x = []
le_bytes (suc k) x = x % 256 ∷ le_bytes k (x / 256)

unfoldable pub le_value : List ℕ → ℕ
le_value [] = 0
le_value (b ∷ bs) = b + 256 * le_value bs

-- The `k` bytes of a word in memory.
unfoldable pub to_bytes : Endian → ℕ → ℕ → List ℕ
to_bytes little k x = le_bytes k x
to_bytes big k x = reverse (le_bytes k x)

unfoldable pub of_bytes : Endian → List ℕ → ℕ
of_bytes little bs = le_value bs
of_bytes big bs = le_value (reverse bs)

-- `x & (0xff << k)`
abbrev mask_at : ℕ → ℕ → ℕ
mask_at x k = x / 2 ^ k % 256 * 2 ^ k

-- The masks pick disjoint bytes, so that `|` is `+`.
unfoldable pub bswap32 : ℕ → ℕ
bswap32 x =
    mask_at x 0 * 2 ^ 24 + mask_at x 8 * 2 ^ 8 + mask_at x 16 / 2 ^ 8 + mask_at x 24 / 2 ^ 24

unfoldable pub bswap64 : ℕ → ℕ
bswap64 x =
    mask_at x 0 * 2 ^ 56
    + mask_at x 8 * 2 ^ 40
    + mask_at x 16 * 2 ^ 24
    + mask_at x 24 * 2 ^ 8
    + mask_at x 32 / 2 ^ 8
    + mask_at x 40 / 2 ^ 24
    + mask_at x 48 / 2 ^ 40
    + mask_at x 56 / 2 ^ 56

-- charvec_host_is_little_endian, which looks at the first byte of a `uint16_t` 1 in memory.
unfoldable pub host_is_little_endian : Endian → Bool
unfolding to_bytes le_bytes
host_is_little_endian host = elim (to_bytes host 2 1) [ [] ↦ false | b ∷ bs ↦ is_one b ]
  where
    is_one : ℕ → Bool
    is_one zero = false
    is_one (suc zero) = true
    is_one (suc (suc n)) = false

-- charvec_native_endian_flag
unfoldable pub native_endian_flag : Endian → ℕ
unfolding host_is_little_endian
native_endian_flag host = if host_is_little_endian host then 1 else 2

-- charvec_read_u64 of the bytes from a pointer on.
unfoldable pub read_u64 : Endian → List ℕ → Bool → ℕ
read_u64 host p swap = let out = of_bytes host (take 8 p) in if swap then bswap64 out else out

-- The word that charvec_read_u32_advance reads; its caller moves on by 4 bytes.
unfoldable pub read_u32 : Endian → List ℕ → Bool → ℕ
read_u32 host p swap = let out = of_bytes host (take 4 p) in if swap then bswap32 out else out

-- The bytes that charvec_write_u64_le and charvec_write_u32_le put at a pointer.
unfoldable pub write_u64_le : Endian → ℕ → List ℕ
write_u64_le host x = to_bytes host 8 (if host_is_little_endian host then x else bswap64 x)

unfoldable pub write_u32_le : Endian → ℕ → List ℕ
write_u32_le host x = to_bytes host 4 (if host_is_little_endian host then x else bswap32 x)
