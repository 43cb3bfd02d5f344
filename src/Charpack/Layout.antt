-- ===== src/Charpack/Layout.antt =====
-- src/charpack_altrep.h, namespace charpack_layout: [u64 head][end offset x n][tag x n][bytes].
-- A raw vector is the list of its bytes, and a pointer into it is the list from there on.
use charport.Prelude.{
  ℕ, ◌+◌, ◌-◌, ◌*◌, ◌/◌, ◌%◌, ◌^◌, Bool, List, take, drop, ltb, leb, ◌==◌, if◌then◌else◌,
}
use charport.Sizes.{u32_max}
use charport.Words.{Endian, to_bytes, of_bytes}

abbrev pub header_bytes : ℕ
header_bytes = 8

abbrev pub wide_bit : ℕ
wide_bit = 2 ^ 63

abbrev pub offset_bytes : Bool → ℕ
offset_bytes wide = if wide then 8 else 4

unfoldable pub needs_wide : ℕ → Bool
needs_wide payload = ltb u32_max payload

-- `max` is R_XLEN_T_MAX.
unfoldable pub total_bytes : ℕ → ℕ → ℕ → Bool → ℕ
total_bytes max n payload wide =
    let per_record = offset_bytes wide + 1 in
    if ltb ((max - header_bytes) / per_record) n
    then 0
    else let meta = header_bytes + n * per_record in
      if ltb (max - meta) payload then 0 else meta + payload

-- `bytes_at` is the place of `bytes` in the raw vector.
pub record View : Type 0 where
  pub n : ℕ
  pub wide : Bool
  pub ends : List ℕ
  pub tags : List ℕ
  pub bytes : List ℕ
  pub bytes_at : ℕ

-- `head & wide_bit` and `head & ~wide_bit` of a 64-bit word.
abbrev pub head_wide : ℕ → Bool
head_wide head = leb wide_bit head

abbrev pub head_n : ℕ → ℕ
head_n head = head % wide_bit

unfoldable pub view_of_head : ℕ → List ℕ → View
view_of_head head raw =
    let w = head_wide head in
    let n = head_n head in
    let ends = drop header_bytes raw in
    let tags = drop (offset_bytes w * n) ends in
    record {
      n = n;
      wide = w;
      ends = ends;
      tags = tags;
      bytes = drop n tags;
      bytes_at = header_bytes + offset_bytes w * n + n;
    }

unfoldable pub parse : Endian → List ℕ → View
unfolding view_of_head
parse host raw = view_of_head (of_bytes host (take 8 raw)) raw

-- end_of<Offset> for an offset of `width` bytes.
unfoldable pub end_of : Endian → ℕ → List ℕ → ℕ → ℕ
end_of host width ends i = of_bytes host (take width (drop (width * i) ends))

unfoldable pub end_at : Endian → View → ℕ → ℕ
unfolding end_of
end_at host v i = end_of host (offset_bytes v.wide) v.ends i

unfoldable pub payload : Endian → View → ℕ
unfolding end_at
payload host v = if v.n == 0 then 0 else end_at host v (v.n - 1)

-- charpack_layout::length
unfoldable pub layout_length : Endian → List ℕ → ℕ
unfolding parse
layout_length host raw = (parse host raw).n

-- The bytes that write_head puts at the front; `n` is below 2 ^ 63, so that `|` is `+`.
unfoldable pub write_head : Endian → ℕ → Bool → List ℕ
write_head host n wide = to_bytes host 8 (n + (if wide then wide_bit else 0))

-- The bytes that write_end puts at an end offset's place.
unfoldable pub write_end : Endian → Bool → ℕ → List ℕ
write_end host wide end = if wide then to_bytes host 8 end else to_bytes host 4 (end % 2 ^ 32)
