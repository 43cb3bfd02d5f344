-- ===== src/Tests/States.antt =====
-- Three strings sent through a state, from a little-endian host to a big-endian one.
use charport.Charvec.State.Trip.{unserialize-encoded}
use charport.Charvec.State.Reading.{restored, converts}
use charport.Charvec.Fill.Whole.{strings_of}
use charport.Sizes.{checked_add_size, checked_mul_size}
use charport.Memory.Laws.{Holds, read-write_self, next-write}
use charport.Charvec.State.Writing.{
  is_na_row, is_text_row, StateFits, IsRow, as_text, unserialize-state_bytes,
}
use charport.Tests.Data.{test_strings, three_views, text, r_xlen_max, three, three-IsRec}
use charport.Charsxp.{valid_view_encoding}
use charport.Memory.{store_byte, Mem, read, write, at}
use charport.Prelude.{List, [], ℕ, All, ◌<◌, false, ◌≡◌, arith, ok, true, refl, map, not}
use charport.Charvec.Store.{Store}
use charport.Charvec.State.{
  serialized_state, unserialize, stored_vector, state_bytes, any_native, payload_size,
  serialized_length,
}
use charport.Charpack.State.{raw_state}
use charport.Words.{little, big}
use charport.Charvec.State.Encoded.{cpv2, encoded}
use charport.Tests.Stores.{allocator-Serves}
use charport.Tests.Builders.{allocator}

abbrev three_rows : Store
three_rows = record { slices = []; records = record { rows = three_views; capacity = 3 } }

-- Block 2 holds the bytes that arrive.
abbrev arrived : List ℕ → Mem
arrived bytes = write text (at 2 0) bytes

arrived_low : (bytes : List ℕ) → 2 < (arrived bytes).next
unfolding store_byte
arrived_low bytes = omega (arith, next-write text (at 2 0) bytes, low)
  where
    low : text.next ≡ 3
    low = unfold write store_byte in refl

arrived-Holds : (bytes : List ℕ) → Holds (arrived bytes) 2 bytes
arrived-Holds bytes = read-write_self text 2 0 bytes

unserialize-encoded_example :
    (q : Mem × Store) × (unserialize test_strings big false r_xlen_max allocator
        (arrived (encoded cpv2 little three))
        2
        (raw_state (encoded cpv2 little three))
      ≡ ok (q.0, stored_vector q.1))
    × (strings_of q.0 q.1 ≡ map (restored (converts cpv2 false)) three)
unserialize-encoded_example =
    unserialize-encoded test_strings big false r_xlen_max allocator cpv2 little three
      (arrived (encoded cpv2 little three)) 2 (omega arith) (omega arith) three-IsRec
      allocator-Serves (omega arith) (arrived_low (encoded cpv2 little three))
      (arrived-Holds (encoded cpv2 little three))

abbrev sent_bytes : List ℕ
sent_bytes = state_bytes little text three_views

three_sent :
    serialized_state test_strings little true r_xlen_max text three_rows ≡ ok (raw_state sent_bytes)
unfolding serialized_state any_native payload_size serialized_length checked_add_size
    checked_mul_size
three_sent = refl

three_IsRow : All IsRow three_views
unfolding valid_view_encoding
three_IsRow = (
  is_text_row refl (omega arith) refl refl,
  (is_na_row refl, (is_text_row refl (omega arith) refl refl, tt)),
)

three_fit : StateFits r_xlen_max text three_rows
unfolding read
three_fit = omega arith

unserialize-state_bytes_example :
    (q : Mem × Store) × (unserialize test_strings big false r_xlen_max allocator
        (arrived sent_bytes)
        2
        (raw_state sent_bytes)
      ≡ ok (q.0, stored_vector q.1))
    × (strings_of q.0 q.1 ≡ map (as_text (not false)) (strings_of text three_rows))
unserialize-state_bytes_example =
    unserialize-state_bytes test_strings little big true false r_xlen_max allocator text
      (arrived sent_bytes) three_rows sent_bytes 2 (omega arith) three_fit three_IsRow three_sent
      allocator-Serves (omega arith) (arrived_low sent_bytes) (arrived-Holds sent_bytes)
