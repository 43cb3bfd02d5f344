-- ===== src/Tests/Data.antt =====
-- A vector of three strings: "hi" in UTF-8, NA, and "a" in ASCII, as records and as views into a
-- memory whose block 1 holds their bytes and block 2 the encoded vector.
use charport.Charpack.State.{has_byte}
use charport.Prelude.{
  ◌^◌, ℕ, refl, true, false, List, [], ◌∷◌, All, arith, Option, some, none, length, if◌then◌else◌,
  err, embedded_nul, ok, ◌-◌, Bool,
}
use charport.Memory.{Mem, Ptr, null, at, write}
use charport.Interop.{StrView, make_strview, cetype_utf8, cetype_ascii, cetype_na, na_integer}
use charport.Charsxp.{valid_view_encoding, RStrings, Cetype, ce_native}
use charport.Sizes.{check_ascii}
use charport.Words.{little}
use charport.Charpack.Encode.{Rec, Fits, encode}
use charport.Charpack.Fill.Encodes.{IsRec}

abbrev pub hi : Rec
hi = record { bytes = 104 ∷ 105 ∷ []; tag = cetype_utf8 }

abbrev pub na : Rec
na = record { bytes = []; tag = cetype_na }

abbrev pub a : Rec
a = record { bytes = 97 ∷ []; tag = cetype_ascii }

abbrev pub three : List Rec
three = hi ∷ na ∷ a ∷ []

pub three-Fits : Fits false three
three-Fits = (omega arith, omega arith)

hi-IsRec : IsRec hi
unfolding valid_view_encoding
hi-IsRec = record { valid = refl; short = omega arith; na_empty = λ e. ground arith }

na-IsRec : IsRec na
unfolding valid_view_encoding
na-IsRec = record { valid = refl; short = omega arith; na_empty = λ e. refl }

a-IsRec : IsRec a
unfolding valid_view_encoding
a-IsRec = record { valid = refl; short = omega arith; na_empty = λ e. ground arith }

pub three-IsRec : All IsRec three
three-IsRec = (hi-IsRec, (na-IsRec, (a-IsRec, tt)))

abbrev pub blank : Mem
blank = record { next = 3; cell = λ b o. 0 }

abbrev pub text : Mem
text = write blank (at 1 0) (104 ∷ 105 ∷ 97 ∷ [])

abbrev pub stored : Mem
stored = write text (at 2 0) (encode little false three)

abbrev pub hi_view : StrView
hi_view = make_strview (at 1 0) 2 cetype_utf8

abbrev pub na_view : StrView
na_view = make_strview null na_integer cetype_na

abbrev pub a_view : StrView
a_view = make_strview (at 1 2) 1 cetype_ascii

abbrev pub three_views : List StrView
three_views = hi_view ∷ na_view ∷ a_view ∷ []

abbrev pub ptrs : Option (List Ptr)
ptrs = some (at 1 0 ∷ null ∷ at 1 2 ∷ [])

abbrev pub lengths : Option (List ℕ)
lengths = some (2 ∷ na_integer ∷ 1 ∷ [])

abbrev pub encodings : Option (List ℕ)
encodings = some (cetype_utf8 ∷ cetype_na ∷ cetype_ascii ∷ [])

-- R_XLEN_T_MAX
abbrev pub xlen_max : ℕ
xlen_max = 2 ^ 52

-- The greatest R_xlen_t of 64 bits.
abbrev pub r_xlen_max : ℕ
r_xlen_max = 2 ^ 63 - 1

-- Allocations that never fail.
abbrev pub served : ℕ → Bool
served size = false

-- R's strings as their bytes and mark, without NULs; none is NA_STRING.
abbrev pub test_strings : RStrings
test_strings = record {
  Charsxp = Option (List ℕ × Cetype);
  na_string = none;
  is_na_string = λ x. elim x [ none ↦ true | some y ↦ false ];
  chars = λ x. at 1 0;
  char_length = λ x. elim x [ none ↦ 2 | some y ↦ length y.0 ];
  char_ce = λ x. elim x [ none ↦ ce_native | some y ↦ y.1 ];
  charsxp_is_ascii = λ x. elim x [ none ↦ true | some y ↦ check_ascii y.0 ];
  mk_char_len_ce = λ bytes ce. if has_byte 0 bytes then err embedded_nul else ok (some (bytes, ce));
}
