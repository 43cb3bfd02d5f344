-- ===== src/Charsxp.antt =====
-- src/charvec_altrep.h, namespace charport::internal: between R's strings and views.
-- R's own string cache (Rf_mkCharLenCE, CHAR, LENGTH, Rf_getCharCE, the ASCII test) is a parameter.
use charport.Prelude.{
  ℕ, Bool, ◌||◌, not, List, ◌==◌, if◌then◌else◌, Result, ok, err, string_too_long,
}
use charport.Memory.{Ptr, null, is_null, Mem, read}
use charport.Interop.{
  StrView, make_strview, strview_is_na, na_integer, cetype_native, cetype_utf8, cetype_latin1,
  cetype_bytes, cetype_ascii_or_utf8, cetype_ascii, cetype_na,
}
use charport.Sizes.{check_r_string_len_int}

-- cetype_t of R, whose other values no string has.
pub data Cetype : Type 0 where
  ce_native ce_utf8 ce_latin1 ce_bytes ce_other : Cetype

-- What R gives of a CHARSXP. `is_na_string x` is the comparison `x == NA_STRING`. Rf_mkCharLenCE raises
-- for embedded NULs and where memory runs out.
pub record RStrings : Type 1 where
  pub Charsxp : Type 0
  pub na_string : Charsxp
  pub is_na_string : Charsxp → Bool
  pub chars : Charsxp → Ptr
  pub char_length : Charsxp → ℕ
  pub char_ce : Charsxp → Cetype
  pub charsxp_is_ascii : Charsxp → Bool
  pub mk_char_len_ce : List ℕ → Cetype → Result Charsxp

unfoldable pub to_base_encoding : ℕ → Cetype
to_base_encoding enc =
    if enc == cetype_ascii
    then ce_native
    else if enc == cetype_utf8 || enc == cetype_ascii_or_utf8
    then ce_utf8
    else if enc == cetype_latin1
    then ce_latin1
    else if enc == cetype_bytes
    then ce_bytes
    else ce_native

unfoldable pub valid_view_encoding : ℕ → Bool
valid_view_encoding enc =
    enc == cetype_native
    || enc == cetype_utf8
    || enc == cetype_latin1
    || enc == cetype_bytes
    || enc == cetype_ascii_or_utf8
    || enc == cetype_ascii
    || enc == cetype_na

unfoldable pub view_is_na : Ptr → ℕ → ℕ → Bool
view_is_na ptr len enc = is_null ptr || len == na_integer || enc == cetype_na

module _ (r : RStrings) where
  open r use {
    Charsxp, na_string, is_na_string, chars, char_length, char_ce, charsxp_is_ascii, mk_char_len_ce,
  }

  unfoldable pub classify_charsxp : Charsxp → ℕ
  classify_charsxp x = elim (char_ce x) [
    | ce_utf8 ↦ cetype_utf8
    | ce_latin1 ↦ cetype_latin1
    | ce_bytes ↦ cetype_bytes
    | _ ↦ if charsxp_is_ascii x then cetype_ascii else cetype_native
  ]

  unfoldable pub charsxp_to_view : Charsxp → StrView
  unfolding classify_charsxp
  charsxp_to_view x =
      if is_na_string x
      then make_strview null na_integer cetype_na
      else make_strview (chars x) (char_length x) (classify_charsxp x)

  unfoldable pub make_charsxp : Mem → StrView → Result Charsxp
  unfolding strview_is_na check_r_string_len_int
  make_charsxp m v =
      if strview_is_na v
      then ok na_string
      else if not (check_r_string_len_int v.len)
      then err string_too_long
      else mk_char_len_ce (read m v.ptr v.len) (to_base_encoding v.enc)
