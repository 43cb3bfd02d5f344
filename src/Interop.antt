-- ===== src/Interop.antt =====
-- inst/include/charport/interop/types.h: the element-view types that producers and consumers share.
-- An `int` is its 32-bit pattern and an `R_xlen_t` its 64-bit pattern: one with the top bit set is
-- negative. An encoding tag is one byte.
pub mod Views
use charport.Prelude.{
  ℕ, ◌+◌, ◌-◌, ◌^◌, Bool, true, false, ◌&&◌, ◌||◌, not, ltb, leb, ◌==◌, if◌then◌else◌,
}
use charport.Memory.{Mem, Ptr, null, at, is_null, ptr_eq, read, bytes_eq}

abbrev pub cetype_native : ℕ
cetype_native = 0

abbrev pub cetype_utf8 : ℕ
cetype_utf8 = 1

abbrev pub cetype_latin1 : ℕ
cetype_latin1 = 2

abbrev pub cetype_bytes : ℕ
cetype_bytes = 3

abbrev pub cetype_ascii_or_utf8 : ℕ
cetype_ascii_or_utf8 = 100

abbrev pub cetype_ascii : ℕ
cetype_ascii = 254

abbrev pub cetype_na : ℕ
cetype_na = 255

-- NA_INTEGER, which is INT_MIN.
abbrev pub na_integer : ℕ
na_integer = 2 ^ 31

abbrev pub int_is_negative : ℕ → Bool
int_is_negative x = leb (2 ^ 31) x

abbrev pub xlen_is_negative : ℕ → Bool
xlen_is_negative x = leb (2 ^ 63) x

-- static_cast<size_t>(int)
abbrev pub size_of_int : ℕ → ℕ
size_of_int x = if int_is_negative x then 2 ^ 64 - 2 ^ 32 + x else x

pub record ByteView : Type 0 where
  pub ptr : Ptr
  pub len : ℕ

pub record StrView : Type 0 where
  pub ptr : Ptr
  pub len : ℕ
  pub enc : ℕ

abbrev pub make_byteview : Ptr → ℕ → ByteView
make_byteview p n = record { ptr = p; len = n }

abbrev pub make_strview : Ptr → ℕ → ℕ → StrView
make_strview p n e = record { ptr = p; len = n; enc = e }

unfoldable pub byteview_is_na : ByteView → Bool
byteview_is_na v = is_null v.ptr || v.len == na_integer

unfoldable pub strview_is_na : StrView → Bool
strview_is_na v = is_null v.ptr || v.len == na_integer || v.enc == cetype_na

-- charport_byteview::operator==
unfoldable pub byteview_eq : Mem → ByteView → ByteView → Bool
unfolding byteview_is_na
byteview_eq m v w =
    if byteview_is_na v && byteview_is_na w
    then true
    else if byteview_is_na v || byteview_is_na w
    then false
    else if not (v.len == w.len)
    then false
    else if ptr_eq v.ptr w.ptr
    then true
    else bytes_eq (read m v.ptr (size_of_int v.len)) (read m w.ptr (size_of_int v.len))

-- charport_strview::operator==
unfoldable pub strview_eq : Mem → StrView → StrView → Bool
unfolding strview_is_na
strview_eq m v w =
    if strview_is_na v && strview_is_na w
    then true
    else if strview_is_na v || strview_is_na w
    then false
    else if not (v.len == w.len) || not (v.enc == w.enc)
    then false
    else if ptr_eq v.ptr w.ptr
    then true
    else bytes_eq (read m v.ptr (size_of_int v.len)) (read m w.ptr (size_of_int v.len))
