-- ===== src/Interop/Views.antt =====
-- The string that a view stands for, and equality of views.
use charport.Prelude.{
  ℕ, ◌<◌, ◌^◌, ◌≡◌, ◌↔◌, refl, true, false, List, length, Option, none, some, arith, if◌then◌else◌,
}
use charport.Memory.{Mem, Ptr, null, at, is_null, ptr_eq, read}
use charport.Memory.Laws.{bytes_eq_iff, length-read}
use charport.Interop.{
  ByteView, StrView, byteview_is_na, strview_is_na, byteview_eq, strview_eq, size_of_int,
}

-- A string of the vector: none is NA, else its bytes and encoding.
abbrev pub Str : Type 0
Str = Option (List ℕ × ℕ)

unfoldable pub content : Mem → StrView → Str
unfolding strview_is_na
content m v = if strview_is_na v then none else some (read m v.ptr (size_of_int v.len), v.enc)

unfoldable pub byte_content : Mem → ByteView → Option (List ℕ)
unfolding byteview_is_na
byte_content m v = if byteview_is_na v then none else some (read m v.ptr (size_of_int v.len))

pub length-read_ptr : (m : Mem) (p : Ptr) (n : ℕ) → is_null p ≡ false → length (read m p n) ≡ n
length-read_ptr m null n h = cc
length-read_ptr m (at b o) n h = length-read m b o n

read_of_ptr_eq : (m : Mem) (p q : Ptr) (n : ℕ) → ptr_eq p q ≡ true → read m p n ≡ read m q n
read_of_ptr_eq m null null n h = refl
read_of_ptr_eq m null (at b o) n h = cc
read_of_ptr_eq m (at b o) null n h = cc
read_of_ptr_eq m (at b o) (at c q) n h = ground arith

size_of_int_injective : (a b : ℕ) → a < 2 ^ 32 → b < 2 ^ 32 → size_of_int a ≡ size_of_int b → a ≡ b
size_of_int_injective a b ha hb h = ground arith

-- Two string views whose lengths are `int`s are equal by operator== exactly when they stand for the
-- same string: both NA, or the same bytes in the same encoding, wherever those are stored.
pub strview_eq_iff :
    (m : Mem) (v w : StrView)
    → v.len < 2 ^ 32
    → w.len < 2 ^ 32
    → (strview_eq m v w ≡ true) ↔ (content m v ≡ content m w)
unfolding strview_eq content
strview_eq_iff m v w hv hw = ground (
  arith,
  bytes_eq_iff (read m v.ptr (size_of_int v.len)) (read m w.ptr (size_of_int v.len)),
  read_of_ptr_eq m v.ptr w.ptr (size_of_int v.len),
  length-read_ptr m v.ptr (size_of_int v.len),
  length-read_ptr m w.ptr (size_of_int w.len),
  size_of_int_injective v.len w.len,
)

-- The same of byte views, which have no encoding.
pub byteview_eq_iff :
    (m : Mem) (v w : ByteView)
    → v.len < 2 ^ 32
    → w.len < 2 ^ 32
    → (byteview_eq m v w ≡ true) ↔ (byte_content m v ≡ byte_content m w)
unfolding byteview_eq byte_content
byteview_eq_iff m v w hv hw = ground (
  arith,
  bytes_eq_iff (read m v.ptr (size_of_int v.len)) (read m w.ptr (size_of_int v.len)),
  read_of_ptr_eq m v.ptr w.ptr (size_of_int v.len),
  length-read_ptr m v.ptr (size_of_int v.len),
  length-read_ptr m w.ptr (size_of_int w.len),
  size_of_int_injective v.len w.len,
)
