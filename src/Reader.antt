-- ===== src/Reader.antt =====
-- inst/include/charport/interop/reader.h: class Reader, which reads a vector through the callbacks of
-- its provider, and the translation between its exceptions and their statuses.
-- A callback gives its status and the list of what it wrote; output buffers are the lists written.
pub mod Statuses
pub mod Borrow
pub mod Released
pub mod OverCharvec
use charport.Prelude.{
  ℕ, suc, zero, ◌+◌, not, List, [], ◌∷◌, get_or, ◌==◌, if◌then◌else◌, Result, ok, err, Error, ◌>>=◌,
  ◌>>◌, require, bad_alloc, out_of_range, access_failed, negative_size, Bool, ◌&&◌,
}
use charport.Interop.{StrView, ByteView, make_byteview, na_integer, cetype_na, xlen_is_negative}
use charport.Memory.{null}
use charport.Charvec.Store.{na_record}

abbrev pub status_ok : ℕ
status_ok = 0

abbrev pub status_error : ℕ
status_error = 1

abbrev pub status_no_memory : ℕ
status_no_memory = 2

abbrev pub status_out_of_range : ℕ
status_out_of_range = 3

-- throw_access_error
unfoldable pub access_error : ℕ → Error
access_error status =
    if status == status_no_memory
    then bad_alloc
    else if status == status_out_of_range
    then out_of_range
    else access_failed

unfoldable pub check_access : ℕ → Result (Unit {0})
check_access status = if not (status == status_ok) then err (access_error status) else ok tt

-- convert_current_exception_to_status of the active exception.
unfoldable pub status_of : Error → ℕ
status_of bad_alloc = status_no_memory
status_of out_of_range = status_out_of_range
status_of other = status_error

-- The callbacks of a borrow, its length and its capabilities.
pub record Provider : Type 0 where
  pub n : ℕ
  pub persistent_views : Bool
  pub concurrent_access : Bool
  pub strviews_range : ℕ → ℕ → ℕ × List StrView
  pub byteviews_range : ℕ → ℕ → ℕ × List ByteView
  pub lengths_range : ℕ → ℕ → ℕ × List ℕ
  pub encodings_range : ℕ → ℕ → ℕ × List ℕ
  pub strviews_index : List ℕ → ℕ × List StrView
  pub byteviews_index : List ℕ → ℕ × List ByteView
  pub lengths_index : List ℕ → ℕ × List ℕ
  pub encodings_index : List ℕ → ℕ × List ℕ

unfoldable pub reentrant : Provider → Bool
reentrant p = p.persistent_views && p.concurrent_access

-- What a callback wrote, where its status is OK.
unfoldable pub accessed {ℓ} : {A : Type ℓ} → ℕ × List A → Result (List A)
accessed q = do check_access q.0; ok q.1

-- The one entry of a request of size 1, whose buffer holds a default before the call.
unfoldable pub accessed_one {ℓ} : {A : Type ℓ} → A → ℕ × List A → Result A
accessed_one default q = do check_access q.0; ok (get_or q.1 0 default)

unfoldable pub byteview : Provider → ℕ → Result ByteView
byteview p i = accessed_one (make_byteview null na_integer) (p.byteviews_range i 1)

unfoldable pub length_of : Provider → ℕ → Result ℕ
length_of p i = accessed_one na_integer (p.lengths_range i 1)

unfoldable pub encoding : Provider → ℕ → Result ℕ
encoding p i = accessed_one cetype_na (p.encodings_range i 1)

-- view, operator[] and const_iterator::operator*
unfoldable pub view : Provider → ℕ → Result StrView
view p i = accessed_one na_record (p.strviews_range i 1)

unfoldable pub lengths : Provider → ℕ → ℕ → Result (List ℕ)
lengths p start size = accessed (p.lengths_range start size)

unfoldable pub encodings : Provider → ℕ → ℕ → Result (List ℕ)
encodings p start size = accessed (p.encodings_range start size)

-- The overloads for StrViews and ByteViews, whose resize raises for a negative size.
unfoldable pub views : Provider → ℕ → ℕ → Result (List StrView)
views p start size = do
  require (not (xlen_is_negative size)) negative_size
  accessed (p.strviews_range start size)

unfoldable pub byteviews : Provider → ℕ → ℕ → Result (List ByteView)
byteviews p start size = do
  require (not (xlen_is_negative size)) negative_size
  accessed (p.byteviews_range start size)

unfoldable pub views_at : Provider → List ℕ → Result (List StrView)
views_at p indices = accessed (p.strviews_index indices)

unfoldable pub byteviews_at : Provider → List ℕ → Result (List ByteView)
byteviews_at p indices = accessed (p.byteviews_index indices)

unfoldable pub lengths_at : Provider → List ℕ → Result (List ℕ)
lengths_at p indices = accessed (p.lengths_index indices)

unfoldable pub encodings_at : Provider → List ℕ → Result (List ℕ)
encodings_at p indices = accessed (p.encodings_index indices)

-- A loop from an iterator at `i` over the `left` elements before end().
unfoldable pub iterate : Provider → ℕ → ℕ → Result (List StrView)
iterate p i zero = ok []
iterate p i (suc left) = do v ← view p i; rest ← iterate p (i + 1) left; ok (v ∷ rest)
