-- ===== src/Reader/Statuses.antt =====
-- Statuses and exceptions.
use charport.Prelude.{Error, ◌≡◌, err, bad_alloc, out_of_range, refl, access_failed}
use charport.Reader.{check_access, status_of, access_error}

-- What the user of a Reader sees of an exception of a provider.
abbrev pub seen_as : Error → Error
seen_as bad_alloc = bad_alloc
seen_as out_of_range = out_of_range
seen_as other = access_failed

-- An exception that is turned into a status at a provider, and raised again by the Reader from that
-- status, is an error there: a failed allocation and an access out of range stay what they are, and
-- any other is a failed access. No failure is taken for success.
pub check_access-status_of : (e : Error) → check_access (status_of e) ≡ err (seen_as e)
unfolding check_access status_of access_error
check_access-status_of bad_alloc = refl
check_access-status_of out_of_range = refl
check_access-status_of other = refl
