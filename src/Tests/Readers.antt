-- ===== src/Tests/Readers.antt =====
-- A Reader object that is moved from, and one that is destroyed.
use charport.Prelude.{
  ◌<◌, ◌≡◌, ◌+◌, ltb, if◌then◌else◌, [], ◌∷◌, ok, err, arith, length, true, bad_alloc,
}
use charport.Reader.Borrow.{
  World, Run, no_readers, construct, move_construct, stays, steps, constructs, move_constructs,
  resolved,
}
use charport.Reader.Released.{holders, times, Run-released}
use charport.Reader.Statuses.{check_access-status_of, seen_as}
use charport.Reader.{check_access, status_of, iterate}
use charport.Reader.OverCharvec.{charvec_provider, iterate-rows}
use charport.Tests.Data.{hi_view, na_view}
use charport.Charvec.Store.{Store}

abbrev one : World
one = construct no_readers true

abbrev handed_on : World
handed_on = move_construct one 0

there : 0 < length one.readers
unfolding construct resolved
there = omega arith

one-Run : Run no_readers one
one-Run = steps no_readers no_readers one (stays no_readers) (constructs no_readers true)

Run-released_example :
    holders 0 handed_on.readers + times 0 handed_on.released
    ≡ (if ltb 0 handed_on.next then 1 else 0)
Run-released_example =
    Run-released handed_on 0 (steps no_readers one handed_on one-Run (move_constructs one 0 there))

check_access-status_of_example : check_access (status_of bad_alloc) ≡ err (seen_as bad_alloc)
check_access-status_of_example = check_access-status_of bad_alloc

abbrev two_rows : Store
two_rows = record { slices = []; records = record { rows = hi_view ∷ na_view ∷ []; capacity = 2 } }

iterate-rows_example :
    iterate (charvec_provider two_rows) 0 (charvec_provider two_rows).n
    ≡ ok (hi_view ∷ na_view ∷ [])
iterate-rows_example = iterate-rows two_rows
