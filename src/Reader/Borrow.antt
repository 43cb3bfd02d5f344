-- ===== src/Reader/Borrow.antt =====
-- class Reader of inst/include/charport/interop/reader.h: who owns a borrow, and when it is released.
-- A world has the Reader objects of a program by number, of which each is dead or holds a borrow, and
-- the borrows that were released, in the order of the calls. A borrow is its number; `none` is one
-- without a release function, and one that was disowned.
use charport.Prelude.{
  ℕ, ◌+◌, ◌<◌, Bool, List, [], ◌∷◌, ◌++◌, length, set, get_or, Option, none, some, ◌==◌,
  if◌then◌else◌,
}

pub record World : Type 0 where
  -- release(state) is to be called for `some` borrow.
  pub readers : List (Option ℕ)
  pub released : List ℕ
  pub next : ℕ

abbrev pub holds : World → ℕ → Option ℕ
holds w i = get_or w.readers i none

-- What resolve gives: a new borrow with a release function, or one without.
unfoldable pub resolved : World → Bool → Option ℕ
resolved w releasable = if releasable then some w.next else none

abbrev pub next_after : World → Bool → ℕ
next_after w releasable = if releasable then w.next + 1 else w.next

-- Reader(x)
unfoldable pub construct : World → Bool → World
construct w releasable = record w {
  readers = w.readers ++ (resolved w releasable ∷ []);
  next = next_after w releasable;
}

-- release_owned, without the object's own change.
unfoldable pub release_owned : World → ℕ → World
release_owned w i = elim (holds w i) [ none ↦ w | some b ↦ record w { released = b ∷ w.released } ]

-- Reader(Reader && other): the new object's borrow is the other's, which is disowned.
unfoldable pub move_construct : World → ℕ → World
move_construct w other = record w { readers = set w.readers other none ++ (holds w other ∷ []) }

-- operator=(Reader && other)
unfoldable pub move_assign : World → ℕ → ℕ → World
move_assign w this other =
    if this == other
    then w
    else (let w1 = release_owned w this in
        record w1 { readers = set (set w1.readers this (holds w1 other)) other none })

-- ~Reader
unfoldable pub destroy : World → ℕ → World
destroy w i = let w1 = release_owned w i in record w1 { readers = set w1.readers i none }

-- reset(x): the new Reader is a temporary.
unfoldable pub reset : World → ℕ → Bool → World
reset w this releasable =
    let w1 = construct w releasable in
    let temporary = length w.readers in destroy (move_assign w1 this temporary) temporary

-- The uses of Reader objects, where an object is used only while it is there.
pub data Step : World → World → Type 0 where
  constructs : (w : World) (releasable : Bool) → Step w (construct w releasable)
  move_constructs :
      (w : World) (other : ℕ) → other < length w.readers → Step w (move_construct w other)
  move_assigns :
      (w : World) (this other : ℕ)
      → this < length w.readers
      → other < length w.readers
      → Step w (move_assign w this other)
  resets :
      (w : World) (this : ℕ) (releasable : Bool)
      → this < length w.readers
      → Step w (reset w this releasable)
  destroys : (w : World) (i : ℕ) → i < length w.readers → Step w (destroy w i)

pub data Run : World → World → Type 0 where
  stays : (w : World) → Run w w
  steps : (u v w : World) → Run u v → Step v w → Run u w

abbrev pub no_readers : World
no_readers = record { readers = []; released = []; next = 0 }
