-- ===== src/Reader/Released.antt =====
-- The borrows that the Readers of a program hold and release (inst/include/charport/interop/reader.h).
use charport.Reader.Borrow.{
  destroys, reset, resets, move_assigns, steps, move_constructs, stays, constructs, World,
  release_owned, destroy, move_construct, move_assign, holds, construct, Step, Run, no_readers,
  resolved,
}
use charport.Prelude.{
  inr, inl, suc, some, ℕ, Option, List, ◌<◌, ◌++◌, ◌+◌, ◌≡◌, Option-cases, length, arith,
  if◌then◌else◌, set, ltb, none, Bool-cases, get_or, ◌∷◌, ◌==◌, [], zero, ◌≢◌, refl, get_or-set_ne,
  length-set, ap, ◌∙◌, sym, false, true, Bool, length-append,
}

-- Does a reader hold the borrow `b`?
unfoldable pub held : Option ℕ → ℕ → ℕ
held none b = 0
held (some x) b = if x == b then 1 else 0

-- How many readers hold it, and how often it was released.
unfoldable pub holders : ℕ → List (Option ℕ) → ℕ
unfolding held
holders b [] = 0
holders b (o ∷ os) = held o b + holders b os

unfoldable pub times : ℕ → List ℕ → ℕ
times b [] = 0
times b (x ∷ xs) = (if x == b then 1 else 0) + times b xs

holders-set :
    (b : ℕ) (xs : List (Option ℕ)) (i : ℕ) (o : Option ℕ)
    → i < length xs
    → holders b (set xs i o) + held (get_or xs i none) b ≡ holders b xs + held o b
unfolding holders
holders-set b [] i o h = absurd (omega arith)
holders-set b (x ∷ xs) zero o h = omega arith
holders-set b (x ∷ xs) (suc i) o h = omega (arith, holders-set b xs i o (omega arith))

holders-append :
    (b : ℕ) (xs ys : List (Option ℕ)) → holders b (xs ++ ys) ≡ holders b xs + holders b ys
unfolding holders
holders-append b [] ys = omega arith
holders-append b (x ∷ xs) ys = omega (arith, holders-append b xs ys)

-- A borrow that was handed out is held once or was released once; no other was ever seen.
abbrev pub Conserved : World → Type 0
Conserved w = (b : ℕ) → holders b w.readers + times b w.released ≡ (if ltb b w.next then 1 else 0)

abbrev total : World → ℕ → ℕ
total w b = holders b w.readers + times b w.released

-- release_owned lists the borrow that the reader still has.
record Owing (w w1 : World) (i : ℕ) : Type 0 where
  pub readers : w1.readers ≡ w.readers
  pub next : w1.next ≡ w.next
  pub released : (b : ℕ) → times b w1.released ≡ held (holds w i) b + times b w.released

release_owned-Owing : (w : World) (i : ℕ) → Owing w (release_owned w i) i
unfolding release_owned held times
release_owned-Owing w i = elim (Option-cases (holds w i)) [
  | inl e ↦
      rw (release_owned, e)
        (record { readers = refl; next = refl; released = λ b. rw e (omega arith) })
  | inr found ↦
      let (x, e) = found in
      rw (release_owned, e) (record { readers = refl; next = refl; released = λ b. rw e refl })
]

total-destroy : (w : World) (i b : ℕ) → i < length w.readers → total (destroy w i) b ≡ total w b
unfolding destroy held
total-destroy w i b hi =
    let ow = release_owned-Owing w i in
    rw ow.readers (omega (arith, holders-set b w.readers i none hi, ow.released b))

total-move_construct :
    (w : World) (other b : ℕ)
    → other < length w.readers
    → total (move_construct w other) b ≡ total w b
unfolding move_construct holders held
total-move_construct w other b h = omega (
  arith,
  holders-append b (set w.readers other none) (holds w other ∷ []),
  holders-set b w.readers other none h,
)

total-move_assign :
    (w : World) (this other b : ℕ)
    → this < length w.readers
    → other < length w.readers
    → total (move_assign w this other) b ≡ total w b
unfolding move_assign held
total-move_assign w this other b hi ho = elim (Bool-cases (this == other)) [
  | inl same ↦ rw same refl
  | inr apart ↦
      let ow = release_owned-Owing w this in
      let ne : this ≢ other = ground arith in
      let kept : get_or (set w.readers this (holds w other)) other none ≡ holds w other =
        get_or-set_ne w.readers (holds w other) none ne in
      let long : length (set w.readers this (holds w other)) ≡ length w.readers =
        length-set w.readers this (holds w other) in
      rw (apart, ow.readers)
        (omega (
          arith,
          ow.released b,
          holders-set b w.readers this (holds w other) hi,
          holders-set b (set w.readers this (holds w other)) other none (omega (arith, long)),
          ap (λ o. held o b) kept,
        ))
]

next-destroy : (w : World) (i : ℕ) → (destroy w i).next ≡ w.next
unfolding destroy
next-destroy w i = (release_owned-Owing w i).next

next-move_assign : (w : World) (this other : ℕ) → (move_assign w this other).next ≡ w.next
unfolding move_assign
next-move_assign w this other = elim (Bool-cases (this == other)) [
  | inl same ↦ rw same refl
  | inr apart ↦ rw apart (release_owned-Owing w this).next
]

length-move_assign :
    (w : World) (this other : ℕ) → length (move_assign w this other).readers ≡ length w.readers
unfolding move_assign
length-move_assign w this other = elim (Bool-cases (this == other)) [
  | inl same ↦ rw same refl
  | inr apart ↦
      let ow = release_owned-Owing w this in
      rw (apart, ow.readers)
        (length-set (set w.readers this (holds w other)) other none
          ∙ length-set w.readers this (holds w other))
]

-- A step that hands out no borrow.
keeps :
    (w w' : World)
    → w'.next ≡ w.next
    → ((b : ℕ) → total w' b ≡ total w b)
    → Conserved w
    → Conserved w'
keeps w w' next same h = λ b. same b ∙ h b ∙ ap (λ n. if ltb b n then 1 else 0) (sym next)

construct-Conserved :
    (w : World) (releasable : Bool) → Conserved w → Conserved (construct w releasable)
unfolding construct resolved holders held
construct-Conserved w true h =
    λ b. omega (arith, h b, holders-append b w.readers (some w.next ∷ []), one_more b)
  where
    one_more :
        (b : ℕ)
        → ◌≡◌ {A = ℕ}
            (if ltb b (w.next + 1) then 1 else 0)
            ((if ltb b w.next then 1 else 0) + (if w.next == b then 1 else 0))
    one_more b = ground arith
construct-Conserved w false h = λ b. omega (arith, h b, holders-append b w.readers (none ∷ []))

Step-Conserved : (w w' : World) → Step w w' → Conserved w → Conserved w'
Step-Conserved _ _ (constructs w releasable) h = construct-Conserved w releasable h
Step-Conserved _ _ (move_constructs w other ho) h =
    keeps w (move_construct w other) (unfold move_construct in refl)
      (λ b. total-move_construct w other b ho) h
Step-Conserved _ _ (move_assigns w this other hi ho) h =
    keeps w (move_assign w this other) (next-move_assign w this other)
      (λ b. total-move_assign w this other b hi ho) h
Step-Conserved _ _ (resets w this releasable hi) h = reset_conserves w this releasable hi h
  where
    reset_conserves :
        (w : World) (this : ℕ) (releasable : Bool)
        → this < length w.readers
        → Conserved w
        → Conserved (reset w this releasable)
    reset_conserves w this releasable hi h =
        let w1 = construct w releasable in
        let t : ℕ = length w.readers in
        let w2 = move_assign w1 this t in
        let long : length w1.readers ≡ length w.readers + 1 =
          unfold construct in omega (arith, length-append w.readers (resolved w releasable ∷ [])) in
        unfold reset in
        keeps w1 (destroy w2 t) (next-destroy w2 t ∙ next-move_assign w1 this t)
          (λ b.
            total-destroy w2 t b (omega (arith, length-move_assign w1 this t, long))
            ∙ total-move_assign w1 this t b (omega (arith, long)) (omega (arith, long)))
          (construct-Conserved w releasable h)
Step-Conserved _ _ (destroys w i hi) h =
    keeps w (destroy w i) (next-destroy w i) (λ b. total-destroy w i b hi) h

Run-Conserved : (u w : World) → Run u w → Conserved u → Conserved w
Run-Conserved _ _ (stays u) h = h
Run-Conserved _ _ (steps u v w run step) h = Step-Conserved v w step (Run-Conserved u v run h)

start-Conserved : Conserved no_readers
unfolding holders times
start-Conserved b = let e : ltb b 0 ≡ false = ground arith in rw e refl

-- Whatever a program does with Reader objects (construction, moves, self-assignment, reset and
-- destruction, in any order), every borrow that was handed out is at each moment either held by
-- exactly one of them or has been released exactly once, never both, and nothing else was released.
pub Run-released :
    (w : World) (b : ℕ)
    → Run no_readers w
    → holders b w.readers + times b w.released ≡ (if ltb b w.next then 1 else 0)
Run-released w b run = Run-Conserved no_readers w run start-Conserved b
