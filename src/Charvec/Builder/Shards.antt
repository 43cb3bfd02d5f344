-- ===== src/Charvec/Builder/Shards.antt =====
-- One record placed in a shard: memory, slices and rows before and after.
use charport.Prelude.{
  ℕ, ◌+◌, ◌-◌, ◌*◌, ◌/◌, ◌%◌, ◌^◌, ◌≤◌, ◌<◌, ◌≡◌, ◌≢◌, ◌⊎◌, inl, inr, refl, ap, ◌∙◌, false, ◌||◌,
  [], ◌∷◌, ok, >>=-eq-ok, ok-injective, err-ne-ok, arith, ltb, Bool-cases, min, max,
}
use mathlib.Core.Path.{subst}
use charport.Memory.{Mem, Ptr, null, at}
use charport.Interop.{StrView}
use charport.Sizes.{round_up, checked_u32, size_max, u32_max}
use charport.Sizes.Rounding.{round_up_lem}
use charport.Charvec.Store.{Allocator, SliceChain, chain_is_empty, front_data, push_front}
use charport.Charvec.Builder.{Shard, next_slice_size, make_room, initial_slice_heuristic}

-- The block that a shard writes to next; 0, the static empty string's, if it has no slice.
abbrev pub front_block : SliceChain → ℕ
front_block [] = 0
front_block (s ∷ ss) = s.block

abbrev pub front_size : SliceChain → ℕ
front_size [] = 0
front_size (s ∷ ss) = s.size

-- Blocks are numbered from 1, below the next one; what is used of the current slice is within its
-- capacity, which is its size.
pub record IsShard (m : Mem) (s : Shard) : Type 0 where
  pub known : front_block s.slices < m.next
  pub capacity_lem : s.current_slice_capacity ≡ front_size s.slices
  pub used_le : s.current_slice_used ≤ s.current_slice_capacity
  pub bounded : s.current_slice_capacity < 2 ^ 32

-- A pointer to `len` bytes that writes to the shard's free space leave alone.
abbrev pub SettledAt : ℕ → ℕ → ℕ → Ptr → ℕ → Type 0
SettledAt next front used null len = Unit {0}
SettledAt next front used (at b o) len =
    (b < next) × (len < 2 ^ 31) × ((b ≢ front) ⊎ (o + len ≤ used))

abbrev pub Settled : Mem → Shard → StrView → Type 0
Settled m s v = SettledAt m.next (front_block s.slices) s.current_slice_used v.ptr v.len

-- A new slice holds the record that opens it.
slice_size_bounds : (s : Shard) (len hint : ℕ) → len < 2 ^ 31 → len ≤ next_slice_size s len hint
unfolding next_slice_size
slice_size_bounds s len hint h =
    omega (arith, round_up_lem (max regular len) 64 (omega arith) (omega arith))
  where
    regular : ℕ
    regular =
        min (round_up (max (initial_slice_heuristic hint) (s.allocated_bytes / 2)) 64)
          (256 * 2 ^ 10)

-- Making room gives a shard that has `len` free bytes; no byte of memory changes, and settled rows
-- stay settled.
pub record HasRoom (m m' : Mem) (s s' : Shard) (len : ℕ) : Type 0 where
  pub shard : IsShard m' s'
  pub same : m'.cell ≡ m.cell
  pub room : s'.current_slice_used + len ≤ s'.current_slice_capacity
  pub front : front_data s'.slices ≡ at (front_block s'.slices) 0
  pub grown : m.next ≤ m'.next
  pub stay : (v : StrView) → Settled m s v → Settled m' s' v

-- What is left as it was.
kept_room :
    (m : Mem) (s : Shard) (len : ℕ)
    → IsShard m s
    → (chain_is_empty s.slices
        || ltb ((s.current_slice_capacity + 2 ^ 32 - s.current_slice_used) % 2 ^ 32) len)
      ≡ false
    → HasRoom m m s s len
unfolding chain_is_empty
kept_room m s len sh h = record {
  shard = sh;
  same = refl;
  room = ground (arith, sh.used_le, sh.bounded);
  front = front_at s.slices (ground arith);
  grown = omega arith;
  stay = λ v st. st;
}
  where
    front_at : (ss : SliceChain) → chain_is_empty ss ≡ false → front_data ss ≡ at (front_block ss) 0
    front_at [] h = cc
    front_at (x ∷ xs) h = unfold front_data in refl

-- What a new slice gives.
pub opened_room :
    (m : Mem) (s : Shard) (len cap : ℕ)
    → IsShard m s
    → len ≤ cap
    → cap < 2 ^ 32
    → HasRoom m
        (record m { next = m.next + 1 })
        s
        (record s {
          slices = record { block = m.next; size = cap } ∷ s.slices;
          current_slice_used = 0;
          current_slice_capacity = cap;
        })
        len
unfolding front_data
opened_room m s len cap sh room small = record {
  shard = record {
    known = omega arith;
    capacity_lem = refl;
    used_le = omega arith;
    bounded = small;
  };
  same = refl;
  room = omega arith;
  front = refl;
  grown = omega arith;
  stay = λ v st. settle v.ptr v.len st;
}
  where
    settle :
        (p : Ptr) (n : ℕ)
        → SettledAt m.next (front_block s.slices) s.current_slice_used p n
        → SettledAt (m.next + 1) m.next 0 p n
    settle null n st = tt
    settle (at b o) n (lo, short, apart) = (omega arith, short, inl (λ e. omega arith))

checked_u32-eq_ok : (n : ℕ) {cap : ℕ} → checked_u32 n ≡ ok cap → (n ≡ cap) × (cap < 2 ^ 32)
unfolding checked_u32
checked_u32-eq_ok n {cap} h = elim (Bool-cases (ltb u32_max n)) [
  | inl over ↦ absurd (err-ne-ok (rw over at h))
  | inr fits ↦ let e = ok-injective (rw fits at h) in (e, rw (← e) (ground arith))
]

pub push_front-eq_ok :
    (al : Allocator) (m : Mem) (chain : SliceChain) (n : ℕ) {p : Mem × SliceChain}
    → push_front al m chain n ≡ ok p
    → (record m { next = m.next + 1 }, record { block = m.next; size = n } ∷ chain) ≡ p
unfolding push_front
push_front-eq_ok al m chain n h = elim (Bool-cases (ltb (size_max - al.slice_header) n)) [
  | inl big ↦ absurd (err-ne-ok (rw big at h))
  | inr small ↦ elim (Bool-cases (al.slice_fails m.next n)) [
    | inl fails ↦ absurd (err-ne-ok (rw (small, fails) at h))
    | inr works ↦ ok-injective (rw (small, works) at h)
  ]
]

pub make_room-HasRoom :
    (al : Allocator) (m m' : Mem) (s s' : Shard) (len hint : ℕ)
    → IsShard m s
    → len < 2 ^ 31
    → make_room al m s len hint ≡ ok (m', s')
    → HasRoom m m' s s' len
unfolding make_room
make_room-HasRoom al m m' s s' len hint sh hl h =
    elim (Bool-cases (
      chain_is_empty s.slices
      || ltb ((s.current_slice_capacity + 2 ^ 32 - s.current_slice_used) % 2 ^ 32) len)) [
        | inr enough ↦
            subst (λ (p : Mem × Shard). HasRoom m p.0 s p.1 len)
              (ok-injective (rw (make_room, enough) at h)) (kept_room m s len sh enough)
        | inl open_new ↦
            let h0 = rw (make_room, open_new) at h in
            let (cap, sized, h1) = >>=-eq-ok (checked_u32 (next_slice_size s len hint)) _ h0 in
            let (placed, pushed, h2) = >>=-eq-ok (push_front al m s.slices cap) _ h1 in
            let (whole, small) = checked_u32-eq_ok (next_slice_size s len hint) sized in
            let fits : len ≤ cap = omega (arith, slice_size_bounds s len hint hl) in
            subst (λ (p : Mem × Shard). HasRoom m p.0 s p.1 len)
              (ap
                  (λ (q : Mem × SliceChain). (
                    q.0,
                    record s { slices = q.1; current_slice_used = 0; current_slice_capacity = cap },
                  ))
                  (push_front-eq_ok al m s.slices cap pushed)
                ∙ ok-injective h2)
              (opened_room m s len cap sh fits small)
      ]
