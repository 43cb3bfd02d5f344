-- ===== src/Charvec/Builder/Storing.antt =====
-- Bytes stored in a shard: they are read back, and rows out of its free space keep theirs.
use charport.Prelude.{
  ℕ, zero, suc, ◌+◌, ◌%◌, ◌^◌, ◌<◌, ◌≡◌, inr, refl, sym, ap, ◌∙◌, false, List, ◌∷◌, length, ok,
  >>=-eq-ok, ok-injective, arith, leb, ◌==◌,
}
use mathlib.Core.Path.{ap₂, subst}
use charport.Memory.{Mem, Ptr, null, at, is_null, read, write, advance}
use charport.Memory.Laws.{read-write_ne, read-write_self, next-write}
use charport.Interop.{StrView, make_strview, strview_is_na}
use charport.Interop.Views.{content}
use charport.Charvec.Store.{Allocator, front_data}
use charport.Charvec.Builder.{Shard, make_room, take_bytes, allocate_bytes}
use charport.Charvec.Builder.Shards.{
  front_block, IsShard, SettledAt, Settled, HasRoom, make_room-HasRoom,
}

pub read-cell : (m m' : Mem) (p : Ptr) (n : ℕ) → m'.cell ≡ m.cell → read m' p n ≡ read m p n
unfolding read
read-cell m m' null n e = refl
read-cell m m' (at b o) zero e = refl
read-cell m m' (at b o) (suc n) e =
    ap₂ (λ x xs. x ∷ xs) (ap (λ c. c b o) e) (read-cell m m' (at b (o + 1)) n e)

-- Bytes outside the free space of a shard survive a write to it.
read-settled :
    (m m' : Mem) (front used len : ℕ) (bytes : List ℕ) (p : Ptr) (n : ℕ)
    → m'.cell ≡ m.cell
    → SettledAt m'.next front used p n
    → read (write m' (at front used) bytes) p n ≡ read m p n
read-settled m m' front used len bytes null n e st = unfold read in refl
read-settled m m' front used len bytes (at b o) n e (known, short, apart) =
    read-write_ne m' front used bytes b o n (ground arith) ∙ read-cell m m' (at b o) n e

-- The content of a view of `int` length is what is read at its pointer.
pub content-eq :
    (m m' : Mem) (next front used : ℕ) (v : StrView)
    → SettledAt next front used v.ptr v.len
    → read m' v.ptr v.len ≡ read m v.ptr v.len
    → content m' v ≡ content m v
unfolding content strview_is_na
content-eq m m' next front used v st e = by_ptr v.ptr st e
  where
    by_ptr :
        (p : Ptr)
        → SettledAt next front used p v.len
        → read m' p v.len ≡ read m p v.len
        → content m' (make_strview p v.len v.enc) ≡ content m (make_strview p v.len v.enc)
    by_ptr null st e = refl
    by_ptr (at b o) (known, short, apart) e =
        let nonneg : leb (2 ^ 31) v.len ≡ false = ground arith in rw (nonneg, e) refl

-- What storing bytes in a shard gives.
pub record Stored (m m' : Mem) (s s' : Shard) (dest : Ptr) (bytes : List ℕ) : Type 0 where
  pub shard : IsShard m' s'
  pub filled : is_null dest ≡ false
  pub own : SettledAt m'.next (front_block s'.slices) s'.current_slice_used dest (length bytes)
  pub held : read m' dest (length bytes) ≡ bytes
  pub kept : (v : StrView) → Settled m s v → Settled m' s' v × (content m' v ≡ content m v)

pub Stored-in_room :
    (m m1 : Mem) (s s1 : Shard) (bytes : List ℕ)
    → length bytes < 2 ^ 31
    → HasRoom m m1 s s1 (length bytes)
    → Stored m
        (write m1 (at (front_block s1.slices) s1.current_slice_used) bytes)
        s
        (take_bytes s1 (length bytes))
        (at (front_block s1.slices) s1.current_slice_used)
        bytes
unfolding take_bytes
Stored-in_room m m1 s s1 bytes short room = record {
  shard = record {
    known = rw (next-write m1 dest bytes) room.shard.known;
    capacity_lem = room.shard.capacity_lem;
    used_le = omega (arith, wrap, room.room);
    bounded = room.shard.bounded;
  };
  filled = refl;
  own = (rw (next-write m1 dest bytes) room.shard.known, short, inr (omega (arith, wrap)));
  held = read-write_self m1 (front_block s1.slices) s1.current_slice_used bytes;
  kept = λ v st. (
    moved v.ptr v.len (room.stay v st),
    content-eq m (write m1 dest bytes) m1.next (front_block s1.slices) s1.current_slice_used v
        (room.stay v st)
        (read-settled m m1 (front_block s1.slices) s1.current_slice_used (length bytes) bytes v.ptr
          v.len room.same (room.stay v st)),
  );
}
  where
    dest : Ptr
    dest = at (front_block s1.slices) s1.current_slice_used

    wrap : (s1.current_slice_used + length bytes) % 2 ^ 32 ≡ s1.current_slice_used + length bytes
    wrap = omega (arith, room.room, room.shard.bounded)

    moved :
        (p : Ptr) (n : ℕ)
        → SettledAt m1.next (front_block s1.slices) s1.current_slice_used p n
        → SettledAt
            (write m1 dest bytes).next
            (front_block s1.slices)
            ((s1.current_slice_used + length bytes) % 2 ^ 32)
            p
            n
    moved null n st = tt
    moved (at b o) n (known, short, apart) =
        (rw (next-write m1 dest bytes) known, short, ground (arith, wrap))

pub allocate_bytes-Stored :
    (al : Allocator) (m m1 : Mem) (s s1 : Shard) (hint : ℕ) (dest : Ptr) (bytes : List ℕ)
    → IsShard m s
    → 0 < length bytes
    → length bytes < 2 ^ 31
    → allocate_bytes al m s (length bytes) hint ≡ ok (dest, m1, s1)
    → Stored m (write m1 dest bytes) s s1 dest bytes × (m1.cell ≡ m.cell)
unfolding allocate_bytes
allocate_bytes-Stored al m m1 s s1 hint dest bytes sh some_bytes short h =
    let nonzero : (length bytes == 0) ≡ false = ground arith in
    let h0 = rw (allocate_bytes, nonzero) at h in
    let (room, made, h1) = >>=-eq-ok (make_room al m s (length bytes) hint) _ h0 in
    let hr = make_room-HasRoom al m room.0 s room.1 (length bytes) hint sh short made in
    let place : at (front_block room.1.slices) room.1.current_slice_used
        ≡ advance (front_data room.1.slices) room.1.current_slice_used =
      sym (
        ap (λ p. advance p room.1.current_slice_used) hr.front
        ∙ ap (at (front_block room.1.slices)) (omega arith)) in
    subst
      (λ (q : Ptr × Mem × Shard).
        Stored m (write q.1 q.0 bytes) s q.2 q.0 bytes × (q.1.cell ≡ m.cell))
      (ap (λ (p : Ptr). (p, room.0, take_bytes room.1 (length bytes))) place ∙ ok-injective h1)
      (Stored-in_room m room.0 s room.1 bytes short hr, hr.same)
