-- ===== src/Charvec/Builder/Release.antt =====
-- A released store owns every slice that its builder's shards filled.
use charport.Prelude.{ℕ, ◌≡◌, ◌⊎◌, inl, inr, refl, sym, List, [], ◌∷◌, ◌++◌}
use mathlib.Core.Path.{subst}
use charport.Charvec.Store.{SliceChain, prepend}
use charport.Charvec.Store.Slices.{Within, Within-append_left, Within-append_right}
use charport.Charvec.Builder.{Shard}
use charport.Charvec.Builder.Parallel.{
  ParallelBuilder, prepend_shards, finish_parallel, release_parallel,
}

prepend-append : (chain other : SliceChain) → (prepend chain other).0 ≡ other ++ chain
unfolding prepend
prepend-append chain [] = refl
prepend-append chain (s ∷ ss) = refl

-- The bytes lie in a slice of some shard.
abbrev pub WithinShards : List Shard → ℕ → ℕ → ℕ → Type 0
WithinShards [] b o len = ⊥
WithinShards (s ∷ ss) b o len = Within s.slices b o len ⊎ WithinShards ss b o len

prepend_shards-Within :
    (chain : SliceChain) (ss : List Shard) (b o len : ℕ)
    → Within chain b o len ⊎ WithinShards ss b o len
    → Within (prepend_shards chain ss) b o len
unfolding prepend_shards
prepend_shards-Within chain [] b o len (inl h) = h
prepend_shards-Within chain [] b o len (inr h) = absurd h
prepend_shards-Within chain (s ∷ ss) b o len (inl h) =
    prepend_shards-Within (prepend chain s.slices).0 ss b o len (
      inl (
        subst (λ c. Within c b o len) (sym (prepend-append chain s.slices))
          (Within-append_right s.slices chain b o len h)))
prepend_shards-Within chain (s ∷ ss) b o len (inr (inl h)) =
    prepend_shards-Within (prepend chain s.slices).0 ss b o len (
      inl (
        subst (λ c. Within c b o len) (sym (prepend-append chain s.slices))
          (Within-append_left s.slices chain b o len h)))
prepend_shards-Within chain (s ∷ ss) b o len (inr (inr h)) =
    prepend_shards-Within (prepend chain s.slices).0 ss b o len (inr h)

-- Bytes in a slice of the builder's store or of any of its shards are in a slice of the store that it
-- releases, and the store has the builder's records.
pub release_parallel-Within :
    (p : ParallelBuilder) (b o len : ℕ)
    → Within p.store.slices b o len ⊎ WithinShards p.shards b o len
    → Within (release_parallel p).0.slices b o len
      × ((release_parallel p).0.records ≡ p.store.records)
unfolding release_parallel finish_parallel
release_parallel-Within p b o len h =
    (prepend_shards-Within p.store.slices p.shards b o len h, refl)
