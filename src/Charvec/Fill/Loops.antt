-- ===== src/Charvec/Fill/Loops.antt =====
-- What the loops that fill a builder leave in it.
use charport.Charvec.Fill.{set_views}
use charport.Charvec.Builder.Records.{set_view-HoldsAt}
use charport.Charvec.Builder.Shards.{Settled}
use charport.Charvec.Store.{Allocator}
use charport.Interop.{StrView}
use charport.Charvec.Builder.Contents.{contents, IsBuilder}
use charport.Charvec.Builder.{set_view, Shard}
use charport.Charvec.Builder.Serial.{with_placed, Builder, set_strview}
use charport.Interop.Views.{content, Str}
use charport.Prelude.{
  append_assoc, length-append, ℕ, ◌+◌, ◌≡◌, refl, sym, ap, ◌∙◌, List, [], ◌∷◌, ◌++◌, length, All,
  All-of, map, map-eq, set, replicate, ok, >>=-eq-ok, ok-injective, arith, none, set-append,
}
use charport.Memory.{Mem}
use mathlib.Core.Path.{subst}

-- The strings put from index `i` on.
unfoldable pub set_from : ℕ → List Str → List Str → List Str
set_from i [] old = old
set_from i (c ∷ cs) old = set_from (i + 1) cs (set old i c)

pub set_from-append :
    (pre cs : List Str) → set_from (length pre) cs (pre ++ replicate (length cs) none) ≡ pre ++ cs
unfolding set_from
set_from-append pre [] = refl
set_from-append pre (c ∷ cs) =
    ap (set_from (length pre + 1) cs) (set-append pre (replicate (length cs) none) none c)
    ∙ ap (λ k. set_from k cs (pre ++ (c ∷ replicate (length cs) none)))
        (omega (arith, length-append pre (c ∷ [])))
    ∙ ap (set_from (length (pre ++ (c ∷ []))) cs) (sym (append_assoc pre (c ∷ []) _))
    ∙ set_from-append (pre ++ (c ∷ [])) cs
    ∙ append_assoc pre (c ∷ []) cs

-- What a step of a loop changes: the builder stays well formed, its list of strings becomes `cs`,
-- and what was settled keeps its strings.
pub record Advances (m m' : Mem) (b b' : Builder) (cs : List Str) : Type 0 where
  pub whole : IsBuilder m' b'
  pub strings : contents m' b' ≡ cs
  pub kept :
      (v : StrView) → Settled m b.shard v → Settled m' b'.shard v × (content m' v ≡ content m v)

pub set_strview-Advances :
    (al : Allocator) (m m' : Mem) (b b' : Builder) (i : ℕ) (v : StrView)
    → IsBuilder m b
    → set_strview al m b i v ≡ ok (m', b')
    → Advances m m' b b' (set (contents m b) i (content m v))
unfolding set_strview with_placed
set_strview-Advances al m m' b b' i v (sh, settled) h =
    let (p, done, h1) = >>=-eq-ok (set_view al m b.shard b.store.records i v) _ h in
    let (within, st) = set_view-HoldsAt al m b.shard b.store.records i v p sh settled done in
    subst (λ (q : Mem × Builder). Advances m q.0 b q.1 (set (contents m b) i (content m v)))
      (ok-injective h1)
      (record { whole = (st.shard, st.settled); strings = st.contents; kept = st.kept })

pub kept_views :
    (m m' : Mem) (s s' : Shard) (vs : List StrView)
    → ((v : StrView) → Settled m s v → Settled m' s' v × (content m' v ≡ content m v))
    → All (Settled m s) vs
    → All (Settled m' s') vs × (map (content m') vs ≡ map (content m) vs)
kept_views m m' s s' vs kept h = (
  All-of (Settled m s) (Settled m' s') vs (λ w k. (kept w k).0) h,
  map-eq (content m') (content m) vs
      (All-of (Settled m s) (λ w. content m' w ≡ content m w) vs (λ w k. (kept w k).1) h),
)

pub set_views-Advances :
    (al : Allocator) (m m' : Mem) (b b' : Builder) (i : ℕ) (vs : List StrView)
    → IsBuilder m b
    → All (Settled m b.shard) vs
    → set_views al m b i vs ≡ ok (m', b')
    → Advances m m' b b' (set_from i (map (content m) vs) (contents m b))
unfolding set_views set_from
set_views-Advances al m m' b b' i [] whole settled h =
    subst (λ (q : Mem × Builder). Advances m q.0 b q.1 (contents m b)) (ok-injective h)
      (record { whole = whole; strings = refl; kept = λ v k. (k, refl) })
set_views-Advances al m m' b b' i (v ∷ vs) whole (own, settled) h =
    let (q, one, h1) = >>=-eq-ok (set_strview al m b i v) _ h in
    let st = set_strview-Advances al m q.0 b q.1 i v whole one in
    let (still, same) = kept_views m q.0 b.shard q.1.shard vs st.kept settled in
    let rest = set_views-Advances al q.0 m' q.1 b' (i + 1) vs st.whole still h1 in
    record {
      whole = rest.whole;
      strings = rest.strings ∙ rw (same, st.strings) refl;
      kept = λ w k.
          ((rest.kept w (st.kept w k).0).0, (rest.kept w (st.kept w k).0).1 ∙ (st.kept w k).1);
    }
