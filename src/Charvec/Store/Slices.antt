-- ===== src/Charvec/Store/Slices.antt =====
-- Where a record's bytes lie: in a slice of the chain, or nowhere.
use charport.Prelude.{ℕ, ◌+◌, ◌≤◌, ◌<◌, ◌^◌, ◌≡◌, ◌⊎◌, inl, inr, [], ◌∷◌, ◌++◌}
use charport.Memory.{Ptr, null, at}
use charport.Interop.{StrView}
use charport.Charvec.Store.{SliceChain}

-- The bytes from offset `o` of block `b` lie within one slice.
abbrev pub Within : SliceChain → ℕ → ℕ → ℕ → Type 0
Within [] b o len = ⊥
Within (s ∷ ss) b o len = ((s.block ≡ b) × (o + len ≤ s.size)) ⊎ Within ss b o len

-- A row that the chain backs: NA, or an `int` length whose bytes lie in a slice; "" may point at the
-- static empty string.
abbrev pub BackedAt : SliceChain → Ptr → ℕ → Type 0
BackedAt ss null len = Unit {0}
BackedAt ss (at b o) len = (len < 2 ^ 31) × ((len ≡ 0) ⊎ Within ss b o len)

abbrev pub Backed : SliceChain → StrView → Type 0
Backed ss v = BackedAt ss v.ptr v.len

pub Within-append_left :
    (ss ts : SliceChain) (b o len : ℕ) → Within ss b o len → Within (ss ++ ts) b o len
Within-append_left [] ts b o len h = elim h [ ]
Within-append_left (s ∷ ss) ts b o len (inl h) = inl h
Within-append_left (s ∷ ss) ts b o len (inr h) = inr (Within-append_left ss ts b o len h)

pub Within-append_right :
    (ss ts : SliceChain) (b o len : ℕ) → Within ts b o len → Within (ss ++ ts) b o len
Within-append_right [] ts b o len h = h
Within-append_right (s ∷ ss) ts b o len h = inr (Within-append_right ss ts b o len h)
