-- ===== src/Memory.antt =====
-- Byte memory: what a `const char *` of the code points at.
-- A pointer is null or an offset in a block. A block stands for one allocation (a slice, an R
-- object, the static empty string). The contents of a block that nothing has written are whatever
-- `cell` says: memory that the allocator returns is not cleared.
pub mod Laws
use charport.Prelude.{
  ℕ, zero, suc, ◌+◌, Bool, true, false, ◌&&◌, List, [], ◌∷◌, ◌==◌, if◌then◌else◌,
}

pub data Ptr : Type 0 where
  null : Ptr
  at : ℕ → ℕ → Ptr

pub record Mem : Type 0 where
  -- The next block that the allocator hands out.
  pub next : ℕ
  pub cell : ℕ → ℕ → ℕ

abbrev pub is_null : Ptr → Bool
is_null null = true
is_null (at b o) = false

abbrev pub ptr_eq : Ptr → Ptr → Bool
ptr_eq null null = true
ptr_eq (at b o) (at c q) = b == c && o == q
ptr_eq _ _ = false

-- p + k
abbrev pub advance : Ptr → ℕ → Ptr
advance null k = null
advance (at b o) k = at b (o + k)

-- The `n` bytes from a pointer on.
unfoldable pub read : Mem → Ptr → ℕ → List ℕ
read m null n = []
read m (at b o) zero = []
read m (at b o) (suc n) = m.cell b o ∷ read m (at b (o + 1)) n

unfoldable pub store_byte : Mem → ℕ → ℕ → ℕ → Mem
store_byte m b o x = record m { cell = λ c q. if b == c && o == q then x else m.cell c q }

-- memcpy or memmove of the bytes that were read before.
unfoldable pub write : Mem → Ptr → List ℕ → Mem
write m null xs = m
write m (at b o) [] = m
write m (at b o) (x ∷ xs) = write (store_byte m b o x) (at b (o + 1)) xs

-- memcmp(a, b, n) == 0 on the bytes read.
unfoldable pub bytes_eq : List ℕ → List ℕ → Bool
bytes_eq [] [] = true
bytes_eq (x ∷ xs) (y ∷ ys) = x == y && bytes_eq xs ys
bytes_eq _ _ = false
