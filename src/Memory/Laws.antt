-- ===== src/Memory/Laws.antt =====
-- Reads after writes.
use charport.Prelude.{
  take-append, drop-append, sym, ◌-◌, drop, take, ◌++◌, ℕ, zero, suc, ◌+◌, ◌≤◌, ◌<◌, ◌≡◌, ◌≢◌, ◌⊎◌,
  inl, inr, ◌↔◌, refl, ap, ◌∙◌, true, List, [], ◌∷◌, length, arith,
}
use charport.Memory.{Mem, Ptr, null, at, read, write, store_byte, bytes_eq}

pub length-read : (m : Mem) (b o n : ℕ) → length (read m (at b o) n) ≡ n
unfolding read
length-read m b o zero = refl
length-read m b o (suc n) = ap suc (length-read m b (o + 1) n)

pub next-write : (m : Mem) (p : Ptr) (xs : List ℕ) → (write m p xs).next ≡ m.next
unfolding write store_byte
next-write m null xs = refl
next-write m (at b o) [] = refl
next-write m (at b o) (x ∷ xs) = next-write (store_byte m b o x) (at b (o + 1)) xs

-- A write leaves every cell outside its range alone.
pub cell-write_ne :
    (m : Mem) (b o : ℕ) (xs : List ℕ) (c q : ℕ)
    → (b ≢ c) ⊎ (q < o) ⊎ (o + length xs ≤ q)
    → (write m (at b o) xs).cell c q ≡ m.cell c q
unfolding write store_byte
cell-write_ne m b o [] c q h = refl
cell-write_ne m b o (x ∷ xs) c q h =
    ground (arith, cell-write_ne (store_byte m b o x) b (o + 1) xs c q)

pub read-write_ne :
    (m : Mem) (b o : ℕ) (xs : List ℕ) (c q n : ℕ)
    → (b ≢ c) ⊎ (q + n ≤ o) ⊎ (o + length xs ≤ q)
    → read (write m (at b o) xs) (at c q) n ≡ read m (at c q) n
unfolding read
read-write_ne m b o xs c q zero h = refl
read-write_ne m b o xs c q (suc n) h =
    ground (arith, cell-write_ne m b o xs c q, read-write_ne m b o xs c (q + 1) n)

-- What was written is read back.
pub read-write_self :
    (m : Mem) (b o : ℕ) (xs : List ℕ) → read (write m (at b o) xs) (at b o) (length xs) ≡ xs
unfolding read
read-write_self m b o [] = refl
read-write_self m b o (x ∷ xs) =
    ground (arith, head, read-write_self (store_byte m b o x) b (o + 1) xs, unfold_write)
  where
    unfold_write : write m (at b o) (x ∷ xs) ≡ write (store_byte m b o x) (at b (o + 1)) xs
    unfold_write = unfold write in refl

    head : (write m (at b o) (x ∷ xs)).cell b o ≡ x
    head = rw unfold_write (
        cell-write_ne (store_byte m b o x) b (o + 1) xs b o (inr (inl (omega arith)))
        ∙ unfold store_byte in ground arith)

pub bytes_eq_iff : (xs ys : List ℕ) → (bytes_eq xs ys ≡ true) ↔ (xs ≡ ys)
unfolding bytes_eq
bytes_eq_iff [] [] = ground arith
bytes_eq_iff [] (y ∷ ys) = ground arith
bytes_eq_iff (x ∷ xs) [] = ground arith
bytes_eq_iff (x ∷ xs) (y ∷ ys) = ground (arith, bytes_eq_iff xs ys)

pub read-append :
    (m : Mem) (b o k n : ℕ) → read m (at b o) (k + n) ≡ read m (at b o) k ++ read m (at b (o + k)) n
unfolding read
read-append m b o zero n =
    let e : 0 + n ≡ n = omega arith in
    let e' : o ≡ o + 0 = omega arith in ap (read m (at b o)) e ∙ ap (λ q. read m (at b q) n) e'
read-append m b o (suc k) n =
    let e : suc k + n ≡ suc (k + n) = omega arith in
    let e' : o + 1 + k ≡ o + suc k = omega arith in
    ap (read m (at b o)) e
    ∙ ap (λ t. m.cell b o ∷ t)
        (read-append m b (o + 1) k n ∙ ap (λ q. read m (at b (o + 1)) k ++ read m (at b q) n) e')

-- A block holds the bytes of an object from its start on.
abbrev pub Holds : Mem → ℕ → List ℕ → Type 0
Holds m b bytes = read m (at b 0) (length bytes) ≡ bytes

pub read-Holds :
    (m : Mem) (b : ℕ) (bytes : List ℕ) (o n : ℕ)
    → Holds m b bytes
    → o + n ≤ length bytes
    → read m (at b o) n ≡ take n (drop o bytes)
read-Holds m b bytes o n h fits = sym (
    ap (λ t. take n (drop o t)) (sym whole)
    ∙ ap (take n) (drop-append o (read m (at b 0) o) _ (sym (length-read m b 0 o)))
    ∙ take-append n (read m (at b (0 + o)) n) _ (sym (length-read m b (0 + o) n))
    ∙ ap (λ q. read m (at b q) n) (let e : 0 + o ≡ o = omega arith in e))
  where
    whole :
        read m (at b 0) o
          ++ (read m (at b (0 + o)) n ++ read m (at b (0 + o + n)) (length bytes - o - n))
        ≡ bytes
    whole =
        ap (λ t. read m (at b 0) o ++ t) (sym (read-append m b (0 + o) n (length bytes - o - n)))
        ∙ sym (read-append m b 0 o (n + (length bytes - o - n)))
        ∙ ap (read m (at b 0)) (omega arith)
        ∙ h

pub read_zero : (m : Mem) (p : Ptr) → read m p 0 ≡ []
unfolding read
read_zero m null = refl
read_zero m (at b o) = refl
