-- ===== src/Words/Laws.antt =====
-- Words in memory are read back, and the byte swaps turn one byte order into the other.
use charport.Prelude.{
  sym, take-append, if◌then◌else◌, length-reverse, ◌++◌, true, false, Bool, [], ◌∷◌, ◌∙◌, All, List,
  ℕ, zero, suc, ◌/◌, ◌^◌, ◌<◌, ◌≡◌, refl, ap, length, arith,
}
use charport.Words.{
  big, little, host_is_little_endian, write_u32_le, write_u64_le, read_u32, read_u64, of_bytes,
  to_bytes, Endian, le_bytes, le_value, bswap32, bswap64,
}
use mathlib.Core.List.{reverse-reverse, reverse_aux, reverse}
use native.Mathlib.Nat.{pow-suc}

pub length-le_bytes : (k x : ℕ) → length (le_bytes k x) ≡ k
unfolding le_bytes
length-le_bytes zero x = refl
length-le_bytes (suc k) x = ap suc (length-le_bytes k (x / 256))

pub le_value-le_bytes : (k x : ℕ) → x < 256 ^ k → le_value (le_bytes k x) ≡ x
unfolding le_bytes le_value
le_value-le_bytes zero x h = omega arith
le_value-le_bytes (suc k) x h =
    omega (arith, le_value-le_bytes k (x / 256) (omega (arith, pow-suc 256 k)))

-- On four bytes or on eight the masks and shifts reverse the bytes.
pub bswap32-reverse : (x : ℕ) → bswap32 x ≡ le_value (reverse (le_bytes 4 x))
unfolding bswap32 le_bytes le_value
bswap32-reverse x = omega arith

pub bswap64-reverse : (x : ℕ) → bswap64 x ≡ le_value (reverse (le_bytes 8 x))
unfolding bswap64 le_bytes le_value
bswap64-reverse x = omega arith

pub le_bytes-le_value :
    (bs : List ℕ) → All (λ b. b < 256) bs → le_bytes (length bs) (le_value bs) ≡ bs
unfolding le_bytes le_value
le_bytes-le_value [] h = refl
le_bytes-le_value (b ∷ bs) (hb, h) = ground (arith, le_bytes-le_value bs h)

bytes-reverse_aux :
    (bs acc : List ℕ)
    → All (λ b. b < 256) bs
    → All (λ b. b < 256) acc
    → All (λ b. b < 256) (reverse_aux bs acc)
bytes-reverse_aux [] acc h k = k
bytes-reverse_aux (b ∷ bs) acc (hb, h) k = bytes-reverse_aux bs (b ∷ acc) h (hb, k)

pub le_bytes_small : (k x : ℕ) → All (λ b. b < 256) (le_bytes k x)
unfolding le_bytes
le_bytes_small zero x = tt
le_bytes_small (suc k) x = (omega arith, le_bytes_small k (x / 256))

reverse-eq_aux : (bs : List ℕ) → All (λ b. b < 256) bs → All (λ b. b < 256) (reverse bs)
reverse-eq_aux bs h = bytes-reverse_aux bs [] h tt

-- Swapping the bytes of a 64-bit word twice gives the word.
pub bswap64-bswap64 : (x : ℕ) → x < 2 ^ 64 → bswap64 (bswap64 x) ≡ x
unfolding le_bytes
bswap64-bswap64 x h =
    bswap64-reverse (bswap64 x)
    ∙ ap (λ t. le_value (reverse (le_bytes 8 t))) (bswap64-reverse x)
    ∙ ap (λ t. le_value (reverse t))
        (le_bytes-le_value (reverse (le_bytes 8 x))
          (reverse-eq_aux (le_bytes 8 x) (le_bytes_small 8 x)))
    ∙ ap le_value (reverse-reverse (le_bytes 8 x))
    ∙ le_value-le_bytes 8 x (omega arith)

pub bswap32-bswap32 : (x : ℕ) → x < 2 ^ 32 → bswap32 (bswap32 x) ≡ x
unfolding le_bytes
bswap32-bswap32 x h =
    bswap32-reverse (bswap32 x)
    ∙ ap (λ t. le_value (reverse (le_bytes 4 t))) (bswap32-reverse x)
    ∙ ap (λ t. le_value (reverse t))
        (le_bytes-le_value (reverse (le_bytes 4 x))
          (reverse-eq_aux (le_bytes 4 x) (le_bytes_small 4 x)))
    ∙ ap le_value (reverse-reverse (le_bytes 4 x))
    ∙ le_value-le_bytes 4 x (omega arith)

-- The byte order of the host other than that of the state.
abbrev pub differ : Endian → Endian → Bool
differ little little = false
differ little big = true
differ big little = true
differ big big = false

pub length-to_bytes : (e : Endian) (k x : ℕ) → length (to_bytes e k x) ≡ k
unfolding to_bytes
length-to_bytes little k x = length-le_bytes k x
length-to_bytes big k x = length-reverse (le_bytes k x) ∙ length-le_bytes k x

pub of_bytes-to_bytes : (e : Endian) (k x : ℕ) → x < 256 ^ k → of_bytes e (to_bytes e k x) ≡ x
unfolding of_bytes to_bytes
of_bytes-to_bytes little k x h = le_value-le_bytes k x h
of_bytes-to_bytes big k x h = ap le_value (reverse-reverse (le_bytes k x)) ∙ le_value-le_bytes k x h

-- A 64-bit word that was written in either byte order is read back on every host, with a swap where
-- the two byte orders differ.
pub read_u64-to_bytes :
    (host e : Endian) (x : ℕ) (rest : List ℕ)
    → x < 2 ^ 64
    → read_u64 host (to_bytes e 8 x ++ rest) (differ e host) ≡ x
unfolding read_u64
read_u64-to_bytes host e x rest h =
    rw (take-append 8 (to_bytes e 8 x) rest (sym (length-to_bytes e 8 x))) (both host e)
  where
    both :
        (host e : Endian)
        → (let out = of_bytes host (to_bytes e 8 x) in if differ e host then bswap64 out else out)
          ≡ x
    both little little = of_bytes-to_bytes little 8 x h
    both big big = of_bytes-to_bytes big 8 x h
    both little big = unfold of_bytes to_bytes in rw (← bswap64-reverse x) (bswap64-bswap64 x h)
    both big little = unfold of_bytes to_bytes in rw (← bswap64-reverse x) (bswap64-bswap64 x h)

pub read_u32-to_bytes :
    (host e : Endian) (x : ℕ) (rest : List ℕ)
    → x < 2 ^ 32
    → read_u32 host (to_bytes e 4 x ++ rest) (differ e host) ≡ x
unfolding read_u32
read_u32-to_bytes host e x rest h =
    rw (take-append 4 (to_bytes e 4 x) rest (sym (length-to_bytes e 4 x))) (both host e)
  where
    both :
        (host e : Endian)
        → (let out = of_bytes host (to_bytes e 4 x) in if differ e host then bswap32 out else out)
          ≡ x
    both little little = of_bytes-to_bytes little 4 x h
    both big big = of_bytes-to_bytes big 4 x h
    both little big = unfold of_bytes to_bytes in rw (← bswap32-reverse x) (bswap32-bswap32 x h)
    both big little = unfold of_bytes to_bytes in rw (← bswap32-reverse x) (bswap32-bswap32 x h)

-- On every host `write_u64_le` puts down the bytes of a 64-bit word in little-endian order.
pub write_u64_le-to_bytes :
    (host : Endian) (x : ℕ) → x < 2 ^ 64 → write_u64_le host x ≡ to_bytes little 8 x
unfolding write_u64_le host_is_little_endian to_bytes le_bytes
write_u64_le-to_bytes little x h = refl
write_u64_le-to_bytes big x h =
    ap (λ t. reverse (le_bytes 8 t)) (bswap64-reverse x)
    ∙ ap reverse (
        le_bytes-le_value (reverse (le_bytes 8 x))
          (reverse-eq_aux (le_bytes 8 x) (le_bytes_small 8 x)))
    ∙ reverse-reverse (le_bytes 8 x)

pub write_u32_le-to_bytes :
    (host : Endian) (x : ℕ) → x < 2 ^ 32 → write_u32_le host x ≡ to_bytes little 4 x
unfolding write_u32_le host_is_little_endian to_bytes le_bytes
write_u32_le-to_bytes little x h = refl
write_u32_le-to_bytes big x h =
    ap (λ t. reverse (le_bytes 4 t)) (bswap32-reverse x)
    ∙ ap reverse (
        le_bytes-le_value (reverse (le_bytes 4 x))
          (reverse-eq_aux (le_bytes 4 x) (le_bytes_small 4 x)))
    ∙ reverse-reverse (le_bytes 4 x)

abbrev pub flip : Endian → Endian
flip little = big
flip big = little

-- Swapping the bytes of a 64-bit word in place turns its byte order into the other, on every host.
pub swap64-to_bytes :
    (host e : Endian) (x : ℕ)
    → x < 2 ^ 64
    → to_bytes host 8 (bswap64 (of_bytes host (to_bytes e 8 x))) ≡ to_bytes (flip e) 8 x
swap64-to_bytes little little x h = rw (of_bytes-to_bytes little 8 x h) (
    unfold to_bytes in
    ap (le_bytes 8) (bswap64-reverse x)
    ∙ unfold le_bytes in
      le_bytes-le_value (reverse (le_bytes 8 x))
        (reverse-eq_aux (le_bytes 8 x) (le_bytes_small 8 x)))
swap64-to_bytes big big x h = rw (of_bytes-to_bytes big 8 x h) (write_u64_le-to_bytes' x h)
  where
    write_u64_le-to_bytes' : (x : ℕ) → x < 2 ^ 64 → to_bytes big 8 (bswap64 x) ≡ to_bytes little 8 x
    write_u64_le-to_bytes' x h =
        unfold write_u64_le host_is_little_endian to_bytes le_bytes in write_u64_le-to_bytes big x h
swap64-to_bytes little big x h =
    unfold to_bytes of_bytes in rw (← bswap64-reverse x) (ap (le_bytes 8) (bswap64-bswap64 x h))
swap64-to_bytes big little x h =
    unfold to_bytes of_bytes in
    rw (← bswap64-reverse x) (ap (λ t. reverse (le_bytes 8 t)) (bswap64-bswap64 x h))

pub swap32-to_bytes :
    (host e : Endian) (x : ℕ)
    → x < 2 ^ 32
    → to_bytes host 4 (bswap32 (of_bytes host (to_bytes e 4 x))) ≡ to_bytes (flip e) 4 x
swap32-to_bytes little little x h = rw (of_bytes-to_bytes little 4 x h) (
    unfold to_bytes in
    ap (le_bytes 4) (bswap32-reverse x)
    ∙ unfold le_bytes in
      le_bytes-le_value (reverse (le_bytes 4 x))
        (reverse-eq_aux (le_bytes 4 x) (le_bytes_small 4 x)))
swap32-to_bytes big big x h = rw (of_bytes-to_bytes big 4 x h) (swapped x h)
  where
    swapped : (x : ℕ) → x < 2 ^ 32 → to_bytes big 4 (bswap32 x) ≡ to_bytes little 4 x
    swapped x h =
        unfold write_u32_le host_is_little_endian to_bytes le_bytes in write_u32_le-to_bytes big x h
swap32-to_bytes little big x h =
    unfold to_bytes of_bytes in rw (← bswap32-reverse x) (ap (le_bytes 4) (bswap32-bswap32 x h))
swap32-to_bytes big little x h =
    unfold to_bytes of_bytes in
    rw (← bswap32-reverse x) (ap (λ t. reverse (le_bytes 4 t)) (bswap32-bswap32 x h))

pub bswap32-lt : (x : ℕ) → bswap32 x < 2 ^ 32
unfolding bswap32
bswap32-lt x = omega arith

pub bswap64-lt : (x : ℕ) → bswap64 x < 2 ^ 64
unfolding bswap64
bswap64-lt x = omega arith
