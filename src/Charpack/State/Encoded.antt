-- ===== src/Charpack/State/Encoded.antt =====
-- Validation accepts every encoding of valid records in either byte order, and swapping the words in
-- place turns an encoding into the one of the other byte order.
use charport.Prelude.{
  ℕ, ◌+◌, ◌-◌, ◌*◌, ◌/◌, ◌%◌, ◌^◌, ◌<◌, ◌≡◌, refl, sym, ap, ◌∙◌, Bool, true, false, not, List, [],
  ◌∷◌, ◌++◌, length, All, if◌then◌else◌, arith, ok, take-append, drop-append, append_assoc,
  length-append, length-map, drop, ltb,
}
use native.Mathlib.Nat.{mod-eq_of_lt}
use charport.Sizes.{check_r_string_len}
use charport.Words.{Endian, to_bytes, read_u64, read_u32, bswap64}
use charport.Words.Laws.{
  differ, flip, bswap32-lt, read_u64-to_bytes, read_u32-to_bytes, swap64-to_bytes, swap32-to_bytes,
  length-to_bytes,
}
use charport.Charpack.Layout.{write_head, write_end, offset_bytes, wide_bit, head_wide, head_n}
use charport.Charpack.Encode.{
  Rec, total, words, tags_of, payload_of, encode, Fits, limit_of, length-words, length-write_head,
  length-write_end, length-payload_of,
}
use charport.Charpack.Fill.Encodes.{IsRec}
use charport.Charpack.State.{read_word, check_ends, state_error, swap_ends, swap_words}

abbrev pub head_of : Bool → List Rec → ℕ
head_of wide rs = length rs + (if wide then wide_bit else 0)

pub read_head :
    (host e : Endian) (wide : Bool) (rs : List Rec)
    → Fits wide rs
    → read_u64 host (encode e wide rs) (differ e host) ≡ head_of wide rs
unfolding encode write_head
read_head host e wide rs fits = read_u64-to_bytes host e (head_of wide rs) _ (ground arith)

pub read_word-write_end :
    (host e : Endian) (wide : Bool) (x : ℕ) (rest : List ℕ)
    → x < limit_of wide
    → read_word host (write_end e wide x ++ rest) wide (differ e host) ≡ x
unfolding read_word write_end
read_word-write_end host e true x rest h = read_u64-to_bytes host e x rest h
read_word-write_end host e false x rest h =
    let small : x % 2 ^ 32 ≡ x = omega arith in rw small (read_u32-to_bytes host e x rest h)

check_ends-words :
    (host e : Endian) (wide : Bool) (begin payload : ℕ) (rs : List Rec) (rest more : List ℕ)
    → All IsRec rs
    → payload ≡ begin + total rs
    → payload < limit_of wide
    → check_ends host wide
        (differ e host)
        payload
        (length rs)
        (words e wide begin rs ++ rest)
        (tags_of rs ++ more)
        begin
      ≡ ok tt
unfolding check_ends words check_r_string_len
check_ends-words host e wide begin payload [] rest more valid size h = ground arith
check_ends-words host e wide begin payload (r ∷ rs) rest more (valid, later) size h =
    let end : ℕ = begin + length r.bytes in
    rw (append_assoc, read_word-write_end host e wide (begin + length r.bytes) _ (omega arith))
      (rw
        (drop-append (offset_bytes wide) (write_end e wide (begin + length r.bytes)) _
          (sym (length-write_end e wide _)))
        (ground (
          arith,
          valid.valid,
          valid.short,
          valid.na_empty,
          check_ends-words host e wide (begin + length r.bytes) payload rs rest more later,
        )))

pub length-encode :
    (e : Endian) (wide : Bool) (rs : List Rec)
    → length (encode e wide rs) ≡ 8 + length rs * (offset_bytes wide + 1) + total rs
unfolding encode
length-encode e wide rs = omega (
  arith,
  length-append (write_head e (length rs) wide)
      (words e wide 0 rs ++ (tags_of rs ++ payload_of rs)),
  length-append (words e wide 0 rs) (tags_of rs ++ payload_of rs),
  length-append (tags_of rs) (payload_of rs),
  length-write_head e (length rs) wide,
  length-words e wide 0 rs,
  length-map (λ (r : Rec). r.tag) rs,
  length-payload_of rs,
)

wide_of_head :
    (wide : Bool) (rs : List Rec) → length rs < 2 ^ 63 → head_wide (head_of wide rs) ≡ wide
wide_of_head wide rs h = ground arith

n_of_head :
    (wide : Bool) (rs : List Rec) → length rs < 2 ^ 63 → head_n (head_of wide rs) ≡ length rs
n_of_head wide rs h = ground arith

pub body_of :
    (e : Endian) (wide : Bool) (rs : List Rec)
    → drop 8 (encode e wide rs) ≡ words e wide 0 rs ++ (tags_of rs ++ payload_of rs)
unfolding encode
body_of e wide rs =
    drop-append 8 (write_head e (length rs) wide) _ (sym (length-write_head e (length rs) wide))

pub after_words :
    (e : Endian) (wide : Bool) (rs : List Rec) (rest : List ℕ)
    → drop (offset_bytes wide * length rs) (words e wide 0 rs ++ rest) ≡ rest
after_words e wide rs rest =
    drop-append (offset_bytes wide * length rs) (words e wide 0 rs) rest
      (sym (length-words e wide 0 rs))

room_for :
    (n t : ℕ) (wide : Bool)
    → ltb ((8 + n * (offset_bytes wide + 1) + t - 8) / (offset_bytes wide + 1)) n ≡ false
room_for n t true = ground arith
room_for n t false = ground arith

-- Every encoding of valid records, in either byte order, is accepted on every host that knows the
-- byte order it is in.
pub state_error-encode :
    (host e : Endian) (wide : Bool) (rs : List Rec)
    → Fits wide rs
    → All IsRec rs
    → state_error host (encode e wide rs) (differ e host) ≡ ok tt
unfolding state_error
state_error-encode host e wide rs fits valid =
    let n : ℕ = length rs in
    let size : ℕ = 8 + n * (offset_bytes wide + 1) + total rs in
    let long_enough : ltb size 8 ≡ false = ground arith in
    rw
      (
        read_head host e wide rs fits,
        wide_of_head wide rs fits.0,
        n_of_head wide rs fits.0,
        length-encode e wide rs,
        body_of e wide rs,
        after_words e wide rs (tags_of rs ++ payload_of rs),
        long_enough,
        room_for n (total rs) wide,
      )
      (check_ends-words host e wide 0 (size - (8 + n * (offset_bytes wide + 1))) rs _ _ valid
        (omega arith) (omega (arith, fits.1)))

swapped_word :
    (host e : Endian) (wide : Bool) (x : ℕ) (rest : List ℕ)
    → x < limit_of wide
    → write_end host wide (read_word host (write_end e wide x ++ rest) wide true)
      ≡ write_end (flip e) wide x
unfolding read_word write_end
swapped_word host e true x rest h =
    unfold read_u64 in
    rw (take-append 8 (to_bytes e 8 x) rest (sym (length-to_bytes e 8 x)))
      (swap64-to_bytes host e x h)
swapped_word host e false x rest h =
    let small : x % 2 ^ 32 ≡ x = omega arith in
    unfold read_u32 in
    rw (small, take-append 4 (to_bytes e 4 x) rest (sym (length-to_bytes e 4 x)))
      (ap (λ t. to_bytes host 4 t) (mod-eq_of_lt (bswap32-lt _)) ∙ swap32-to_bytes host e x h)

swap_ends-words :
    (host e : Endian) (wide : Bool) (begin : ℕ) (rs : List Rec) (rest : List ℕ)
    → begin + total rs < limit_of wide
    → swap_ends host wide (length rs) (words e wide begin rs ++ rest) ≡ words (flip e) wide begin rs
unfolding swap_ends words
swap_ends-words host e wide begin [] rest h = refl
swap_ends-words host e wide begin (r ∷ rs) rest h =
    rw
      (
        append_assoc,
        swapped_word host e wide (begin + length r.bytes) _ (omega arith),
        drop-append (offset_bytes wide) (write_end e wide (begin + length r.bytes)) _
            (sym (length-write_end e wide _)),
        swap_ends-words host e wide (begin + length r.bytes) rs rest (omega arith),
      )
      refl

-- Swapping the words of an encoding in place gives the encoding in the other byte order, when the
-- head is read in the byte order that it is in.
pub swap_words-encode :
    (host e : Endian) (wide : Bool) (rs : List Rec)
    → Fits wide rs
    → swap_words host (encode e wide rs) (not (differ e host)) ≡ encode (flip e) wide rs
unfolding swap_words
swap_words-encode host e wide rs fits =
    rw
      (
        not-not (differ e host),
        read_head host e wide rs fits,
        wide_of_head wide rs fits.0,
        n_of_head wide rs fits.0,
        swapped_head,
        body_of e wide rs,
        after_words e wide rs (tags_of rs ++ payload_of rs),
        swap_ends-words host e wide 0 rs _ (omega (arith, fits.1)),
      )
      (unfold encode in refl)
  where
    not-not : (b : Bool) → not (not b) ≡ b
    not-not true = refl
    not-not false = refl

    swapped_head :
        to_bytes host 8 (bswap64 (read_u64 host (encode e wide rs) false))
        ≡ write_head (flip e) (length rs) wide
    swapped_head =
        unfold read_u64 encode write_head in
        rw (take-append 8 (to_bytes e 8 (head_of wide rs)) _ (sym (length-to_bytes e 8 _)))
          (swap64-to_bytes host e (head_of wide rs) (ground arith))
