-- ===== src/Charpack/Encode.antt =====
-- The layout as a function of the records that it holds, and what parsing reads back from it.
-- A record is its bytes and its tag; NA and "" have no bytes.
use charport.Prelude.{
  ℕ, zero, suc, ◌+◌, ◌*◌, ◌%◌, ◌^◌, ◌≤◌, ◌<◌, ◌≡◌, refl, sym, ap, ◌∙◌, Bool, true, false, List, [],
  ◌∷◌, ◌++◌, take, drop, length, if◌then◌else◌, arith, map, take-append, drop-append, drop-drop,
  length-append, append_assoc, length-map,
}
use charport.Words.{Endian, of_bytes}
use charport.Words.Laws.{length-to_bytes, of_bytes-to_bytes}
use charport.Charpack.Layout.{
  View, parse, end_of, write_head, write_end, offset_bytes, wide_bit, header_bytes, head_wide,
  head_n,
}

pub record Rec : Type 0 where
  pub bytes : List ℕ
  pub tag : ℕ

abbrev pub total : List Rec → ℕ
total [] = 0
total (r ∷ rs) = length r.bytes + total rs

-- The end offsets of records that begin at `begin`.
unfoldable pub words : Endian → Bool → ℕ → List Rec → List ℕ
words host wide begin [] = []
words host wide begin (r ∷ rs) =
    write_end host wide (begin + length r.bytes) ++ words host wide (begin + length r.bytes) rs

abbrev pub tags_of : List Rec → List ℕ
tags_of rs = map (λ r. r.tag) rs

abbrev pub payload_of : List Rec → List ℕ
payload_of [] = []
payload_of (r ∷ rs) = r.bytes ++ payload_of rs

unfoldable pub encode : Endian → Bool → List Rec → List ℕ
encode host wide rs =
    write_head host (length rs) wide ++ (words host wide 0 rs ++ (tags_of rs ++ payload_of rs))

-- The count fits its 63 bits, and the offsets fit their width.
abbrev pub Fits : Bool → List Rec → Type 0
Fits wide rs = (length rs < 2 ^ 63) × (total rs < (if wide then 2 ^ 64 else 2 ^ 32))

abbrev pub limit_of : Bool → ℕ
limit_of wide = if wide then 2 ^ 64 else 2 ^ 32

pub length-write_end :
    (host : Endian) (wide : Bool) (e : ℕ) → length (write_end host wide e) ≡ offset_bytes wide
unfolding write_end
length-write_end host true e = length-to_bytes host 8 e
length-write_end host false e = length-to_bytes host 4 (e % 2 ^ 32)

pub length-write_head : (host : Endian) (n : ℕ) (wide : Bool) → length (write_head host n wide) ≡ 8
unfolding write_head
length-write_head host n wide = length-to_bytes host 8 _

pub length-words :
    (host : Endian) (wide : Bool) (begin : ℕ) (rs : List Rec)
    → length (words host wide begin rs) ≡ offset_bytes wide * length rs
unfolding words
length-words host wide begin [] = omega arith
length-words host wide begin (r ∷ rs) = omega (
  arith,
  length-append (write_end host wide (begin + length r.bytes))
      (words host wide (begin + length r.bytes) rs),
  length-write_end host wide (begin + length r.bytes),
  length-words host wide (begin + length r.bytes) rs,
)

pub length-payload_of : (rs : List Rec) → length (payload_of rs) ≡ total rs
length-payload_of [] = refl
length-payload_of (r ∷ rs) =
    omega (arith, length-append r.bytes (payload_of rs), length-payload_of rs)

-- An end offset that fits is read back.
of_bytes-write_end :
    (host : Endian) (wide : Bool) (e : ℕ)
    → e < limit_of wide
    → of_bytes host (write_end host wide e) ≡ e
unfolding write_end
of_bytes-write_end host true e h = of_bytes-to_bytes host 8 e (omega arith)
of_bytes-write_end host false e h =
    of_bytes-to_bytes host 4 (e % 2 ^ 32) (omega arith) ∙ omega arith

-- The sizes of the first `i` records.
abbrev pub prefix : ℕ → List Rec → ℕ
prefix zero rs = 0
prefix (suc i) [] = 0
prefix (suc i) (r ∷ rs) = length r.bytes + prefix i rs

pub prefix-le-total : (i : ℕ) (rs : List Rec) → prefix i rs ≤ total rs
prefix-le-total zero rs = omega arith
prefix-le-total (suc i) [] = omega arith
prefix-le-total (suc i) (r ∷ rs) = omega (arith, prefix-le-total i rs)

pub end_of_first :
    (host : Endian) (w : ℕ) (xs ys : List ℕ)
    → length xs ≡ w
    → end_of host w (xs ++ ys) 0 ≡ of_bytes host xs
unfolding end_of
end_of_first host w xs ys h =
    let none_dropped : w * 0 ≡ 0 = omega arith in rw (none_dropped, take-append w xs ys (sym h))

pub end_of_later :
    (host : Endian) (w i : ℕ) (xs ys : List ℕ)
    → length xs ≡ w
    → end_of host w (xs ++ ys) (suc i) ≡ end_of host w ys i
unfolding end_of
end_of_later host w i xs ys h =
    ap (λ t. of_bytes host (take w t))
      (ap (λ k. drop k (xs ++ ys)) (let e : w * suc i ≡ w + w * i = omega arith in e)
        ∙ sym (drop-drop (w * i) w (xs ++ ys))
        ∙ ap (λ t. drop (w * i) t) (drop-append w xs ys (sym h)))

-- End offset `i` is the size of the first i + 1 records.
pub end_of-words :
    (host : Endian) (wide : Bool) (i begin : ℕ) (rs : List Rec) (rest : List ℕ)
    → i < length rs
    → begin + total rs < limit_of wide
    → end_of host (offset_bytes wide) (words host wide begin rs ++ rest) i
      ≡ begin + prefix (suc i) rs
unfolding end_of words
end_of-words host wide i begin [] rest hi h = absurd (omega arith)
end_of-words host wide zero begin (r ∷ rs) rest hi h = rw append_assoc (
    end_of_first host (offset_bytes wide) (write_end host wide (begin + length r.bytes)) _
      (length-write_end host wide _)
    ∙ of_bytes-write_end host wide (begin + length r.bytes) (omega arith)
    ∙ omega arith)
end_of-words host wide (suc i) begin (r ∷ rs) rest hi h = rw append_assoc (
    end_of_later host (offset_bytes wide) i (write_end host wide (begin + length r.bytes)) _
      (length-write_end host wide _)
    ∙ end_of-words host wide i (begin + length r.bytes) rs rest (omega arith) (omega arith)
    ∙ omega arith)

-- Parsing an encoding.
module _ (host : Endian) (wide : Bool) (rs : List Rec) (fits : Fits wide rs) where
  head_value :
      of_bytes host (write_head host (length rs) wide) ≡ length rs + (if wide then wide_bit else 0)
  unfolding write_head
  head_value = of_bytes-to_bytes host 8 _ (ground arith)

  wide_value : head_wide (length rs + (if wide then wide_bit else 0)) ≡ wide
  wide_value = ground arith

  n_value : head_n (length rs + (if wide then wide_bit else 0)) ≡ length rs
  n_value = ground arith

  unfoldable pub parsed : View
  parsed = record {
    n = length rs;
    wide = wide;
    ends = words host wide 0 rs ++ (tags_of rs ++ payload_of rs);
    tags = tags_of rs ++ payload_of rs;
    bytes = payload_of rs;
    bytes_at = header_bytes + offset_bytes wide * length rs + length rs;
  }

  -- Where the count and the offsets fit, parsing an encoding gives its count and width and the places
  -- of its three regions.
  pub parse-encode : parse host (encode host wide rs) ≡ parsed
  unfolding parse encode parsed
  parse-encode =
      rw
        (
          take-append 8 (write_head host (length rs) wide) _
              (sym (length-write_head host (length rs) wide)),
          head_value,
          wide_value,
          n_value,
          drop-append 8 (write_head host (length rs) wide) _
              (sym (length-write_head host (length rs) wide)),
          drop-append (offset_bytes wide * length rs) (words host wide 0 rs) _
              (sym (length-words host wide 0 rs)),
          drop-append (length rs) (tags_of rs) _ (sym (length-map _ rs)),
        )
        refl
