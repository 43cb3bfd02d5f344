-- ===== src/Charpack/State/Trip.antt =====
-- A charpack that is sent through a serialized state, from one host and locale to another.
use charport.Prelude.{
  ℕ, zero, suc, ◌+◌, ◌*◌, ◌≡◌, refl, sym, ap, ◌∙◌, Bool, true, false, ◌&&◌, ◌||◌, not, List, [],
  ◌∷◌, ◌++◌, length, All, Result, arith, take, drop, map, if◌then◌else◌, ok, ◌==◌, Bool-cases, inl,
  inr, take-append, length-map, length-append, append_assoc, ltb, drop_all, collect, ◌>>=◌,
  Result-cases,
}
use charport.Interop.{cetype_native, cetype_utf8, cetype_na}
use charport.Charsxp.{RStrings, to_base_encoding, Cetype, ce_native, ce_utf8, ce_latin1, ce_bytes}
use charport.Words.{Endian, little, big, host_is_little_endian}
use charport.Words.Laws.{differ}
use charport.Charpack.Layout.{offset_bytes, write_head}
use charport.Charpack.Encode.{
  Rec, words, tags_of, payload_of, encode, Fits, prefix, parsed, parse-encode, length-words,
  length-write_head,
}
use native.Mathlib.Numerals.{add-one}
use charport.Charpack.Access.{n-parsed, tag-parsed, bytes-parsed, drop-rec_at, end_at-parsed}
use charport.Charpack.Fill.{filled}
use charport.Charpack.Fill.Encodes.{IsRec}
use charport.Charpack.State.{
  has_byte, has_native, retag, retag_raw, strings_loop, strings, serialized_state, unserialize,
  StateValue, strings_state, raw_state, Restored, character, packed, swap_words,
}
use charport.Charpack.State.Encoded.{state_error-encode, swap_words-encode}

unfoldable pub native_in : List Rec → Bool
native_in [] = false
native_in (r ∷ rs) = r.tag == cetype_native || native_in rs

-- A native record, said to be UTF-8.
abbrev pub as_utf8 : Rec → Rec
as_utf8 r = record r { tag = if r.tag == cetype_native then cetype_utf8 else r.tag }

-- R's mark of the strings with each tag; ASCII needs none.
abbrev pub mark : ℕ → Cetype
mark zero = ce_native
mark (suc zero) = ce_utf8
mark (suc (suc zero)) = ce_latin1
mark (suc (suc (suc zero))) = ce_bytes
mark tag = if tag == 100 then ce_utf8 else ce_native

to_base_encoding-mark : (tag : ℕ) → to_base_encoding tag ≡ mark tag
unfolding to_base_encoding
to_base_encoding-mark zero = refl
to_base_encoding-mark (suc zero) = refl
to_base_encoding-mark (suc (suc zero)) = refl
to_base_encoding-mark (suc (suc (suc zero))) = refl
to_base_encoding-mark (suc (suc (suc (suc tag)))) = ground arith

-- The R string of a record, or the error with which R refuses to make it.
abbrev pub charsxp_of : (r : RStrings) → Rec → Result r.Charsxp
charsxp_of r x =
    if x.tag == cetype_na then ok r.na_string else r.mk_char_len_ce x.bytes (mark x.tag)

has_byte-tags :
    (rs : List Rec) (more : List ℕ)
    → has_byte cetype_native (take (length rs) (tags_of rs ++ more)) ≡ native_in rs
unfolding has_byte native_in
has_byte-tags [] more = refl
has_byte-tags (r ∷ rs) more = rw (has_byte-tags rs more)

native_none : (rs : List Rec) → ltb 0 (length rs) ≡ false → native_in rs ≡ false
unfolding native_in
native_none [] h = refl
native_none (r ∷ rs) h = absurd (ground arith)

module _ (host : Endian) (wide : Bool) (rs : List Rec) (fits : Fits wide rs) where
  pub has_native-encode : has_native host (encode host wide rs) ≡ native_in rs
  unfolding has_native
  has_native-encode = rw (parse-encode host wide rs fits) (unfold parsed in found)
    where
      found :
          (ltb 0 (length rs)
            && has_byte cetype_native (take (length rs) (tags_of rs ++ payload_of rs)))
          ≡ native_in rs
      found = elim (Bool-cases (ltb 0 (length rs))) [
        | inl e ↦ rw e (has_byte-tags rs (payload_of rs))
        | inr e ↦ rw e (sym (native_none rs e))
      ]

retag-tags :
    (rs : List Rec) (more : List ℕ)
    → retag (length rs) (tags_of rs ++ more) ≡ tags_of (map as_utf8 rs) ++ more
unfolding retag
retag-tags [] more = refl
retag-tags (r ∷ rs) more = rw (retag-tags rs more)

words-as_utf8 :
    (host : Endian) (wide : Bool) (begin : ℕ) (rs : List Rec)
    → words host wide begin (map as_utf8 rs) ≡ words host wide begin rs
unfolding words
words-as_utf8 host wide begin [] = refl
words-as_utf8 host wide begin (r ∷ rs) = rw (words-as_utf8 host wide (begin + length r.bytes) rs)

payload-as_utf8 : (rs : List Rec) → payload_of (map as_utf8 rs) ≡ payload_of rs
payload-as_utf8 [] = refl
payload-as_utf8 (r ∷ rs) = rw (payload-as_utf8 rs)

module _ (host : Endian) (wide : Bool) (rs : List Rec) (fits : Fits wide rs) where
  front : List ℕ
  front = write_head host (length rs) wide ++ words host wide 0 rs

  length-front : 8 + offset_bytes wide * length rs ≡ length front
  unfolding front
  length-front = omega (
    arith,
    length-append (write_head host (length rs) wide) (words host wide 0 rs),
    length-write_head host (length rs) wide,
    length-words host wide 0 rs,
  )

  encode-front : encode host wide rs ≡ front ++ (tags_of rs ++ payload_of rs)
  unfolding encode front
  encode-front = sym (append_assoc (write_head host (length rs) wide) (words host wide 0 rs) _)

  -- Rewriting the tags in place leaves the encoding of the same strings, said to be UTF-8.
  pub retag_raw-encode : retag_raw host (encode host wide rs) ≡ encode host wide (map as_utf8 rs)
  unfolding retag_raw
  retag_raw-encode = rw (parse-encode host wide rs fits) (
      unfold parsed in
      rw
        (
          encode-front,
          take-append (8 + offset_bytes wide * length rs) front (tags_of rs ++ payload_of rs)
              length-front,
          retag-tags rs (payload_of rs),
        )
        (unfold encode front in
          rw (length-map as_utf8 rs, words-as_utf8 host wide 0 rs, payload-as_utf8 rs)
            (append_assoc (write_head host (length rs) wide) (words host wide 0 rs) _)))

  module _ (r : RStrings) (utf8 : Bool) where
    strings_loop-encode :
        (k i : ℕ)
        → i + k ≡ length rs
        → strings_loop r host utf8 (parsed host wide rs fits) k i (prefix i rs)
          ≡ collect (charsxp_of r) (drop i rs)
    unfolding strings_loop
    strings_loop-encode zero i e = rw (drop_all i rs (omega arith)) refl
    strings_loop-encode (suc k) i e =
        rw
          (
            end_at-parsed host wide rs fits i (omega arith),
            tag-parsed host wide rs fits i (omega arith),
            bytes-parsed host wide rs fits i (omega arith),
            to_base_encoding-mark,
            add-one,
            strings_loop-encode k (suc i) (omega arith),
            drop-rec_at rs i (omega arith),
          )
          refl

    -- The strings of an encoding are those that R makes of its records in their order, or the error
    -- of the first that R refuses to make.
    pub strings-encode : strings r host utf8 (encode host wide rs) ≡ collect (charsxp_of r) rs
    unfolding strings
    strings-encode = rw (parse-encode host wide rs fits) (
        ap (λ n. strings_loop r host utf8 (parsed host wide rs fits) n 0 0)
          (n-parsed host wide rs fits)
        ∙ strings_loop-encode (length rs) 0 (omega arith))

not-differ : (host : Endian) → not (host_is_little_endian host) ≡ differ little host
unfolding host_is_little_endian
not-differ little = refl
not-differ big = refl

-- What a filled charpack sends: the strings themselves when a native record could not be told from
-- UTF-8, or the error of the first that R refuses to make; else the encoding in little-endian order
-- whatever the host.
pub serialized_state-encode :
    (r : RStrings) (host : Endian) (wide utf8 : Bool) (rs : List Rec)
    → Fits wide rs
    → serialized_state r host utf8 (filled (encode host wide rs)) ≡ (
        if native_in rs && not utf8
        then (collect (charsxp_of r) rs >>= λ xs. ok (strings_state xs))
        else ok (raw_state (encode little wide rs)))
unfolding serialized_state
serialized_state-encode r host wide utf8 rs fits =
    rw (has_native-encode host wide rs fits, strings-encode host wide rs fits r utf8)
      (ap
        (λ t.
          if native_in rs && not utf8
          then (collect (charsxp_of r) rs >>= λ xs. ok (strings_state xs))
          else t)
        (sent host))
  where
    sent :
        (host : Endian)
        → ◌≡◌ {A = Result (StateValue r.Charsxp)}
            (if host_is_little_endian host
              then ok (raw_state (encode host wide rs))
              else ok (raw_state (swap_words host (encode host wide rs) true)))
            (ok (raw_state (encode little wide rs)))
    sent little = unfold host_is_little_endian in refl
    sent big =
        unfold host_is_little_endian in
        ap (λ t. ok (raw_state t)) (swap_words-encode big big wide rs fits)

-- Unserializing a little-endian encoding of valid records on any host succeeds, and gives the
-- encoding in that host's byte order, native records made UTF-8 outside a UTF-8 locale.
pub unserialize-encode :
    (r : RStrings) (host : Endian) (wide utf8 : Bool) (rs : List Rec)
    → Fits wide rs
    → All IsRec rs
    → unserialize r host utf8 (raw_state (encode little wide rs))
      ≡ ok (
          packed
            (filled (encode host wide (if native_in rs && not utf8 then map as_utf8 rs else rs))))
unfolding unserialize
unserialize-encode r host wide utf8 rs fits valid =
    rw
      (
        not-differ host,
        state_error-encode host little wide rs fits valid,
        restored host,
        has_native-encode host wide rs fits,
        retag_raw-encode host wide rs fits,
      )
      (chosen (native_in rs && not utf8))
  where
    chosen :
        (b : Bool)
        → ◌≡◌ {A = Result (Restored r.Charsxp)}
            (ok (
              packed
                (filled (if b then encode host wide (map as_utf8 rs) else encode host wide rs))))
            (ok (packed (filled (encode host wide (if b then map as_utf8 rs else rs)))))
    chosen true = refl
    chosen false = refl

    restored :
        (host : Endian)
        → (if differ little host
            then swap_words host (encode little wide rs) false
            else encode little wide rs)
          ≡ encode host wide rs
    restored little = refl
    restored big = swap_words-encode big little wide rs fits

-- A filled charpack of valid records that is serialized on one host and unserialized on another,
-- whatever their byte orders: it comes back packed with the same records, in the byte order of the
-- second host, the native ones said to be UTF-8 if the second locale is not UTF-8; or, if it holds a
-- native record and the first locale is not UTF-8, as the character vector of its strings, or the error
-- of the first of them that R refuses to make (as with an embedded NUL).
pub unserialize-serialized_state :
    (r : RStrings) (sender receiver : Endian) (wide utf8_out utf8_in : Bool) (rs : List Rec)
    → Fits wide rs
    → All IsRec rs
    → (serialized_state r sender utf8_out (filled (encode sender wide rs))
        >>= unserialize r receiver utf8_in)
      ≡ (if native_in rs && not utf8_out
          then (collect (charsxp_of r) rs >>= λ xs. ok (character xs))
          else ok (
              packed (
                filled (
                  encode receiver wide
                    (if native_in rs && not utf8_in then map as_utf8 rs else rs)))))
unserialize-serialized_state r sender receiver wide utf8_out utf8_in rs fits valid =
    rw (serialized_state-encode r sender wide utf8_out rs fits)
      (received (native_in rs && not utf8_out))
  where
    received :
        (as_strings : Bool)
        → ((if as_strings
              then (collect (charsxp_of r) rs >>= λ xs. ok (strings_state xs))
              else ok (raw_state (encode little wide rs)))
            >>= unserialize r receiver utf8_in)
          ≡ (if as_strings
              then (collect (charsxp_of r) rs >>= λ xs. ok (character xs))
              else ok (
                  packed (
                    filled (
                      encode receiver wide
                        (if native_in rs && not utf8_in then map as_utf8 rs else rs)))))
    received true = elim (Result-cases (collect (charsxp_of r) rs)) [
      | inl (xs, e) ↦ rw e (unfold unserialize in refl)
      | inr (reason, e) ↦ rw e refl
    ]
    received false = unserialize-encode r receiver wide utf8_in rs fits valid
