-- ===== src/Prelude/Results.antt =====
-- What a call that may raise gives: a value, or the error that it raises.
use mathlib.Core.Path.{◌≡◌, refl}
use mathlib.Core.Bool.{Bool, true, false}
use mathlib.Core.Logic.{◌⊎◌, inl, inr}
use mathlib.Core.List.{List, [], ◌∷◌}

-- The reasons for which the code raises an R error or throws, one for each message or exception.
pub data Error : Type 0 where
  not_a_charpack not_unfilled null_arrays negative_length negative_at bad_encoding : Error
  size_overflow raw_too_long slice_null slice_overflow slice_mismatch : Error
  bad_state_type state_truncated bad_format bad_endian_flag header_truncated : Error
  embedded_nul string_too_long na_not_empty payload_truncated trailing_bytes length_too_big : Error
  ends_out_of_order : Error
  bad_alloc length_error out_of_range out_of_bounds no_shards : Error
  callbacks_missing already_registered not_character : Error
  access_failed : Error
  not_a_charvec store_released bad_length not_one_string negative_size : Error

-- `err` comes with the reason; nothing else is known of a call that raised.
pub data Result {u} (X : Type u) : Type u where
  err : Error → Result X
  ok : X → Result X

-- Raises unless the test holds.
abbrev pub require : Bool → Error → Result (Unit {0})
require test reason = elim test [ true ↦ ok tt | false ↦ err reason ]

-- The rest of a block runs on the value of its first call, if that has one.
infixl 5 ◌>>=◌
abbrev pub ◌>>=◌ {u v} : {X : Type u} {Y : Type v} → Result X → (X → Result Y) → Result Y
err reason >>= rest = err reason
ok x >>= rest = rest x

infixl 5 ◌>>◌
abbrev pub ◌>>◌ {v} : {Y : Type v} → Result (Unit {0}) → Result Y → Result Y
checked >> rest = checked >>= λ u. rest

pub ok-injective {u} : {X : Type u} {x y : X} → ok x ≡ ok y → x ≡ y
ok-injective same = cc

pub require-eq_ok {u} :
    {X : Type u} (test : Bool) (reason : Error) (rest : Result X) {x : X}
    → (require test reason >> rest) ≡ ok x
    → (test ≡ true) × (rest ≡ ok x)
require-eq_ok false reason rest done = cc
require-eq_ok true reason rest done = (refl, done)

-- The results of a call on each element in turn, or the error of the first that raises.
abbrev pub collect : {X Y : Type 0} → (X → Result Y) → List X → Result (List Y)
collect f [] = ok []
collect f (x ∷ xs) = do y ← f x; ys ← collect f xs; ok (y ∷ ys)

-- Inversion of a block that succeeds.
pub >>=-eq-ok {u v} :
    {X : Type u} {Y : Type v} (call : Result X) (rest : X → Result Y) {y : Y}
    → (call >>= rest) ≡ ok y
    → (x : X) × (call ≡ ok x) × (rest x ≡ ok y)
>>=-eq-ok (err reason) rest done = cc
>>=-eq-ok (ok x) rest done = (x, refl, done)

pub Result-cases :
    {X : Type 0} (call : Result X)
    → ((x : X) × (call ≡ ok x)) ⊎ ((reason : Error) × (call ≡ err reason))
Result-cases (err reason) = inr (reason, refl)
Result-cases (ok x) = inl (x, refl)

pub err-ne-ok {u} : {X : Type u} {reason : Error} {x : X} → err reason ≡ ok x → ⊥
err-ne-ok same = cc

pub >>=-eq {u v} :
    {X : Type u} {Y : Type v} (call : Result X) (f g : X → Result Y)
    → ((x : X) → f x ≡ g x)
    → (call >>= f) ≡ (call >>= g)
>>=-eq call f g same = λ j. call >>= λ x. same x j
