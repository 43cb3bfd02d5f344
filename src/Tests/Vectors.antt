-- ===== src/Tests/Vectors.antt =====
-- Vectors that are plain, packed by a registered class, or wrapped; and the registry.
use charport.Prelude.{
  ℕ, suc, ◌≡◌, refl, Bool, true, false, List, [], ◌∷◌, length, Option, none, some, ◌==◌,
  if◌then◌else◌, arith, ok, take, drop, map,
}
use charport.Charsxp.{charsxp_to_view, ce_native}
use charport.Registry.{
  RVectors, AltrepEntry, find_registered_altrep, direct_fns, register_altrep, unregister_altrep,
  StateFns, Capabilities, has_class, fns_complete, is_some,
}
use charport.Registry.Direct.{direct_strviews_range, direct_strviews_range-map}
use charport.Registry.Classes.{
  Distinct, register_altrep_lem, unregister_altrep_lem, Records, without,
}
use charport.Tests.Data.{test_strings}

pub data Vector : Type 0 where
  plain : List ℕ → Vector
  packed : List ℕ → Vector
  wrap : Vector → Vector

abbrev strings : Vector → List ℕ
strings (plain xs) = xs
strings (packed xs) = xs
strings (wrap v) = strings v

abbrev depth : Vector → ℕ
depth (plain xs) = 0
depth (packed xs) = 0
depth (wrap v) = suc (depth v)

abbrev unwrapped : Vector → Vector
unwrapped (wrap v) = v
unwrapped v = v

abbrev held : Vector → Option (List ℕ)
held (plain xs) = some xs
held v = none

abbrev is_wrap : Vector → Bool
is_wrap (wrap v) = true
is_wrap v = false

abbrev is_packed : Vector → Bool
is_packed (packed xs) = true
is_packed v = false

abbrev is_plain : Vector → Bool
is_plain (plain xs) = true
is_plain v = false

abbrev vectors : RVectors
vectors = record {
  Vec = Vector;
  Storage = List ℕ;
  State = List ℕ;
  is_strsxp = λ x. true;
  is_altrep = λ x. if is_plain x then false else true;
  xlength = λ x. length (strings x);
  inherits = λ x c. if is_packed x then c == 7 else false;
  data1 = unwrapped;
  string_ptr = strings;
  dataptr_or_null = held;
  same = λ x y. depth x == depth y;
  is_wrap_string = is_wrap;
  class_name = λ x. none;
  class_package = λ x. none;
}

abbrev entry : AltrepEntry vectors
entry = record {
  cls = 7;
  init = λ x. some (strings x);
  release = none;
  range = direct_fns;
  index = direct_fns;
  capabilities = record { persistent_views = true; concurrent_access = true };
}

abbrev provider : StateFns vectors
provider = record { init = some (λ x. some (strings x)); release = none }

abbrev both : Capabilities
both = record { persistent_views = true; concurrent_access = true }

registered :
    register_altrep vectors (λ n. false) [] 7 provider direct_fns direct_fns both ≡ ok (entry ∷ [])
unfolding register_altrep has_class fns_complete is_some
registered = refl

register_altrep_example :
    (e : AltrepEntry vectors) × Records vectors e 7 provider direct_fns direct_fns both
    × (entry ∷ [] ≡ e ∷ [])
    × Distinct vectors (entry ∷ [])
    × ((x : Vector)
        → find_registered_altrep vectors (entry ∷ []) x
          ≡ elim (find_registered_altrep vectors [] x) [
            | some d ↦ some d
            | none ↦ if (if is_packed x then 7 == 7 else false) then some e else none
          ])
    × (unregister_altrep vectors (entry ∷ []) 7 ≡ [])
register_altrep_example =
    register_altrep_lem vectors (λ n. false) [] (entry ∷ []) 7 provider direct_fns direct_fns both
      tt registered

entry-Distinct : Distinct vectors (entry ∷ [])
unfolding has_class
entry-Distinct = (refl, tt)

unregister_altrep_example :
    Distinct vectors (unregister_altrep vectors (entry ∷ []) 7)
    × (has_class vectors 7 (unregister_altrep vectors (entry ∷ []) 7) ≡ false)
    × (unregister_altrep vectors (entry ∷ []) 7 ≡ without vectors 7 (entry ∷ []))
unregister_altrep_example = unregister_altrep_lem vectors (entry ∷ []) 7 entry-Distinct

direct_strviews_range_example :
    direct_strviews_range test_strings (none ∷ some (104 ∷ [], ce_native) ∷ []) 1 1
    ≡ map (charsxp_to_view test_strings) (take 1 (drop 1 (none ∷ some (104 ∷ [], ce_native) ∷ [])))
direct_strviews_range_example =
    direct_strviews_range-map test_strings (none ∷ some (104 ∷ [], ce_native) ∷ []) 1 1
      (omega arith)
