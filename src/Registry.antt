-- ===== src/Registry.antt =====
-- src/charport_registry.cpp: the registered ALTREP classes, and resolving a vector to a reader.
-- R's vectors and the C function pointers are parameters. A class is the address of its R object,
-- 0 if that is NULL. `init` is called on a copy of its entry; what it may do to the registry, and to
-- R, is not part of the program.
pub mod Direct
pub mod Classes
use charport.Prelude.{
  ℕ, zero, suc, ◌+◌, ◌-◌, ◌^◌, Bool, true, false, ◌&&◌, ◌||◌, not, List, [], ◌∷◌, ◌++◌, Option,
  none, some, length, ◌==◌, if◌then◌else◌, Result, ok, err, ◌>>=◌, ◌>>◌, require, callbacks_missing,
  already_registered, not_character, bad_alloc,
}

-- What R gives of a SEXP and of ALTREP classes. `string_ptr` is DATAPTR_RO or STRING_PTR_RO, which
-- materializes; `same` is the comparison of two addresses; `is_wrap_string` says that the class is
-- base's wrap_string.
pub record RVectors : Type 1 where
  pub Vec : Type 0
  pub Storage : Type 0
  pub State : Type 0
  pub is_strsxp : Vec → Bool
  pub is_altrep : Vec → Bool
  pub xlength : Vec → ℕ
  pub inherits : Vec → ℕ → Bool
  pub data1 : Vec → Vec
  pub string_ptr : Vec → Storage
  pub dataptr_or_null : Vec → Option Storage
  pub same : Vec → Vec → Bool
  pub is_wrap_string : Vec → Bool
  pub class_name : Vec → Option (List ℕ)
  pub class_package : Vec → Option (List ℕ)

-- A pointer to an access function: one of the file's own, or a provider's by its address.
pub data AccessFn : Type 0 where
  direct_strviews direct_byteviews direct_lengths direct_encodings : AccessFn
  provided : ℕ → AccessFn

-- charport_reader_range_fns and charport_reader_index_fns, which have the same fields; none is NULL.
pub record AccessFns : Type 0 where
  pub strviews : Option AccessFn
  pub byteviews : Option AccessFn
  pub lengths : Option AccessFn
  pub encodings : Option AccessFn

pub record Capabilities : Type 0 where
  pub persistent_views : Bool
  pub concurrent_access : Bool

unfoldable pub is_some {ℓ} : {A : Type ℓ} → Option A → Bool
is_some none = false
is_some (some x) = true

-- range_fns_complete and index_fns_complete
unfoldable pub fns_complete : AccessFns → Bool
fns_complete fns =
    is_some fns.strviews && is_some fns.byteviews && is_some fns.lengths && is_some fns.encodings

abbrev pub direct_fns : AccessFns
direct_fns = record {
  strviews = some direct_strviews;
  byteviews = some direct_byteviews;
  lengths = some direct_lengths;
  encodings = some direct_encodings;
}

module _ (r : RVectors) where
  open r use {
    Vec, Storage, State, is_strsxp, is_altrep, xlength, inherits, data1, string_ptr,
    dataptr_or_null, same, is_wrap_string, class_name, class_package,
  }

  -- charport_reader_state_fns; `release` is a provider's function by its address.
  pub record StateFns : Type 0 where
    pub init : Option (Vec → Option State)
    pub release : Option ℕ

  -- altrep_entry, past the test of `init`.
  pub record AltrepEntry : Type 0 where
    pub cls : ℕ
    pub init : Vec → Option State
    pub release : Option ℕ
    pub range : AccessFns
    pub index : AccessFns
    pub capabilities : Capabilities

  abbrev pub Registry : Type 0
  Registry = List AltrepEntry

  unfoldable pub has_class : ℕ → Registry → Bool
  has_class cls [] = false
  has_class cls (e ∷ es) = e.cls == cls || has_class cls es

  unfoldable pub erase_class : ℕ → Registry → Registry
  erase_class cls [] = []
  erase_class cls (e ∷ es) = let rest = erase_class cls es in if e.cls == cls then es else e ∷ rest

  -- Whether `push_back` fails for lack of memory is by the registry's size.
  unfoldable pub register_altrep :
      (ℕ → Bool) → Registry → ℕ → StateFns → AccessFns → AccessFns → Capabilities → Result Registry
  register_altrep push_fails reg cls state range index capabilities = elim state.init [
    | none ↦ err callbacks_missing
    | some init ↦ do
      require (not (cls == 0 || not (fns_complete range) || not (fns_complete index)))
          callbacks_missing
      require (not (has_class cls reg)) already_registered
      require (not (push_fails (length reg))) bad_alloc
      ok (
          reg
          ++ (record {
            cls = cls;
            init = init;
            release = state.release;
            range = range;
            index = index;
            capabilities = capabilities;
          }
              ∷ []))
  ]

  -- The first entry of the class is erased.
  unfoldable pub unregister_altrep : Registry → ℕ → Registry
  unregister_altrep reg cls = erase_class cls reg

  unfoldable pub find_registered_altrep : Registry → Vec → Option AltrepEntry
  find_registered_altrep [] x = none
  find_registered_altrep (e ∷ es) x =
      let rest = find_registered_altrep es x in if inherits x e.cls then some e else rest

  -- What `state` of a reader points at.
  pub data ReaderState : Type 0 where
    provider_state : State → ReaderState
    direct_state : Storage → ReaderState

  -- charport_reader
  pub record CharportReader : Type 0 where
    pub n : ℕ
    pub state : ReaderState
    pub release : Option ℕ
    pub range : AccessFns
    pub index : AccessFns
    pub capabilities : Capabilities

  unfoldable pub direct_reader : ℕ → Storage → CharportReader
  direct_reader n direct = record {
    n = n;
    state = direct_state direct;
    release = none;
    range = direct_fns;
    index = direct_fns;
    capabilities = record { persistent_views = true; concurrent_access = false };
  }

  -- none is `false`, which leaves the reader alone.
  unfoldable pub resolve_registered : Vec → Option AltrepEntry → ℕ → Option CharportReader
  resolve_registered x none n = none
  resolve_registered x (some entry) n = elim (entry.init x) [
    | none ↦ none
    | some state ↦ some (record {
      n = n;
      state = provider_state state;
      release = entry.release;
      range = entry.range;
      index = entry.index;
      capabilities = entry.capabilities;
    })
  ]

  -- Past the wrappers: the wrapped vector's own provider, or the R storage that it already has.
  unfoldable pub resolve_inner : Registry → Vec → Vec → ℕ → Option CharportReader
  resolve_inner reg x inner n = elim (same inner x) [
    | true ↦ none
    | false ↦ elim (resolve_registered inner (find_registered_altrep reg inner) n) [
      | some reader ↦ some reader
      | none ↦ elim (dataptr_or_null inner) [
        | some direct ↦ some (direct_reader n direct)
        | none ↦ none
      ]
    ]
  ]

  -- The loop of resolve_wrapped, with the rounds that are left.
  unfoldable pub unwrap_loop : Registry → Vec → ℕ → ℕ → Vec → Option CharportReader
  unwrap_loop reg x n zero inner = none
  unwrap_loop reg x n (suc left) inner =
      let next = data1 inner in
      let deeper = unwrap_loop reg x n left next in
      if not (is_wrap_string inner)
      then resolve_inner reg x inner n
      else if not (is_strsxp next) || not (xlength next == n)
      then none
      else if not (is_altrep next)
      then some (direct_reader n (string_ptr next))
      else deeper

  abbrev pub max_unwrap_depth : ℕ
  max_unwrap_depth = 8

  unfoldable pub resolve_wrapped : Registry → Vec → ℕ → Option CharportReader
  unfolding unwrap_loop
  resolve_wrapped reg x n = unwrap_loop reg x n max_unwrap_depth x

  -- `unwraps` is R_VERSION >= 4.6.
  unfoldable pub resolve : Bool → Registry → Vec → Result CharportReader
  resolve unwraps reg x = do
    require (is_strsxp x) not_character
    elim (is_altrep x) [
      | false ↦ ok (direct_reader (xlength x) (string_ptr x))
      | true ↦
          let n = xlength x in
          let registered = find_registered_altrep reg x in
          elim (if unwraps && not (is_some registered) then resolve_wrapped reg x n else none) [
            | some reader ↦ ok reader
            | none ↦ elim (resolve_registered x registered n) [
              | some reader ↦ ok reader
              | none ↦ ok (direct_reader n (string_ptr x))
            ]
          ]
    ]

  -- charport_sexp_info; a length of -1 is its 64-bit pattern.
  pub record SexpInfo : Type 0 where
    pub info_is_strsxp : Bool
    pub length_of : ℕ
    pub info_is_altrep : Bool
    pub is_materialized : Bool
    pub is_registered : Bool
    pub persistent_views : Bool
    pub concurrent_access : Bool
    pub stateful_reader : Bool
    pub altrep_class_name : Option (List ℕ)
    pub altrep_class_package : Option (List ℕ)

  unfoldable pub reentrant : SexpInfo → Bool
  reentrant info = info.persistent_views && info.concurrent_access

  -- What an unregistered vector and a registered one answer, beside what R says of it.
  unfoldable pub get_sexp_info : Registry → Vec → SexpInfo
  get_sexp_info reg x =
      let strsxp = is_strsxp x in
      let altrep = strsxp && is_altrep x in
      let plain : SexpInfo = record {
        info_is_strsxp = strsxp;
        length_of = if strsxp then xlength x else 2 ^ 64 - 1;
        info_is_altrep = altrep;
        is_materialized = strsxp && is_some (dataptr_or_null x);
        is_registered = false;
        persistent_views = false;
        concurrent_access = false;
        stateful_reader = false;
        altrep_class_name = none;
        altrep_class_package = none;
      } in
      if not altrep then plain else elim (find_registered_altrep reg x) [
        | none ↦ record plain {
          altrep_class_name = class_name x;
          altrep_class_package = class_package x;
        }
        | some entry ↦ record plain {
          altrep_class_name = class_name x;
          altrep_class_package = class_package x;
          is_registered = true;
          persistent_views = entry.capabilities.persistent_views;
          concurrent_access = entry.capabilities.concurrent_access;
          stateful_reader = is_some entry.release;
        }
      ]
