-- ===== src/Registry/Classes.antt =====
-- The registry holds each class at most once, and registering, unregistering and finding agree.
use charport.Prelude.{
  Option-cases, ℕ, ◌≡◌, refl, sym, ap, ◌∙◌, Bool, false, ◌||◌, [], ◌∷◌, ◌++◌, none, some, ◌==◌,
  if◌then◌else◌, arith, ok, not, length, require-eq_ok, err-ne-ok, ok-injective, Bool-cases, inl,
  inr, already_registered, bad_alloc, callbacks_missing,
}
use charport.Registry.{
  RVectors, AccessFns, Capabilities, StateFns, AltrepEntry, Registry, has_class, erase_class,
  register_altrep, unregister_altrep, find_registered_altrep, fns_complete,
}

module _ (r : RVectors) where
  open r use {Vec, inherits}

  -- No class twice.
  abbrev pub Distinct : Registry r → Type 0
  Distinct [] = Unit {0}
  Distinct (e ∷ es) = (has_class r e.cls es ≡ false) × Distinct es

  -- An entry that holds what was registered.
  abbrev pub Records :
      AltrepEntry r → ℕ → StateFns r → AccessFns → AccessFns → Capabilities → Type 0
  Records e cls state range index caps =
      (e.cls ≡ cls)
      × (some e.init ≡ state.init)
      × (e.release ≡ state.release)
      × (e.range ≡ range)
      × (e.index ≡ index)
      × (e.capabilities ≡ caps)

  -- The entries of other classes, in their order.
  abbrev pub without : ℕ → Registry r → Registry r
  without cls [] = []
  without cls (e ∷ es) = if e.cls == cls then without cls es else e ∷ without cls es

  without-absent :
      (cls : ℕ) (reg : Registry r) → has_class r cls reg ≡ false → without cls reg ≡ reg
  unfolding has_class
  without-absent cls [] h = refl
  without-absent cls (e ∷ es) h =
      let rest = without-absent cls es (ground (arith, h)) in
      let other : (e.cls == cls) ≡ false = ground (arith, h) in rw (other, rest) refl

  erase_class-without :
      (reg : Registry r) (cls : ℕ) → Distinct reg → erase_class r cls reg ≡ without cls reg
  unfolding erase_class
  erase_class-without [] cls d = refl
  erase_class-without (e ∷ es) cls (hd, d) = elim (Bool-cases (e.cls == cls)) [
    | inl here ↦
        let same : e.cls ≡ cls = ground (arith, here) in
        rw here (sym (without-absent cls es (ap (λ c. has_class r c es) (sym same) ∙ hd)))
    | inr later ↦ rw (later, erase_class-without es cls d) refl
  ]

  -- What a registration that succeeds says of its arguments, and gives.
  register_altrep-eq_ok :
      (push_fails : ℕ → Bool) (reg : Registry r) (cls : ℕ) (state : StateFns r)
      (range index : AccessFns) (caps : Capabilities) {reg' : Registry r}
      → register_altrep r push_fails reg cls state range index caps ≡ ok reg'
      → (e : AltrepEntry r) × Records e cls state range index caps
        × (has_class r cls reg ≡ false)
        × (reg' ≡ reg ++ (e ∷ []))
  unfolding register_altrep
  register_altrep-eq_ok push_fails reg cls state range index caps h =
      elim (Option-cases state.init) [
        | inl missing ↦ absurd (err-ne-ok (rw missing at h))
        | inr (init, given) ↦
            let h0 = rw given at h in
            let (complete, h1) =
              require-eq_ok (not (cls == 0 || not (fns_complete range) || not (fns_complete index)))
                callbacks_missing _ h0 in
            let (fresh, h2) = require-eq_ok (not (has_class r cls reg)) already_registered _ h1 in
            let (room, h3) = require-eq_ok (not (push_fails (length reg))) bad_alloc _ h2 in
            (_, (refl, sym given, refl, refl, refl, refl), ground arith, sym (ok-injective h3))
      ]

  has_class-append :
      (cls : ℕ) (reg : Registry r) (e : AltrepEntry r)
      → has_class r cls (reg ++ (e ∷ [])) ≡ (has_class r cls reg || e.cls == cls)
  unfolding has_class
  has_class-append cls [] e = ground arith
  has_class-append cls (d ∷ ds) e = ground (arith, has_class-append cls ds e)

  Distinct-append :
      (reg : Registry r) (e : AltrepEntry r)
      → has_class r e.cls reg ≡ false
      → Distinct reg
      → Distinct (reg ++ (e ∷ []))
  unfolding has_class
  Distinct-append [] e h d = (refl, tt)
  Distinct-append (x ∷ xs) e h (hd, d) =
      (ground (arith, has_class-append x.cls xs e), Distinct-append xs e (ground arith) d)

  erase_class-append :
      (reg : Registry r) (e : AltrepEntry r)
      → has_class r e.cls reg ≡ false
      → erase_class r e.cls (reg ++ (e ∷ [])) ≡ reg
  unfolding has_class erase_class
  erase_class-append [] e h = ground arith
  erase_class-append (x ∷ xs) e h = ground (arith, erase_class-append xs e)

  has_class-erase_class :
      (cls other : ℕ) (reg : Registry r)
      → has_class r cls reg ≡ false
      → has_class r cls (erase_class r other reg) ≡ false
  unfolding has_class erase_class
  has_class-erase_class cls other [] h = refl
  has_class-erase_class cls other (x ∷ xs) h = ground (arith, has_class-erase_class cls other xs)

  Distinct-erase_class :
      (reg : Registry r) (cls : ℕ)
      → Distinct reg
      → Distinct (erase_class r cls reg) × (has_class r cls (erase_class r cls reg) ≡ false)
  unfolding has_class erase_class
  Distinct-erase_class [] cls d = (tt, refl)
  Distinct-erase_class (x ∷ xs) cls (hd, d) = elim (Bool-cases (x.cls == cls)) [
    | inl here ↦
        let same : x.cls ≡ cls = ground arith in
        rw here (d, ap (λ c. has_class r c xs) (sym same) ∙ hd)
    | inr later ↦
        let (d', gone) = Distinct-erase_class xs cls d in
        rw later ((has_class-erase_class x.cls cls xs hd, d'), rw (later, gone) refl)
  ]

  find-append :
      (reg : Registry r) (e : AltrepEntry r) (x : Vec)
      → find_registered_altrep r (reg ++ (e ∷ [])) x ≡ elim (find_registered_altrep r reg x) [
        | some d ↦ some d
        | none ↦ if inherits x e.cls then some e else none
      ]
  unfolding find_registered_altrep
  find-append [] e x = refl
  find-append (d ∷ ds) e x = ground (arith, find-append ds e x)

  -- A registration that succeeds puts an entry of what was registered, its class, callbacks and
  -- capabilities, at the end, and keeps the classes distinct; it finds what it found before, and the
  -- new entry for a vector of its class that nothing was found for; and unregistering the class undoes
  -- it.
  pub register_altrep_lem :
      (push_fails : ℕ → Bool) (reg reg' : Registry r) (cls : ℕ) (state : StateFns r)
      (range index : AccessFns) (caps : Capabilities)
      → Distinct reg
      → register_altrep r push_fails reg cls state range index caps ≡ ok reg'
      → (e : AltrepEntry r) × Records e cls state range index caps
        × (reg' ≡ reg ++ (e ∷ []))
        × Distinct reg'
        × ((x : Vec)
            → find_registered_altrep r reg' x ≡ elim (find_registered_altrep r reg x) [
              | some d ↦ some d
              | none ↦ if inherits x cls then some e else none
            ])
        × (unregister_altrep r reg' cls ≡ reg)
  unfolding unregister_altrep
  register_altrep_lem push_fails reg reg' cls state range index caps d h =
      let (e, same, fresh, whole) =
        register_altrep-eq_ok push_fails reg cls state range index caps h in
      let fresh' : has_class r e.cls reg ≡ false = ap (λ c. has_class r c reg) same.0 ∙ fresh in
      rw whole (
        e,
        same,
        refl,
        Distinct-append reg e fresh' d,
        (λ x.
            find-append reg e x
            ∙ ap
                (λ c. elim (find_registered_altrep r reg x) [
                  | some d ↦ some d
                  | none ↦ if inherits x c then some e else none
                ])
                same.0),
        ap (λ c. erase_class r c (reg ++ (e ∷ []))) (sym same.0) ∙ erase_class-append reg e fresh',
      )

  -- Unregistering keeps the classes distinct, and leaves the entries of all other classes in their
  -- order, and none of the class.
  pub unregister_altrep_lem :
      (reg : Registry r) (cls : ℕ)
      → Distinct reg
      → Distinct (unregister_altrep r reg cls)
        × (has_class r cls (unregister_altrep r reg cls) ≡ false)
        × (unregister_altrep r reg cls ≡ without cls reg)
  unfolding unregister_altrep
  unregister_altrep_lem reg cls d =
      let (kept, gone) = Distinct-erase_class reg cls d in
      (kept, gone, erase_class-without reg cls d)
