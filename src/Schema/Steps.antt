-- ===== src/Schema/Steps.antt =====
-- borsh/src/schema.rs: adding definitions one by one.
use text.Mathlib.Text.{◌==◌ as str_eq}
use text.Mathlib.TextEquality.{eq_iff}
use text.Mathlib.TextPositions.{eq_refl}
use borsh_rs.Prelude.{
  ◌≡◌, ◌≢◌, ◌⊎◌, refl, sym, ap, ◌∙◌, inl, inr, Bool-cases, [], ◌∷◌, ◌++◌, Option, some, none, All,
}
use borsh_rs.Io.{M, Result, ok, err, panicked, out_of_fuel, pure, ◌>>◌, and_then}
use package.borsh_rs.Schema.{
  Declaration, Definition, Definitions, Definition-discrete, lookup, assert, at_entry,
  add_definition,
}

-- One after the other.
unfoldable pub add_each : Definitions → M Definitions (Unit {0})
unfolding add_definition
add_each [] = pure tt
add_each (entry ∷ entries) = add_definition entry.0 entry.1 >> add_each entries

and_then_assoc :
    (r : Result (Unit {0}) × Definitions) (k l : M Definitions (Unit {0}))
    → and_then r (λ _ s. and_then (k s) (λ _. l)) ≡ and_then (and_then r (λ _. k)) (λ _. l)
and_then_assoc (ok _, s) k l = refl
and_then_assoc (err e, s) k l = refl
and_then_assoc (panicked, s) k l = refl
and_then_assoc (out_of_fuel, s) k l = refl

pub add_each-append :
    (entries more : Definitions) → add_each (entries ++ more) ≡ (add_each entries >> add_each more)
unfolding add_each
add_each-append [] more = refl
add_each-append (entry ∷ entries) more =
    rw (add_each-append entries more) (λ i s.
      and_then_assoc (add_definition entry.0 entry.1 s) (add_each entries) (add_each more) i)

and_then-pure : (r : Result (Unit {0}) × Definitions) → and_then r (λ _ s. (ok tt, s)) ≡ r
and_then-pure (ok _, s) = refl
and_then-pure (err e, s) = refl
and_then-pure (panicked, s) = refl
and_then-pure (out_of_fuel, s) = refl

pub then_pure : (m : M Definitions (Unit {0})) → (m >> pure tt) ≡ m
then_pure m = λ i s. and_then-pure (m s) i

-- Looking up.
pub lookup-head :
    (name : Declaration) (definition : Definition) (rest : Definitions)
    → lookup name ((name, definition) ∷ rest) ≡ some definition
unfolding lookup
lookup-head name definition rest = rw (eq_refl name) refl

-- Every definition of the one is in the other.
abbrev pub Extends : Definitions → Definitions → Type 0
Extends definitions definitions' =
    (name : Declaration) (definition : Definition)
    → lookup name definitions ≡ some definition
    → lookup name definitions' ≡ some definition

pub Extends-cons :
    (name : Declaration) (definition : Definition) (definitions : Definitions)
    → lookup name definitions ≡ none
    → Extends definitions ((name, definition) ∷ definitions)
unfolding lookup
Extends-cons name definition definitions free key found e = elim (Bool-cases (str_eq key name)) [
  | inl same ↦
      let same' : key ≡ name = (eq_iff key name).0 same in
      let free' : lookup key definitions ≡ none = ap (λ n. lookup n definitions) same' ∙ free in
      absurd (none_some (sym free' ∙ e))
  | inr differ ↦ rw (differ, lookup) e
]
  where
    none_some : {d : Definition} → ◌≡◌ {A = Option Definition} none (some d) → ⊥
    none_some h = cc

-- There is one definition for each name.
abbrev pub UniqueNames : Definitions → Type 0
UniqueNames [] = Unit
UniqueNames ((name, definition) ∷ rest) = (lookup name rest ≡ none) × UniqueNames rest

-- The definitions are those that `meaning` gives their names.
abbrev pub Agrees : (Declaration → Definition) → Definitions → Type 0
Agrees meaning definitions = All (λ entry. meaning entry.0 ≡ entry.1) definitions

pub lookup-Agrees :
    (meaning : Declaration → Definition) (name : Declaration) (definition : Definition)
    (definitions : Definitions)
    → Agrees meaning definitions
    → lookup name definitions ≡ some definition
    → meaning name ≡ definition
unfolding lookup
lookup-Agrees meaning name definition [] agrees e = cc
lookup-Agrees meaning name definition ((key, d) ∷ rest) agrees e =
    elim (Bool-cases (str_eq name key)) [
      | inl same ↦
          let here : ◌≡◌ {A = Option Definition} (some d) (some definition) =
            rw (same, lookup) at e in
          let same' : name ≡ key = (eq_iff name key).0 same in
          ap meaning same' ∙ agrees.0 ∙ some_inj here
      | inr differ ↦ lookup-Agrees meaning name definition rest agrees.1 (rw (differ, lookup) at e)
    ]
  where
    some_inj : {a b : Definition} → some a ≡ some b → a ≡ b
    some_inj h = cc

-- What adding a definition comes to.
assert_pos : {P : Type 0} (d : Dec P) (s : Definitions) → P → assert d s ≡ (ok tt, s)
assert_pos (yes p) s h = refl
assert_pos (no p) s h = absurd (p h)

assert_neg : {P : Type 0} (d : Dec P) (s : Definitions) → ¬ P → assert d s ≡ (panicked, s)
assert_neg (yes p) s h = absurd (h p)
assert_neg (no p) s h = refl

pub add_definition-cases :
    (name : Declaration) (definition : Definition) (definitions : Definitions)
    → ((lookup name definitions ≡ none)
        × (add_definition name definition definitions ≡ (ok tt, (name, definition) ∷ definitions)))
      ⊎ (((lookup name definitions ≡ some definition)
            × (add_definition name definition definitions ≡ (ok tt, definitions)))
          ⊎ ((existing_def : Definition) × (lookup name definitions ≡ some existing_def)
              × (existing_def ≢ definition)
              × (add_definition name definition definitions ≡ (panicked, definitions))))
unfolding add_definition
add_definition-cases name definition definitions = by_entry (lookup name definitions) refl
  where
    by_entry :
        (found : Option Definition)
        → lookup name definitions ≡ found
        → ((lookup name definitions ≡ none)
            × (at_entry (lookup name definitions) name definition definitions
                ≡ (ok tt, (name, definition) ∷ definitions)))
          ⊎ (((lookup name definitions ≡ some definition)
                × (at_entry (lookup name definitions) name definition definitions
                    ≡ (ok tt, definitions)))
              ⊎ ((existing_def : Definition) × (lookup name definitions ≡ some existing_def)
                  × (existing_def ≢ definition)
                  × (at_entry (lookup name definitions) name definition definitions
                      ≡ (panicked, definitions))))
    by_entry none e = inl (e, rw e refl)
    by_entry (some d) e = elim (Definition-discrete d definition) [
      | yes same ↦ inr (
          inl (
            e ∙ ap some same,
            rw e (assert_pos (Definition-discrete d definition) definitions same),
          ))
      | no differ ↦ inr (
          inr
            (d, e, differ, rw e (assert_neg (Definition-discrete d definition) definitions differ)))
    ]
