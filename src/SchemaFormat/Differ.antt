-- ===== src/SchemaFormat/Differ.antt =====
-- borsh/src/schema.rs with borsh/src/schema_helpers.rs: which containers the derived equality tells
-- apart, whatever the order of the definitions.
use Prim.Native.String.{String}
use text.Mathlib.Text.{◌==◌ as str_eq}
use text.Mathlib.TextEquality.{eq_iff}
use borsh_rs.Prelude.{
  ◌≡◌, ◌≢◌, ◌⊎◌, refl, sym, ap, ◌∙◌, Bool, true, false, ◌&&◌, [], ◌∷◌, length, Option, some, none,
  Bool-cases, inl, inr, ==_iff,
}
use borsh_rs.Ser.Collections.{sort_by}
use borsh_rs.Ser.Sorting.{sort_by-All, length-sort_by}
use borsh_rs.De.MapReads.{KeysApart}
use borsh_rs.Schema.{
  Declaration, Definition, Definitions, Definition-discrete, BorshSchemaContainer, lookup,
}
use borsh_rs.Schema.Steps.{UniqueNames}
use borsh_rs.SchemaHelpers.{is_yes, same_found, all_found, same_container}
use package.borsh_rs.SchemaFormat.Lookup.{
  Apart, UniqueNames-KeysApart, sorted, sorted_container, lookup-insert_self, lookup-insert_other,
}

-- Some definition of these is not the one that the others have for its name.
abbrev pub Lacks : Definitions → Definitions → Type 0
Lacks others [] = ⊥
Lacks others ((name, definition) ∷ rest) =
    (lookup name others ≢ some definition) ⊎ Lacks others rest

-- Other names of types, other numbers of definitions, or a definition of the first that the second
-- has not.
abbrev pub Differ : BorshSchemaContainer → BorshSchemaContainer → Type 0
Differ a b =
    (a.declaration ≢ b.declaration)
    ⊎ (length a.definitions ≢ length b.definitions)
    ⊎ Lacks b.definitions a.definitions

lookup-sorted :
    (le : String → String → Bool) (name : Declaration) (definitions : Definitions)
    → KeysApart Apart definitions
    → lookup name (sorted le definitions) ≡ lookup name definitions
unfolding lookup sort_by
lookup-sorted le name [] h = refl
lookup-sorted le name (x ∷ xs) h = elim (Bool-cases (str_eq name x.0)) [
  | inl e ↦
      let same : name ≡ x.0 = (eq_iff name x.0).0 e in
      let found =
        lookup-insert_self le x (sorted le xs)
          (sort_by-All (λ e. e.0) le (λ later. Apart x.0 later.0) xs h.0) in
      rw (e, lookup) (ap (λ n. lookup n (sorted le (x ∷ xs))) same ∙ found)
  | inr e ↦
      rw (e, lookup) (lookup-insert_other le name x (sorted le xs) e ∙ lookup-sorted le name xs h.1)
]

and_true : (a b : Bool) → (a && b) ≡ true → (a ≡ true) × (b ≡ true)
and_true true b h = (refl, h)
and_true false b h = absurd (cc)

is_yes-true : {P : Type 0} (d : Dec P) → is_yes d ≡ true → P
is_yes-true (yes p) h = p
is_yes-true (no f) h = absurd (cc)

same_found-some :
    (found : Option Definition) (definition : Definition)
    → same_found found definition ≡ true
    → found ≡ some definition
same_found-some none definition h = absurd (cc)
same_found-some (some found) definition h =
    ap some (sym (is_yes-true (Definition-discrete definition found) h))

all_found-Lacks :
    (le : String → String → Bool) (others definitions : Definitions)
    → KeysApart Apart others
    → all_found (sorted le others) definitions ≡ true
    → ¬ Lacks others definitions
all_found-Lacks le others [] h e lacks = lacks
all_found-Lacks le others ((name, definition) ∷ rest) h e lacks =
    let (here, there) = and_true _ _ e in
    elim lacks [
      | inl missing ↦
          missing (sym (lookup-sorted le name others h) ∙ same_found-some _ definition here)
      | inr more ↦ all_found-Lacks le others rest h there more
    ]

pub same_container-Differ :
    (le : String → String → Bool) (a b : BorshSchemaContainer)
    → UniqueNames b.definitions
    → Differ a b
    → same_container a (sorted_container le b) ≡ false
unfolding same_container
same_container-Differ le a b unique differ =
    elim (Bool-cases (same_container a (sorted_container le b))) [
      | inr e ↦ e
      | inl e ↦
          let (name, rest) = and_true _ _ e in
          let (many, found) = and_true _ _ rest in
          absurd (elim differ [
            | inl other ↦ other ((eq_iff a.declaration b.declaration).0 name)
            | inr (inl count) ↦
                count ((==_iff _ _).0 many ∙ length-sort_by (λ e. e.0) le b.definitions)
            | inr (inr lacks) ↦
                all_found-Lacks le b.definitions a.definitions
                  (UniqueNames-KeysApart b.definitions unique) found lacks
          ])
    ]
