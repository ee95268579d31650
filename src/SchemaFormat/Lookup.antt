-- ===== src/SchemaFormat/Lookup.antt =====
-- borsh/src/schema.rs with borsh/src/ser/mod.rs: sorting the definitions of a container by their
-- names.
use Prim.Native.String.{String}
use text.Mathlib.Text.{◌==◌ as str_eq}
use text.Mathlib.TextPositions.{eq_refl}
use borsh_rs.Prelude.{
  ◌≡◌, refl, ◌∙◌, Bool, true, false, [], ◌∷◌, All, length, ==_self, some, none, Bool-cases, inl,
  inr,
}
use borsh_rs.Ser.Collections.{insert_by, sort_by}
use borsh_rs.Ser.Sorting.{insert_by-All, sort_by-All, length-sort_by}
use borsh_rs.De.MapReads.{KeysApart}
use borsh_rs.Derive.Enum.Laws.{str_eq-false_symm}
use borsh_rs.Schema.{
  Declaration, Definition, Definitions, Definition-discrete, BorshSchemaContainer, lookup,
}
use borsh_rs.Schema.Steps.{UniqueNames}
use borsh_rs.SchemaHelpers.{is_yes, all_found, same_container}

-- Different names.
abbrev pub Apart : Declaration → Declaration → Type 0
Apart a b = str_eq b a ≡ false

lookup-none :
    (name : Declaration) (definitions : Definitions)
    → lookup name definitions ≡ none
    → All (λ later. Apart name later.0) definitions
unfolding lookup
lookup-none name [] h = tt
lookup-none name ((key, definition) ∷ rest) h = elim (Bool-cases (str_eq name key)) [
  | inl e ↦ let h' = rw (e, lookup) at h in absurd (cc)
  | inr e ↦ (str_eq-false_symm name key e, lookup-none name rest (rw (e, lookup) at h))
]

pub UniqueNames-KeysApart :
    (definitions : Definitions) → UniqueNames definitions → KeysApart Apart definitions
UniqueNames-KeysApart [] h = tt
UniqueNames-KeysApart ((name, definition) ∷ rest) h =
    (lookup-none name rest h.0, UniqueNames-KeysApart rest h.1)

module _ (le : String → String → Bool) where
  abbrev pub insert : Declaration × Definition → Definitions → Definitions
  insert entry definitions = insert_by (λ e. e.0) le entry definitions

  abbrev pub sorted : Definitions → Definitions
  sorted definitions = sort_by (λ e. e.0) le definitions

  abbrev pub sorted_container : BorshSchemaContainer → BorshSchemaContainer
  sorted_container c = record { declaration = c.declaration; definitions = sorted c.definitions }

  insert_by-KeysApart :
      (entry : Declaration × Definition) (definitions : Definitions)
      → All (λ later. Apart entry.0 later.0) definitions
      → KeysApart Apart definitions
      → KeysApart Apart (insert entry definitions)
  unfolding insert_by
  insert_by-KeysApart entry [] h k = (tt, tt)
  insert_by-KeysApart entry (x ∷ xs) h k = elim (Bool-cases (le entry.0 x.0)) [
    | inl e ↦ rw (e, insert_by) (h, k)
    | inr e ↦
        rw (e, insert_by)
          (
            insert_by-All (λ z. z.0) le (λ later. Apart x.0 later.0) entry xs
                (str_eq-false_symm x.0 entry.0 h.0) k.0,
            insert_by-KeysApart entry xs h.1 k.1,
          )
  ]

  pub sort_by-KeysApart :
      (definitions : Definitions)
      → KeysApart Apart definitions
      → KeysApart Apart (sorted definitions)
  unfolding sort_by
  sort_by-KeysApart [] h = tt
  sort_by-KeysApart (x ∷ xs) h =
      insert_by-KeysApart x (sorted xs)
        (sort_by-All (λ e. e.0) le (λ later. Apart x.0 later.0) xs h.0) (sort_by-KeysApart xs h.1)

  -- An entry is found, and the others as before.
  pub lookup-insert_self :
      (entry : Declaration × Definition) (definitions : Definitions)
      → All (λ later. Apart entry.0 later.0) definitions
      → lookup entry.0 (insert entry definitions) ≡ some entry.1
  unfolding insert_by lookup
  lookup-insert_self entry [] h = rw (eq_refl entry.0) refl
  lookup-insert_self entry (x ∷ xs) h = elim (Bool-cases (le entry.0 x.0)) [
    | inl e ↦ rw (e, insert_by, eq_refl entry.0, lookup) refl
    | inr e ↦
        rw (e, insert_by, str_eq-false_symm x.0 entry.0 h.0, lookup)
          (lookup-insert_self entry xs h.1)
  ]

  pub lookup-insert_other :
      (name : Declaration) (entry : Declaration × Definition) (definitions : Definitions)
      → str_eq name entry.0 ≡ false
      → lookup name (insert entry definitions) ≡ lookup name definitions
  unfolding insert_by lookup
  lookup-insert_other name entry [] h = rw (h, lookup) refl
  lookup-insert_other name entry (x ∷ xs) h =
      let rest = lookup-insert_other name entry xs h in
      elim (Bool-cases (le entry.0 x.0)) [
        | inl e ↦ rw (e, insert_by, h, lookup) refl
        | inr e ↦ elim (Bool-cases (str_eq name x.0)) [
          | inl here ↦ rw (e, insert_by, here, lookup) refl
          | inr there ↦ rw (e, insert_by, there, lookup) rest
        ]
      ]

  kept_by_insert :
      (entry : Declaration × Definition) (definitions entries : Definitions)
      → All (λ e. Apart entry.0 e.0) entries
      → All (λ e. lookup e.0 definitions ≡ some e.1) entries
      → All (λ e. lookup e.0 (insert entry definitions) ≡ some e.1) entries
  kept_by_insert entry definitions [] h k = tt
  kept_by_insert entry definitions (e ∷ rest) h k = (
    lookup-insert_other e.0 entry definitions h.0 ∙ k.0,
    kept_by_insert entry definitions rest h.1 k.1,
  )

  pub lookup-sort_by :
      (definitions : Definitions)
      → KeysApart Apart definitions
      → All (λ e. lookup e.0 (sorted definitions) ≡ some e.1) definitions
  unfolding sort_by
  lookup-sort_by [] h = tt
  lookup-sort_by (x ∷ xs) h = (
    lookup-insert_self x (sorted xs)
        (sort_by-All (λ e. e.0) le (λ later. Apart x.0 later.0) xs h.0),
    kept_by_insert x (sorted xs) xs h.0 (lookup-sort_by xs h.1),
  )

is_yes_refl : {A : Type 0} {a : A} (d : Dec (a ≡ a)) → is_yes d ≡ true
is_yes_refl (yes p) = refl
is_yes_refl (no f) = absurd (f refl)

all_found-lookup :
    (definitions entries : Definitions)
    → All (λ e. lookup e.0 definitions ≡ some e.1) entries
    → all_found definitions entries ≡ true
all_found-lookup definitions [] h = refl
all_found-lookup definitions ((name, definition) ∷ rest) h =
    rw (h.0, is_yes_refl (Definition-discrete definition definition))
      (all_found-lookup definitions rest h.1)

-- The derived equality does not see the order of the definitions.
pub same_container-sorted :
    (le : String → String → Bool) (c : BorshSchemaContainer)
    → UniqueNames c.definitions
    → same_container c (sorted_container le c) ≡ true
unfolding same_container
same_container-sorted le c h =
    rw
      (
        eq_refl c.declaration,
        length-sort_by (λ e. e.0) le c.definitions,
        ==_self (length c.definitions),
      )
      (all_found-lookup (sorted le c.definitions) c.definitions
        (lookup-sort_by le c.definitions (UniqueNames-KeysApart c.definitions h)))
