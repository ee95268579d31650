-- ===== src/Schema/Laws.antt =====
-- borsh/src/schema.rs: what the container of a type holds.
use borsh_rs.Prelude.{◌≡◌, ◌↔◌, refl, sym, ap, ◌∙◌, inl, inr, [], ◌∷◌, Option, some, none, All}
use mathlib.Core.List.{Mem, mem-cons_self, mem-cons_of_mem}
use borsh_rs.Io.{Result, ok, panicked}
use package.borsh_rs.Schema.{
  Declaration, Definition, Definitions, BorshSchema, BorshSchemaContainer, schema_container, lookup,
  tuple, contained,
}
use package.borsh_rs.Schema.Types.{SchemaType, schema_of}
use package.borsh_rs.Schema.Needed.{name_of, needed, Defines}
use package.borsh_rs.Schema.Steps.{add_each, Extends, UniqueNames, Agrees}
use package.borsh_rs.Schema.Outcomes.{add_each-outcome, add_each-All}
use package.borsh_rs.Schema.Adds.{Adds, schema_of-Adds}

-- The outcome for an implementation that adds these definitions.
schema_container-add_each :
    (s : BorshSchema) (name : Declaration) (entries : Definitions)
    → Adds s name entries
    → schema_container s ≡ contained name (add_each entries [])
unfolding schema_container
schema_container-add_each s name entries h = rw (h.0, h.1) refl

All-Mem :
    (entries whole : Definitions)
    → ((entry : _) → Mem entry entries → Mem entry whole)
    → All (λ entry. Mem entry whole) entries
All-Mem [] whole h = tt
All-Mem (entry ∷ entries) whole h =
    (h entry mem-cons_self, All-Mem entries whole (λ other m. h other (mem-cons_of_mem entry m)))

abbrev or_else : Option Definition → Definition
or_else none = tuple []
or_else (some definition) = definition

meaning_of :
    (definitions entries : Definitions)
    → Defines definitions entries
    → Agrees (λ name. or_else (lookup name definitions)) entries
meaning_of definitions [] h = tt
meaning_of definitions (entry ∷ entries) h = (ap or_else h.0, meaning_of definitions entries h.1)

ok_inj : {c d : BorshSchemaContainer} → ok c ≡ ok d → c ≡ d
ok_inj h = cc

panicked_ok : {c : BorshSchemaContainer} → ◌≡◌ {A = Result BorshSchemaContainer} panicked (ok c) → ⊥
panicked_ok h = cc

module _ (s : BorshSchema) (name : Declaration) (entries : Definitions)
    (h : Adds s name entries) where
  pub Adds-ok_iff :
      ((definitions : Definitions) × (schema_container s
          ≡ ok (record { declaration = name; definitions = definitions })))
      ↔ ((meaning : Declaration → Definition) × Agrees meaning entries)
  Adds-ok_iff =
      let container = schema_container-add_each s name entries h in
      elim (add_each-outcome entries []) [
        | inl (after, run, kept, defined, unique) ↦ (
          (λ ok_case. ((λ n. or_else (lookup n after)), meaning_of after entries defined)),
          (λ agreed. (after, container ∙ ap (contained name) run)),
        )
        | inr (after, run, kept, clash) ↦ (
          (λ (definitions, e).
              absurd (panicked_ok (sym (container ∙ ap (contained name) run) ∙ e))),
          (λ (meaning, agrees). absurd (clash meaning tt agrees)),
        )
      ]

  -- The container that is returned.
  Adds-returned :
      (c : BorshSchemaContainer)
      → schema_container s ≡ ok c
      → (c.declaration ≡ name)
        × (add_each entries [] ≡ (ok tt, c.definitions))
        × UniqueNames c.definitions
        × Defines c.definitions entries
  Adds-returned c e =
      let container = schema_container-add_each s name entries h in
      elim (add_each-outcome entries []) [
        | inl (after, run, kept, defined, unique) ↦
            let same : c ≡ record { declaration = name; definitions = after } =
              ok_inj (sym e ∙ container ∙ ap (contained name) run) in
            (ap (λ d. d.declaration) same, rw same run, rw same (unique tt), rw same defined)
        | inr (after, run, kept, clash) ↦
            absurd (panicked_ok (sym (container ∙ ap (contained name) run) ∙ e))
      ]

  -- What holds of the definitions that the type needs holds of those in the container.
  pub Adds-nothing_else :
      (c : BorshSchemaContainer) (P : Declaration × Definition → Type 0)
      → schema_container s ≡ ok c
      → All P entries
      → All P c.definitions
  Adds-nothing_else c P e p =
      let (same, run, unique, defined) = Adds-returned c e in
      let only = add_each-All P entries [] p tt in rw run at only

  pub Adds-Defines :
      (c : BorshSchemaContainer)
      → schema_container s ≡ ok c
      → (c.declaration ≡ name)
        × UniqueNames c.definitions
        × Defines c.definitions entries
        × All (λ entry. Mem entry entries) c.definitions
  Adds-Defines c e =
      let (same, run, unique, defined) = Adds-returned c e in
      let only =
        add_each-All (λ entry. Mem entry entries) entries []
          (All-Mem entries entries (λ entry m. m)) tt in
      (same, unique, defined, rw run at only)

-- For every type with an implementation of `BorshSchema` in the library, `schema_container`
-- returns its container, and does not panic, exactly if the definitions of the type and of its
-- parts give each name one meaning.
pub schema_container-ok_iff :
    (t : SchemaType)
    → ((definitions : Definitions) × (schema_container (schema_of t)
          ≡ ok (record { declaration = name_of t; definitions = definitions })))
      ↔ ((meaning : Declaration → Definition) × Agrees meaning (needed t))
schema_container-ok_iff t = Adds-ok_iff (schema_of t) (name_of t) (needed t) (schema_of-Adds t)

-- For every type with an implementation of `BorshSchema` in the library, the schema types
-- themselves apart, a container that `schema_container` returns names the type and has one
-- definition for each name: those of the type and of its parts, except the errors of results,
-- and no other.
pub schema_container-Defines :
    (t : SchemaType) (c : BorshSchemaContainer)
    → schema_container (schema_of t) ≡ ok c
    → (c.declaration ≡ name_of t)
      × UniqueNames c.definitions
      × Defines c.definitions (needed t)
      × All (λ entry. Mem entry (needed t)) c.definitions
schema_container-Defines t = Adds-Defines (schema_of t) (name_of t) (needed t) (schema_of-Adds t)

-- For every type with an implementation of `BorshSchema` in the library, the schema types
-- themselves apart, `add_definitions_recursively` keeps each definition that a map has, also
-- where it panics.
pub add_definitions_recursively-Extends :
    (t : SchemaType) (definitions : Definitions)
    → Extends definitions ((schema_of t).add_definitions_recursively definitions).1
add_definitions_recursively-Extends t definitions =
    rw (schema_of-Adds t).1 (elim (add_each-outcome (needed t) definitions) [
      | inl (after, run, kept, defined, unique) ↦ rw run kept
      | inr (after, run, kept, clash) ↦ rw run kept
    ])
