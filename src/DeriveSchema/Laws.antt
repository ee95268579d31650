-- ===== src/DeriveSchema/Laws.antt =====
-- borsh-schema-derive-internal/src: what the implementation of `BorshSchema` that is
-- generated for an enum adds.
use Prim.Native.String.{String, ◌++◌ as str_append}
use borsh_rs.Prelude.{Bool, All, ◌≡◌, ◌↔◌, refl, sym, ap, Bool-cases, ◌⊎◌, inl, inr, List, [], ◌∷◌}
use borsh_rs.Io.{ok, ◌>>◌}
use borsh_rs.Schema.{
  Declaration, Definition, Definitions, BorshSchema, BorshSchemaContainer, enum, schema_container,
  add_all_definitions, add_definition,
}
use borsh_rs.Schema.Steps.{UniqueNames, add_each, add_each-append, then_pure, Agrees}
use borsh_rs.Schema.Laws.{Adds-ok_iff, Adds-Defines}
use borsh_rs.Schema.Adds.{Adds}
use borsh_rs.Schema.Needed.{Defines}
use mathlib.Core.List.{Mem}
use borsh_rs.Derive.{Expansion, code, macro_panicked}
use borsh_rs.Derive.Discriminants.{Variant}
use package.borsh_rs.DeriveSchema.{
  DeclarationCode, SchemaStruct, declaration_code, process_struct, run_struct_schema,
}
use package.borsh_rs.DeriveSchema.Enum.{
  SchemaEnum, EnumSchema, anonymous_struct, anonymous_defs, process_enum, anonymous_impls,
  variants_defs, run_enum_schema,
}
use package.borsh_rs.DeriveSchema.Spec.{
  type_name, struct_entries, variant_entries, variant_names, enum_entries,
}
use package.borsh_rs.DeriveSchema.Structs.{
  shown-with_phantom, content-with_phantom, run_declaration-type_name, process_struct-Adds,
}

-- `entries` are the definitions that the implementations of the types add.
module _ {Ty : Type 0} (impl : Ty → BorshSchema) (param : String → Declaration)
    (entries : Ty → Definitions)
    (h : (a : Ty) → (impl a).add_definitions_recursively ≡ add_each (entries a)) where
  module _ (is_ident : String → Bool) (phantom : Ty) (input : SchemaEnum Ty) where
    variant-Adds :
        (variant : Variant Ty)
        → Adds
            (run_struct_schema impl param (process_struct (anonymous_struct phantom input variant)))
            (type_name impl param entries (str_append input.ident variant.ident) input.type_params)
            (struct_entries impl param entries
              (str_append input.ident variant.ident)
              input.type_params
              variant.fields)
    variant-Adds variant =
        let fields = variant.fields in
        rw
          (
            sym (content-with_phantom impl param entries phantom input.type_params fields),
            sym (shown-with_phantom phantom input.type_params fields),
          )
          (process_struct-Adds impl param entries h (anonymous_struct phantom input variant))

    -- The structs, without the test of their names.
    abbrev items_of : List (Variant Ty) → List (String × SchemaStruct Ty)
    items_of [] = []
    items_of (variant ∷ variants) =
        (variant.ident, anonymous_struct phantom input variant) ∷ items_of variants

    anonymous_defs-items_of :
        (variants : List (Variant Ty))
        → (anonymous_defs phantom is_ident input variants ≡ macro_panicked)
          ⊎ (anonymous_defs phantom is_ident input variants ≡ code (items_of variants))
    unfolding anonymous_defs
    anonymous_defs-items_of [] = inr refl
    anonymous_defs-items_of (variant ∷ variants) =
        elim (Bool-cases (is_ident (str_append input.ident variant.ident))) [
          | inr stray ↦ inl (rw stray refl)
          | inl fits ↦ elim (anonymous_defs-items_of variants) [
            | inl p ↦ inl (rw (fits, p) refl)
            | inr p ↦ inr (rw (fits, p) refl)
          ]
        ]

    items_of-add_each :
        (variants : List (Variant Ty))
        → add_all_definitions (anonymous_impls impl param (items_of variants))
          ≡ add_each (variant_entries impl param entries input variants)
    unfolding anonymous_impls add_each
    items_of-add_each [] = refl
    items_of-add_each (variant ∷ variants) =
        rw ((variant-Adds variant).1, items_of-add_each variants)
          (sym (
            add_each-append
              (struct_entries impl param entries (str_append input.ident variant.ident)
                input.type_params variant.fields)
              (variant_entries impl param entries input variants)))

    items_of-variant_names :
        (variants : List (Variant Ty))
        → variants_defs impl param (items_of variants)
          ≡ variant_names impl param entries input variants
    unfolding variants_defs
    items_of-variant_names [] = refl
    items_of-variant_names (variant ∷ variants) = rw (items_of-variant_names variants) (
        ap (λ n. (variant.ident, n) ∷ variant_names impl param entries input variants)
          (variant-Adds variant).0)

    pub process_enum-Adds :
        (expansion : EnumSchema Ty)
        → process_enum phantom is_ident input ≡ code expansion
        → Adds
            (run_enum_schema impl param expansion)
            (type_name impl param entries input.ident input.type_params)
            (enum_entries impl param entries input)
    unfolding process_enum run_enum_schema add_each
    process_enum-Adds expansion e = elim (anonymous_defs-items_of input.variants) [
      | inl p ↦ let e' = rw p at e in absurd (cc)
      | inr p ↦
          let e' = rw p at e in
          let declares : expansion.declaration ≡ _ = sym (ap (λ m. declaration_in m) e') in
          let items : expansion.variants ≡ items_of input.variants =
            sym (ap (λ m. items_in m) e') in
          let name = run_declaration-type_name impl param entries input.ident input.type_params in
          let own : Declaration × Definition = (
            type_name impl param entries input.ident input.type_params,
            enum (variant_names impl param entries input input.variants),
          ) in
          (
            rw declares name,
            rw
                (
                  declares,
                  items,
                  name,
                  items_of-add_each input.variants,
                  items_of-variant_names input.variants,
                  add_each-append (variant_entries impl param entries input input.variants)
                      (own ∷ []),
                )
                (ap (λ m. add_each (variant_entries impl param entries input input.variants) >> m)
                  (sym (then_pure (add_definition own.0 own.1)))),
          )
    ]
      where
        declaration_in : Expansion (EnumSchema Ty) → DeclarationCode
        declaration_in (code x) = x.declaration
        declaration_in _ = (declaration_code {Ty = Ty} input.ident input.type_params).0

        items_in : Expansion (EnumSchema Ty) → List (String × SchemaStruct Ty)
        items_in (code x) = x.variants
        items_in _ = []

    -- For field types whose implementations add known definitions, and an enum for which
    -- `process_enum` returns code: `schema_container` of that implementation returns a
    -- container with the name of the enum and of its type arguments, and does not panic,
    -- exactly if these definitions give each name one meaning: those of the fields that are
    -- not skipped, of a struct for each variant, called as the enum and the variant
    -- together and with these fields, and of the enum.
    pub run_enum_schema-ok_iff :
        (expansion : EnumSchema Ty)
        → process_enum phantom is_ident input ≡ code expansion
        → ((definitions : Definitions) × (schema_container (run_enum_schema impl param expansion)
              ≡ ok (record {
                declaration = type_name impl param entries input.ident input.type_params;
                definitions = definitions;
              })))
          ↔ ((meaning : Declaration → Definition) × Agrees meaning
                (enum_entries impl param entries input))
    run_enum_schema-ok_iff expansion e = Adds-ok_iff _ _ _ (process_enum-Adds expansion e)

    -- For field types whose implementations add known definitions, and an enum for which
    -- `process_enum` returns code: a container that `schema_container` returns for that
    -- implementation has the name of the enum and of its type arguments, and one definition
    -- for each name: those of the fields that are not skipped, of a struct for each
    -- variant, called as the enum and the variant together and with these fields in order,
    -- and of the enum with its variants in order, and no other.
    pub run_enum_schema-Defines :
        (expansion : EnumSchema Ty) (c : BorshSchemaContainer)
        → process_enum phantom is_ident input ≡ code expansion
        → schema_container (run_enum_schema impl param expansion) ≡ ok c
        → (c.declaration ≡ type_name impl param entries input.ident input.type_params)
          × UniqueNames c.definitions
          × Defines c.definitions (enum_entries impl param entries input)
          × All (λ entry. Mem entry (enum_entries impl param entries input)) c.definitions
    run_enum_schema-Defines expansion c e = Adds-Defines _ _ _ (process_enum-Adds expansion e) c
