-- ===== src/DeriveSchema/Structs.antt =====
-- borsh-schema-derive-internal/src: what the implementation of `BorshSchema` that is
-- generated for a struct adds.
use Prim.Native.String.{String}
use borsh_rs.Prelude.{◌≡◌, refl, sym, ap, Bool-cases, inl, inr, List, [], ◌∷◌, ◌++◌}
use borsh_rs.Schema.{Declaration, Definitions, BorshSchema, add_all_definitions}
use borsh_rs.Schema.Steps.{add_each, add_each-append}
use borsh_rs.Schema.Adds.{Adds}
use borsh_rs.Derive.{Field, Fields, named, unnamed, unit, contains_skip}
use borsh_rs.Derive.Code.{field_list}
use package.borsh_rs.DeriveSchema.{
  SchemaStruct, declaration_code, named_vec, unnamed_vec, named_or_empty, unnamed_or_empty,
  struct_fields, recursive_types, process_struct, run_declaration, run_fields, named_declarations,
  type_declarations, param_declarations, impls, run_struct_schema,
}
use package.borsh_rs.DeriveSchema.Enum.{phantom_field, with_phantom}
use package.borsh_rs.DeriveSchema.Spec.{
  shown, entries_of, arguments, type_name, with_names, without_names, named_content,
  unnamed_content, content, struct_entries,
}

-- The field that is added is skipped.
shown-phantom :
    {Ty : Type 0} (phantom : Ty) (name : String) (fields : List (Field Ty))
    → shown (fields ++ (phantom_field phantom name ∷ [])) ≡ shown fields
unfolding contains_skip
shown-phantom phantom name [] = refl
shown-phantom phantom name (field ∷ fields) = rw (shown-phantom phantom name fields) refl

pub shown-with_phantom :
    {Ty : Type 0} (phantom : Ty) (params : List String) (fields : Fields Ty)
    → shown (field_list (with_phantom phantom params fields)) ≡ shown (field_list fields)
unfolding contains_skip
shown-with_phantom phantom [] fields = refl
shown-with_phantom phantom (p ∷ ps) (named fields) =
    shown-phantom phantom "borsh_schema_phantom_data" fields
shown-with_phantom phantom (p ∷ ps) (unnamed fields) = shown-phantom phantom "" fields
shown-with_phantom phantom (p ∷ ps) unit = refl

module _ {Ty : Type 0} (impl : Ty → BorshSchema) (param : String → Declaration)
    (entries : Ty → Definitions) where
  pub content-with_phantom :
      (phantom : Ty) (params : List String) (fields : Fields Ty)
      → content impl param entries (with_phantom phantom params fields)
        ≡ content impl param entries fields
  unfolding contains_skip
  content-with_phantom phantom [] fields = refl
  content-with_phantom phantom (p ∷ ps) (named fields) =
      ap (named_content impl param entries)
        (shown-phantom phantom "borsh_schema_phantom_data" fields)
  content-with_phantom phantom (p ∷ ps) (unnamed fields) =
      ap (unnamed_content impl param entries) (shown-phantom phantom "" fields)
  content-with_phantom phantom (p ∷ ps) unit = refl

  param_declarations-arguments :
      (ps : List String) → param_declarations impl param ps ≡ arguments impl param entries ps
  param_declarations-arguments [] = refl
  param_declarations-arguments (p ∷ ps) = ap (λ z. param p ∷ z) (param_declarations-arguments ps)

  pub run_declaration-type_name :
      (ident : String) (params : List String)
      → run_declaration impl param (declaration_code {Ty = Ty} ident params).0
        ≡ type_name impl param entries ident params
  unfolding declaration_code
  run_declaration-type_name ident [] = refl
  run_declaration-type_name ident (p ∷ ps) = rw (param_declarations-arguments ps) refl

  named_declarations-with_names :
      (fields : List (Field Ty))
      → named_declarations impl param (named_vec fields)
        ≡ with_names impl param entries (shown fields)
  unfolding named_vec
  named_declarations-with_names [] = refl
  named_declarations-with_names (field ∷ fields) = elim (Bool-cases (contains_skip field.attrs)) [
    | inl e ↦ rw (e, named_vec) (named_declarations-with_names fields)
    | inr e ↦
        rw (e, named_vec)
          (ap (λ z. (field.ident, (impl field.ty).declaration) ∷ z)
            (named_declarations-with_names fields))
  ]

  type_declarations-without_names :
      (fields : List (Field Ty))
      → type_declarations impl param (unnamed_vec fields)
        ≡ without_names impl param entries (shown fields)
  unfolding unnamed_vec
  type_declarations-without_names [] = refl
  type_declarations-without_names (field ∷ fields) = elim (Bool-cases (contains_skip field.attrs)) [
    | inl e ↦ rw (e, unnamed_vec) (type_declarations-without_names fields)
    | inr e ↦
        rw (e, unnamed_vec)
          (ap (λ z. (impl field.ty).declaration ∷ z) (type_declarations-without_names fields))
  ]

  run_named_or_empty :
      (fields : List (Field Ty))
      → run_fields impl param (named_or_empty (named_vec fields))
        ≡ named_content impl param entries (shown fields)
  unfolding named_vec
  run_named_or_empty [] = refl
  run_named_or_empty (field ∷ fields) = elim (Bool-cases (contains_skip field.attrs)) [
    | inl e ↦ rw (e, named_vec) (run_named_or_empty fields)
    | inr e ↦ rw (e, named_vec, named_declarations-with_names fields) refl
  ]

  run_unnamed_or_empty :
      (fields : List (Field Ty))
      → run_fields impl param (unnamed_or_empty (unnamed_vec fields))
        ≡ unnamed_content impl param entries (shown fields)
  unfolding unnamed_vec
  run_unnamed_or_empty [] = refl
  run_unnamed_or_empty (field ∷ fields) = elim (Bool-cases (contains_skip field.attrs)) [
    | inl e ↦ rw (e, unnamed_vec) (run_unnamed_or_empty fields)
    | inr e ↦ rw (e, unnamed_vec, type_declarations-without_names fields) refl
  ]

  run_fields-content :
      (fields : Fields Ty)
      → run_fields impl param (struct_fields fields) ≡ content impl param entries fields
  run_fields-content (named fields) = run_named_or_empty fields
  run_fields-content (unnamed fields) = run_unnamed_or_empty fields
  run_fields-content unit = refl

  module _ (h : (a : Ty) → (impl a).add_definitions_recursively ≡ add_each (entries a)) where
    impls-add_each :
        (fields : List (Field Ty))
        → add_all_definitions (impls impl param (unnamed_vec fields))
          ≡ add_each (entries_of impl param entries (shown fields))
    unfolding add_each unnamed_vec
    impls-add_each [] = refl
    impls-add_each (field ∷ fields) = elim (Bool-cases (contains_skip field.attrs)) [
      | inl e ↦ rw (e, unnamed_vec) (impls-add_each fields)
      | inr e ↦
          rw (e, unnamed_vec, h field.ty, impls-add_each fields)
            (sym
              (add_each-append (entries field.ty) (entries_of impl param entries (shown fields))))
    ]

    recursive_types-add_each :
        (fields : Fields Ty)
        → add_all_definitions (impls impl param (recursive_types fields))
          ≡ add_each (entries_of impl param entries (shown (field_list fields)))
    unfolding add_each
    recursive_types-add_each (named fields) = impls-add_each fields
    recursive_types-add_each (unnamed fields) = impls-add_each fields
    recursive_types-add_each unit = refl

    pub process_struct-Adds :
        (item : SchemaStruct Ty)
        → Adds
            (run_struct_schema impl param (process_struct item))
            (type_name impl param entries item.ident item.type_params)
            (struct_entries impl param entries item.ident item.type_params item.fields)
    unfolding process_struct add_each
    process_struct-Adds item = (
      run_declaration-type_name item.ident item.type_params,
      rw
          (
            run_declaration-type_name item.ident item.type_params,
            run_fields-content item.fields,
            recursive_types-add_each item.fields,
          )
          refl,
    )
