-- ===== src/DeriveSchema.antt =====
-- borsh-schema-derive-internal/src/helpers.rs and borsh-schema-derive-internal/src/struct_schema.rs:
-- the implementation of `BorshSchema` that the macro generates for a struct, as data, and what it
-- does. `contains_skip` is the one of borsh-derive-internal/src/attribute_helpers.rs once more.
pub mod Enum
pub mod Spec
pub mod Structs
pub mod Laws
pub mod Agreement
pub mod Written
use Prim.Native.String.{String}
use borsh_rs.Prelude.{Bool, true, false, List, [], ◌∷◌, ◌++◌, Option, some, none, if◌then◌else◌}
use borsh_rs.Schema.{
  Declaration, BorshSchema, Definition, Fields as SchemaFields, named_fields, unnamed_fields, empty,
  struct, applied, join, add_definition, add_all_definitions, define,
}
use borsh_rs.Derive.{Field, Fields, named, unnamed, unit, contains_skip}

-- The code of `declaration()`: `ident.to_string()`, or the `format!` for type parameters.
pub data DeclarationCode : Type 0 where
  to_string : String → DeclarationCode
  format : String → List String → DeclarationCode

-- What is added to the `where` clause, for a type parameter or the type of a field.
pub data Bound (Ty : Type 0) : Type 0 where
  param_bound : String → Bound Ty
  type_bound : Ty → Bound Ty

abbrev pub param_bounds : {Ty : Type 0} → List String → List (Bound Ty)
param_bounds [] = []
param_bounds (p ∷ ps) = param_bound p ∷ param_bounds ps

-- `helpers::declaration`, for the names of the type parameters.
unfoldable pub declaration_code :
    {Ty : Type 0} → String → List String → DeclarationCode × List (Bound Ty)
declaration_code ident_str [] = (to_string ident_str, [])
declaration_code ident_str (p ∷ ps) = (format ident_str (p ∷ ps), param_bounds (p ∷ ps))

-- A `where` clause of the item, and whether a comma ends it.
pub record WhereClause : Type 0 where
  pub predicates : List String
  pub trailing_punct : Bool

pub data WhereToken (Ty : Type 0) : Type 0 where
  predicate : String → WhereToken Ty
  addition : Bound Ty → WhereToken Ty
  comma : WhereToken Ty

module _ {Ty : Type 0} where
  -- `#(#additions),*`
  abbrev pub separated : List (WhereToken Ty) → List (WhereToken Ty)
  separated [] = []
  separated (x ∷ []) = x ∷ []
  separated (x ∷ y ∷ xs) = x ∷ comma ∷ separated (y ∷ xs)

  abbrev pub additions_of : List (Bound Ty) → List (WhereToken Ty)
  additions_of [] = []
  additions_of (x ∷ xs) = addition x ∷ additions_of xs

  abbrev pub predicates_of : List String → List (WhereToken Ty)
  predicates_of [] = []
  predicates_of (x ∷ xs) = predicate x ∷ predicates_of xs

  -- `#predicates`
  abbrev pub punctuated : WhereClause → List (WhereToken Ty)
  punctuated clause =
      separated (predicates_of clause.predicates)
      ++ (if clause.trailing_punct then comma ∷ [] else [])

  -- The tokens behind `where`, if there are any.
  unfoldable pub quote_where_clause :
      Option WhereClause → List (Bound Ty) → Option (List (WhereToken Ty))
  quote_where_clause (some clause) additions =
      let tokens = separated (additions_of additions) in
      some (
        if clause.trailing_punct
        then punctuated clause ++ tokens
        else punctuated clause ++ (comma ∷ tokens))
  quote_where_clause none [] = none
  quote_where_clause none (x ∷ xs) = some (separated (additions_of (x ∷ xs)))

-- The item.
pub record SchemaStruct (Ty : Type 0) : Type 0 where
  pub ident : String
  pub type_params : List String
  pub where_clause : Option WhereClause
  pub fields : Fields Ty

-- The code for the fields, by the types whose `declaration()` it asks for.
pub data FieldsCode (Ty : Type 0) : Type 0 where
  named_code : List (String × Ty) → FieldsCode Ty
  unnamed_code : List Ty → FieldsCode Ty
  empty_code : FieldsCode Ty

-- The generated `impl BorshSchema`. `recursive` are the types whose definitions are added in turn.
pub record StructSchema (Ty : Type 0) : Type 0 where
  pub where_tokens : Option (List (WhereToken Ty))
  pub declaration : DeclarationCode
  pub fields : FieldsCode Ty
  pub recursive : List Ty

module _ {Ty : Type 0} where
  -- `fields_vec`
  unfoldable pub named_vec : List (Field Ty) → List (String × Ty)
  unfolding contains_skip
  named_vec [] = []
  named_vec (field ∷ fields) =
      let rest = named_vec fields in
      if contains_skip field.attrs then rest else (field.ident, field.ty) ∷ rest

  unfoldable pub unnamed_vec : List (Field Ty) → List Ty
  unfolding contains_skip
  unnamed_vec [] = []
  unnamed_vec (field ∷ fields) =
      let rest = unnamed_vec fields in if contains_skip field.attrs then rest else field.ty ∷ rest

  -- `if fields_vec.is_empty() { ... }`
  abbrev pub named_or_empty : List (String × Ty) → FieldsCode Ty
  named_or_empty [] = empty_code
  named_or_empty (x ∷ xs) = named_code (x ∷ xs)

  abbrev pub unnamed_or_empty : List Ty → FieldsCode Ty
  unnamed_or_empty [] = empty_code
  unnamed_or_empty (x ∷ xs) = unnamed_code (x ∷ xs)

  abbrev pub struct_fields : Fields Ty → FieldsCode Ty
  struct_fields (named fields) = named_or_empty (named_vec fields)
  struct_fields (unnamed fields) = unnamed_or_empty (unnamed_vec fields)
  struct_fields unit = empty_code

  -- `add_definitions_recursively_rec`
  abbrev pub recursive_types : Fields Ty → List Ty
  recursive_types (named fields) = unnamed_vec fields
  recursive_types (unnamed fields) = unnamed_vec fields
  recursive_types unit = []

  abbrev pub type_bounds : List Ty → List (Bound Ty)
  type_bounds [] = []
  type_bounds (x ∷ xs) = type_bound x ∷ type_bounds xs

  unfoldable pub process_struct : SchemaStruct Ty → StructSchema Ty
  unfolding declaration_code quote_where_clause named_vec unnamed_vec
  process_struct input =
      let (code, additions) = declaration_code input.ident input.type_params in
      let types = recursive_types input.fields in
      record {
        where_tokens = quote_where_clause input.where_clause (additions ++ type_bounds types);
        declaration = code;
        fields = struct_fields input.fields;
        recursive = types;
      }

-- What the generated code does, for the implementations of the types and the type parameters.
module _ {Ty : Type 0} (impl : Ty → BorshSchema) (param : String → Declaration) where
  abbrev pub param_declarations : List String → List Declaration
  param_declarations [] = []
  param_declarations (p ∷ ps) = param p ∷ param_declarations ps

  abbrev pub run_declaration : DeclarationCode → Declaration
  run_declaration (to_string ident) = ident
  run_declaration (format ident params) = applied ident (join (param_declarations params))

  abbrev pub named_declarations : List (String × Ty) → List (String × Declaration)
  named_declarations [] = []
  named_declarations ((ident, a) ∷ rest) = (ident, (impl a).declaration) ∷ named_declarations rest

  abbrev pub type_declarations : List Ty → List Declaration
  type_declarations [] = []
  type_declarations (a ∷ rest) = (impl a).declaration ∷ type_declarations rest

  abbrev pub run_fields : FieldsCode Ty → SchemaFields
  run_fields (named_code xs) = named_fields (named_declarations xs)
  run_fields (unnamed_code xs) = unnamed_fields (type_declarations xs)
  run_fields empty_code = empty

  abbrev pub impls : List Ty → List BorshSchema
  impls [] = []
  impls (a ∷ rest) = impl a ∷ impls rest

  abbrev pub run_struct_schema : StructSchema Ty → BorshSchema
  run_struct_schema code =
      define (run_declaration code.declaration) (struct (run_fields code.fields))
        (add_all_definitions (impls code.recursive))
