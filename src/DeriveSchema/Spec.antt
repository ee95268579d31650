-- ===== src/DeriveSchema/Spec.antt =====
-- borsh-schema-derive-internal/src: the definitions that a derived implementation stands for, apart
-- from how they are generated.
use Prim.Native.String.{String, ◌++◌ as str_append}
use borsh_rs.Prelude.{List, [], ◌∷◌, ◌++◌, if◌then◌else◌}
use borsh_rs.Schema.{
  Declaration, Definitions, BorshSchema, Fields as SchemaFields, named_fields, unnamed_fields,
  empty, struct, enum, applied, join,
}
use borsh_rs.Derive.{Field, Fields, named, unnamed, unit, contains_skip}
use borsh_rs.Derive.Code.{field_list}
use borsh_rs.Derive.Discriminants.{Variant}
use package.borsh_rs.DeriveSchema.Enum.{SchemaEnum}

-- The fields that are not skipped.
abbrev pub shown : {Ty : Type 0} → List (Field Ty) → List (Field Ty)
shown [] = []
shown (field ∷ fields) =
    let rest = shown fields in if contains_skip field.attrs then rest else field ∷ rest

-- `entries` are the definitions that the implementations of the types add, and `param` the
-- declarations of the type parameters.
module _ {Ty : Type 0} (impl : Ty → BorshSchema) (param : String → Declaration)
    (entries : Ty → Definitions) where
  abbrev pub entries_of : List (Field Ty) → Definitions
  entries_of [] = []
  entries_of (field ∷ fields) = entries field.ty ++ entries_of fields

  abbrev pub arguments : List String → List Declaration
  arguments [] = []
  arguments (p ∷ ps) = param p ∷ arguments ps

  -- `Name`, or `Name<A, B>`.
  abbrev pub type_name : String → List String → Declaration
  type_name ident [] = ident
  type_name ident (p ∷ ps) = applied ident (join (arguments (p ∷ ps)))

  abbrev pub with_names : List (Field Ty) → List (String × Declaration)
  with_names [] = []
  with_names (field ∷ fields) = (field.ident, (impl field.ty).declaration) ∷ with_names fields

  abbrev pub without_names : List (Field Ty) → List Declaration
  without_names [] = []
  without_names (field ∷ fields) = (impl field.ty).declaration ∷ without_names fields

  abbrev pub named_content : List (Field Ty) → SchemaFields
  named_content [] = empty
  named_content (field ∷ fields) = named_fields (with_names (field ∷ fields))

  abbrev pub unnamed_content : List (Field Ty) → SchemaFields
  unnamed_content [] = empty
  unnamed_content (field ∷ fields) = unnamed_fields (without_names (field ∷ fields))

  -- The fields that are not skipped, in order, with their types.
  abbrev pub content : Fields Ty → SchemaFields
  content (named fields) = named_content (shown fields)
  content (unnamed fields) = unnamed_content (shown fields)
  content unit = empty

  -- The definitions of a struct: its own, and those of its fields.
  abbrev pub struct_entries : String → List String → Fields Ty → Definitions
  struct_entries ident type_params fields =
      (type_name ident type_params, struct (content fields))
      ∷ entries_of (shown (field_list fields))

  -- The struct that a variant is made into has the name of the enum, followed by its own.
  abbrev pub variant_entries : SchemaEnum Ty → List (Variant Ty) → Definitions
  variant_entries input [] = []
  variant_entries input (variant ∷ variants) =
      struct_entries (str_append input.ident variant.ident) input.type_params variant.fields
      ++ variant_entries input variants

  abbrev pub variant_names : SchemaEnum Ty → List (Variant Ty) → List (String × Declaration)
  variant_names input [] = []
  variant_names input (variant ∷ variants) =
      (variant.ident, type_name (str_append input.ident variant.ident) input.type_params)
      ∷ variant_names input variants

  -- The definitions of an enum: those of its variants' structs, and its own.
  abbrev pub enum_entries : SchemaEnum Ty → Definitions
  enum_entries input =
      variant_entries input input.variants
      ++ ((type_name input.ident input.type_params, enum (variant_names input input.variants)) ∷ [])
