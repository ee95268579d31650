-- ===== src/DeriveSchema/Enum.antt =====
-- borsh-schema-derive-internal/src/enum_schema.rs: each variant becomes a struct, which has a schema
-- of its own.
use Prim.Native.String.{String, ◌++◌ as str_append}
use borsh_rs.Prelude.{Bool, List, [], ◌∷◌, ◌++◌, Option, if◌then◌else◌}
use borsh_rs.Io.{◌>>◌}
use borsh_rs.Schema.{Declaration, BorshSchema, enum, add_definition, add_all_definitions}
use borsh_rs.Derive.{
  Attribute, Field, Fields, named, unnamed, unit, Expansion, code, macro_panicked, ◌>>=◌,
}
use borsh_rs.Derive.Discriminants.{Variant}
use package.borsh_rs.DeriveSchema.{
  DeclarationCode, WhereClause, WhereToken, SchemaStruct, declaration_code, quote_where_clause,
  process_struct, run_declaration, run_struct_schema,
}

pub record SchemaEnum (Ty : Type 0) : Type 0 where
  pub ident : String
  pub type_params : List String
  pub where_clause : Option WhereClause
  pub variants : List (Variant Ty)

-- The generated code: the structs in it, by the names of their variants.
pub record EnumSchema (Ty : Type 0) : Type 0 where
  pub where_tokens : Option (List (WhereToken Ty))
  pub declaration : DeclarationCode
  pub variants : List (String × SchemaStruct Ty)

-- `phantom` is the type `PhantomData<(#generic_params)>`.
module _ {Ty : Type 0} (phantom : Ty) where
  abbrev pub phantom_field : String → Field Ty
  phantom_field name = record {
    ident = name;
    attrs = Attribute.path "borsh_skip" ∷ [];
    ty = phantom;
  }

  -- `if !generic_params.is_empty() { ... }`
  abbrev pub with_phantom : List String → Fields Ty → Fields Ty
  with_phantom [] fields = fields
  with_phantom (p ∷ ps) (named fields) =
      named (fields ++ (phantom_field "borsh_schema_phantom_data" ∷ []))
  with_phantom (p ∷ ps) (unnamed fields) = unnamed (fields ++ (phantom_field "" ∷ []))
  with_phantom (p ∷ ps) unit = unnamed (phantom_field "" ∷ [])

  abbrev pub anonymous_struct : SchemaEnum Ty → Variant Ty → SchemaStruct Ty
  anonymous_struct input variant = record {
    ident = str_append input.ident variant.ident;
    type_params = input.type_params;
    where_clause = input.where_clause;
    fields = with_phantom input.type_params variant.fields;
  }

  -- `Ident::new` takes `proc_macro2`'s identifiers, of which `is_ident` is the test, and panics on
  -- any other text: a raw variant such as `r#type` makes one.
  module _ (is_ident : String → Bool) where
    unfoldable pub anonymous_defs :
        SchemaEnum Ty → List (Variant Ty) → Expansion (List (String × SchemaStruct Ty))
    anonymous_defs input [] = code []
    anonymous_defs input (variant ∷ variants) =
        let rest = anonymous_defs input variants in
        if is_ident (str_append input.ident variant.ident)
        then rest >>= (λ items. code ((variant.ident, anonymous_struct input variant) ∷ items))
        else macro_panicked

    unfoldable pub process_enum : SchemaEnum Ty → Expansion (EnumSchema Ty)
    unfolding declaration_code quote_where_clause anonymous_defs
    process_enum input =
        let (declares, additions) = declaration_code input.ident input.type_params in
        anonymous_defs input input.variants >>= λ items. code (record {
          where_tokens = quote_where_clause input.where_clause additions;
          declaration = declares;
          variants = items;
        })

-- What it does. The structs derive `BorshSchema`.
module _ {Ty : Type 0} (impl : Ty → BorshSchema) (param : String → Declaration) where
  unfoldable pub anonymous_impls : List (String × SchemaStruct Ty) → List BorshSchema
  unfolding process_struct
  anonymous_impls [] = []
  anonymous_impls ((variant, item) ∷ rest) =
      run_struct_schema impl param (process_struct item) ∷ anonymous_impls rest

  unfoldable pub variants_defs : List (String × SchemaStruct Ty) → List (String × Declaration)
  unfolding process_struct
  variants_defs [] = []
  variants_defs ((variant, item) ∷ rest) =
      (variant, (run_struct_schema impl param (process_struct item)).declaration)
      ∷ variants_defs rest

  unfoldable pub run_enum_schema : EnumSchema Ty → BorshSchema
  unfolding anonymous_impls variants_defs add_definition
  run_enum_schema expansion = record {
    add_definitions_recursively =
        add_all_definitions (anonymous_impls expansion.variants)
        >> add_definition (run_declaration impl param expansion.declaration)
            (enum (variants_defs expansion.variants));
    declaration = run_declaration impl param expansion.declaration;
  }
