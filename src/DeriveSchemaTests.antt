-- ===== src/DeriveSchemaTests.antt =====
-- The theorems on derived schemas, for fields with built-in types.
use Prim.Native.String.{String}
use borsh_rs.Prelude.{Bool, true, List, ◌≡◌, ◌↔◌, refl, [], ◌∷◌, All, none}
use mathlib.Core.List.{Mem}
use borsh_rs.Io.{ok, panicked}
use borsh_rs.Schema.{
  Declaration, Definition, Definitions, BorshSchema, BorshSchemaContainer, unnamed_fields, struct,
  enum, schema_container, add_definition, tuple_schema,
}
use borsh_rs.Schema.Types.{SchemaType, primitive, phantom_data, u8, u16, vec, schema_of}
use borsh_rs.Schema.Needed.{needed, Defines}
use borsh_rs.Schema.Steps.{add_each, Agrees, UniqueNames}
use borsh_rs.Schema.Adds.{schema_of-Adds}
use borsh_rs.Derive.{Attribute, Fields, unnamed, contains_skip, Expansion, code}
use borsh_rs.DeriveSchema.{
  SchemaStruct, to_string, declaration_code, quote_where_clause, process_struct,
}
use borsh_rs.DeriveSchema.Enum.{
  SchemaEnum, EnumSchema, anonymous_defs, process_enum, run_enum_schema,
}
use borsh_rs.DeriveSchema.Spec.{enum_entries}
use borsh_rs.DeriveSchema.Laws.{run_enum_schema-ok_iff, run_enum_schema-Defines}
use borsh_rs.DeriveSchema.Agreement.{schema_entries, NoSkippedIndex}
use borsh_rs.DeriveSchema.Written.{all_some, written_entries, process_struct-struct_ser}
use borsh_rs.Derive.Struct.{struct_ser}

abbrev no_params : String → Declaration
no_params p = "nil"

adds_needed : (a : SchemaType) → (schema_of a).add_definitions_recursively ≡ add_each (needed a)
adds_needed a = (schema_of-Adds a).1

-- `struct P(#[borsh_skip] u8, Vec<u8>);`
abbrev pair_fields : Fields SchemaType
pair_fields = unnamed (
    record { ident = ""; attrs = Attribute.path "borsh_skip" ∷ []; ty = primitive u8 }
    ∷ record { ident = ""; attrs = []; ty = vec (primitive u8) }
    ∷ [])

abbrev pair_item : SchemaStruct SchemaType
pair_item = record { ident = "P"; type_params = []; where_clause = none; fields = pair_fields }

-- `enum <ident> { <variant>(<type>) }`
abbrev one_variant : String → String → SchemaType → SchemaEnum SchemaType
one_variant ident variant a = record {
  ident = ident;
  type_params = [];
  where_clause = none;
  variants =
      record {
        ident = variant;
        discriminant = none;
        fields = unnamed (record { ident = ""; attrs = []; ty = a } ∷ []);
      }
      ∷ [];
}

-- Every name in these tests is an identifier.
abbrev any_ident : String → Bool
any_ident text = true

abbrev expansion_of : SchemaEnum SchemaType → EnumSchema SchemaType
expansion_of input = record {
  where_tokens = none;
  declaration = to_string input.ident;
  variants = items_in (anonymous_defs phantom_data any_ident input input.variants);
}
  where
    items_in :
        Expansion (List (String × SchemaStruct SchemaType))
        → List (String × SchemaStruct SchemaType)
    items_in (code items) = items
    items_in _ = []

expansion-run :
    (ident variant : String) (a : SchemaType)
    → process_enum phantom_data any_ident (one_variant ident variant a)
      ≡ code (expansion_of (one_variant ident variant a))
unfolding process_enum anonymous_defs declaration_code quote_where_clause
expansion-run ident variant a = refl

abbrev enum_of : String → String → SchemaType → BorshSchema
enum_of ident variant a =
    run_enum_schema schema_of no_params (expansion_of (one_variant ident variant a))

abbrev enum_container : BorshSchemaContainer
enum_container = record {
  declaration = "A";
  definitions =
      ("A", enum (("BC", "ABC") ∷ [])) ∷ ("ABC", struct (unnamed_fields ("u8" ∷ []))) ∷ [];
}

enum-run : schema_container (enum_of "A" "BC" (primitive u8)) ≡ ok enum_container
unfolding schema_container schema_of anonymous_defs run_enum_schema process_struct add_definition
    declaration_code contains_skip
enum-run = refl

-- The names of the structs of `enum A { BC(u8) }` and `enum AB { C(u16) }` are the same.
same_struct_name-panicked :
    schema_container
      (tuple_schema (enum_of "A" "BC" (primitive u8) ∷ enum_of "AB" "C" (primitive u16) ∷ []))
    ≡ panicked
unfolding schema_container schema_of anonymous_defs run_enum_schema process_struct add_definition
    declaration_code contains_skip tuple_schema
same_struct_name-panicked = refl

run_enum_schema-ok_iff_example :
    ((definitions : Definitions) × (schema_container (enum_of "A" "BC" (primitive u8))
        ≡ ok (record { declaration = "A"; definitions = definitions })))
    ↔ ((meaning : Declaration → Definition) × Agrees meaning
          (enum_entries schema_of no_params needed (one_variant "A" "BC" (primitive u8))))
unfolding declaration_code
run_enum_schema-ok_iff_example =
    run_enum_schema-ok_iff schema_of no_params needed adds_needed any_ident phantom_data
      (one_variant "A" "BC" (primitive u8)) (expansion_of (one_variant "A" "BC" (primitive u8)))
      (expansion-run "A" "BC" (primitive u8))

run_enum_schema-Defines_example :
    (enum_container.declaration ≡ "A")
    × UniqueNames enum_container.definitions
    × Defines enum_container.definitions
        (enum_entries schema_of no_params needed (one_variant "A" "BC" (primitive u8)))
    × All
        (λ entry.
          Mem entry (enum_entries schema_of no_params needed (one_variant "A" "BC" (primitive u8))))
        enum_container.definitions
unfolding declaration_code
run_enum_schema-Defines_example =
    run_enum_schema-Defines schema_of no_params needed adds_needed any_ident phantom_data
      (one_variant "A" "BC" (primitive u8)) (expansion_of (one_variant "A" "BC" (primitive u8)))
      enum_container (expansion-run "A" "BC" (primitive u8)) enum-run

process_struct-struct_ser_example :
    (all_some (schema_entries (process_struct pair_item).fields)
      ≡ written_entries pair_fields
          (struct_ser (record { attrs = []; predicates = []; fields = pair_fields })))
    ↔ NoSkippedIndex pair_fields
process_struct-struct_ser_example =
    process_struct-struct_ser (record { attrs = []; predicates = []; fields = pair_fields })
      pair_item refl tt
