-- ===== src/MacrosTests.antt =====
-- The theorem on the entry points of the macros, and what they emit, for tokens that are one item of
-- each kind.
use Prim.Native.String.{String}
use text.Mathlib.Text.{◌==◌ as str_eq}
use borsh_rs.DeriveSchema.Enum.{process_enum, anonymous_defs}
use borsh_rs.Prelude.{◌≡◌, if◌then◌else◌, refl, Bool, true, false, Option, none, some, [], ◌∷◌}
use borsh_rs.Derive.{Attribute, unit, ItemStruct}
use borsh_rs.Derive.Enum.{ItemEnum}
use borsh_rs.Derive.{contains_initialize_with}
use borsh_rs.Macros.{Syn, panic, compile_error, unions_unsupported, borsh_deserialize, borsh_schema}

data Tokens : Type 0 where
  a_struct an_enum a_union : Tokens

-- `#[borsh_init()] struct A;`
abbrev item_struct : ItemStruct Bool
item_struct = record { attrs = Attribute.list "borsh_init" [] ∷ []; predicates = []; fields = unit }

-- `enum A { B, B }`
abbrev item_enum : ItemEnum Bool
item_enum = record {
  attrs = [];
  predicates = [];
  variants =
      record { ident = "B"; discriminant = none; fields = unit }
      ∷ record { ident = "B"; discriminant = none; fields = unit }
      ∷ [];
}

abbrev parse_struct_tokens : Tokens → Option (ItemStruct Bool)
parse_struct_tokens a_struct = some item_struct
parse_struct_tokens _ = none

abbrev parse_enum_tokens : Tokens → Option (ItemEnum Bool)
parse_enum_tokens an_enum = some item_enum
parse_enum_tokens _ = none

abbrev parse_union_tokens : Tokens → Bool
parse_union_tokens a_union = true
parse_union_tokens _ = false

abbrev parser : Syn Tokens Bool
parser = record {
  parse_struct = parse_struct_tokens;
  parse_enum = parse_enum_tokens;
  parse_union = parse_union_tokens;
  schema_struct =
      λ item. record { ident = "A"; type_params = []; where_clause = none; fields = item.fields };
  schema_enum = λ item. record {
    ident = "A";
    type_params = [];
    where_clause = none;
    variants = item.variants;
  };
}

-- `enum A { r#type }`
abbrev raw_enum : ItemEnum Bool
raw_enum = record {
  attrs = [];
  predicates = [];
  variants = record { ident = "r#type"; discriminant = none; fields = unit } ∷ [];
}

abbrev parse_raw_enum : Tokens → Option (ItemEnum Bool)
parse_raw_enum an_enum = some raw_enum
parse_raw_enum _ = none

abbrev raw_parser : Syn Tokens Bool
raw_parser = record {
  parse_struct = parse_struct_tokens;
  parse_enum = parse_raw_enum;
  parse_union = parse_union_tokens;
  schema_struct = parser.schema_struct;
  schema_enum = parser.schema_enum;
}

-- Only the schema of a union is refused with a message.
union-schema :
    borsh_schema parser none (λ text. true) true a_union ≡ compile_error unions_unsupported
unfolding borsh_schema
union-schema = refl

no_method :
    borsh_deserialize parser none a_struct
    ≡ compile_error "borsh_init requires exactly one initialization method."
unfolding borsh_deserialize contains_initialize_with
no_method = refl

-- As `proc_macro2` has it for these two names.
abbrev not_raw : String → Bool
not_raw text = if str_eq text "Ar#type" then false else true

-- `enum A { r#type }` has no schema.
raw-schema : borsh_schema raw_parser none not_raw true an_enum ≡ panic
unfolding borsh_schema process_enum anonymous_defs
raw-schema = refl
