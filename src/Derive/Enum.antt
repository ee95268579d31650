-- ===== src/Derive/Enum.antt =====
-- borsh-derive-internal/src/enum_ser.rs and borsh-derive-internal/src/enum_de.rs.
pub mod Run
pub mod Laws
pub mod Patterns
pub mod Spec
pub mod Writes
pub mod Reads
pub mod Total
use Prim.Native.String.{String, ◌++◌ as str_append}
use text.Mathlib.Text.{◌==◌ as str_eq}
use borsh_rs.Prelude.{
  ℕ, zero, suc, ◌^◌, ◌==◌, ◌⊎◌, inl, inr, Bool, true, false, ◌&&◌, List, [], ◌∷◌, ◌++◌, Option,
  none, some, ltb, if◌then◌else◌,
}
use borsh_rs.Num.{decimal_u8}
use borsh_rs.Io.{
  M, Read, Write, pure, fail, panicked, custom, invalid_input, ◌>>=◌ as io_bind, ◌>>◌ as io_then,
}
use borsh_rs.Ser.{BorshSerialize}
use borsh_rs.Ser.Primitives.{serialize_u8}
use borsh_rs.De.{BorshDeserialize}
use borsh_rs.De.Primitives.{deserialize_u8}
use package.borsh_rs.Derive.{
  Attribute, Field, Fields, named, unnamed, unit, Predicate, bound, Expansion, code, error,
  macro_panicked, contains_skip, contains_initialize_with, ◌>>=◌,
}
use package.borsh_rs.Derive.Code.{
  Ident, name, id, unused_id, underscored, Init, Values, field_list, serialize_names, run_inits,
}
use package.borsh_rs.Derive.Discriminants.{Token, Variant, discriminant_map, value}
use package.borsh_rs.Derive.Struct.{named_body, named_predicates, named_inits, run_init}

pub record ItemEnum (Ty : Type 0) : Type 0 where
  pub attrs : List Attribute
  pub predicates : List (Predicate Ty)
  pub variants : List (Variant Ty)

-- An arm of the generated matches: the names that its pattern binds, and those that are serialized.
pub record SerArm : Type 0 where
  pub variant : String
  pub discriminant : List Token
  pub variant_header : List Ident
  pub variant_body : List Ident

pub record EnumSer (Ty : Type 0) : Type 0 where
  pub predicates : List (Predicate Ty)
  pub arms : List SerArm

-- An `if variant_tag == ... { ... } else` of the generated `deserialize_variant`.
pub record DeArm : Type 0 where
  pub variant : String
  pub discriminant : List Token
  pub variant_header : List Init

pub record EnumDe (Ty : Type 0) : Type 0 where
  pub predicates : List (Predicate Ty)
  pub arms : List DeArm
  pub init : Option String

-- `discriminants.get(variant_ident).unwrap()`
unfoldable pub get_unwrap : String → List (String × List Token) → Expansion (List Token)
get_unwrap ident [] = macro_panicked
get_unwrap ident ((key, tokens) ∷ rest) =
    let later = get_unwrap ident rest in if str_eq key ident then code tokens else later

module _ {Ty : Type 0} where
  -- The patterns. `_#field_name` is two tokens, and `_id{}` is one.
  unfoldable pub named_header : List (Field Ty) → List Ident
  unfolding contains_skip
  named_header [] = []
  named_header (field ∷ fields) =
      (if contains_skip field.attrs then underscored field.ident else name field.ident)
      ∷ named_header fields

  unfoldable pub unnamed_header : ℕ → List (Field Ty) → List Ident
  unfolding contains_skip
  unnamed_header field_idx [] = []
  unnamed_header field_idx (field ∷ fields) =
      (if contains_skip field.attrs then unused_id field_idx else id field_idx)
      ∷ unnamed_header (suc field_idx) fields

  unfoldable pub unnamed_ids : ℕ → List (Field Ty) → List Ident
  unfolding contains_skip
  unnamed_ids field_idx [] = []
  unnamed_ids field_idx (field ∷ fields) =
      let rest = unnamed_ids (suc field_idx) fields in
      if contains_skip field.attrs then rest else id field_idx ∷ rest

  abbrev pub variant_header : Fields Ty → List Ident
  variant_header (named fields) = named_header fields
  variant_header (unnamed fields) = unnamed_header 0 fields
  variant_header unit = []

  abbrev pub variant_body : Fields Ty → List Ident
  variant_body (named fields) = named_body fields
  variant_body (unnamed fields) = unnamed_ids 0 fields
  variant_body unit = []

  -- Here the types of unnamed fields get a bound too.
  abbrev pub variant_predicates : Fields Ty → List (Predicate Ty)
  variant_predicates (named fields) = named_predicates fields
  variant_predicates (unnamed fields) = named_predicates fields
  variant_predicates unit = []

  unfoldable pub predicates_of : List (Variant Ty) → List (Predicate Ty)
  unfolding named_predicates
  predicates_of [] = []
  predicates_of (variant ∷ variants) = variant_predicates variant.fields ++ predicates_of variants

  -- The loop over the variants.
  unfoldable pub ser_arms : List (String × List Token) → List (Variant Ty) → Expansion (List SerArm)
  unfolding get_unwrap named_header unnamed_header named_body unnamed_ids
  ser_arms discriminants [] = code []
  ser_arms discriminants (variant ∷ variants) = do
    tokens ← get_unwrap variant.ident discriminants
    rest ← ser_arms discriminants variants
    code (
        record {
          variant = variant.ident;
          discriminant = tokens;
          variant_header = variant_header variant.fields;
          variant_body = variant_body variant.fields;
        }
        ∷ rest)

  unfoldable pub enum_ser : ItemEnum Ty → Expansion (EnumSer Ty)
  unfolding ser_arms predicates_of discriminant_map
  enum_ser input = do
    arms ← ser_arms (discriminant_map input.variants) input.variants
    code (record { predicates = input.predicates ++ predicates_of input.variants; arms = arms })

  abbrev pub variant_inits : Fields Ty → List Init
  variant_inits (named fields) = named_inits fields
  variant_inits (unnamed fields) = named_inits fields
  variant_inits unit = []

  unfoldable pub de_arms : List (String × List Token) → List (Variant Ty) → Expansion (List DeArm)
  unfolding get_unwrap named_inits
  de_arms discriminants [] = code []
  de_arms discriminants (variant ∷ variants) = do
    tokens ← get_unwrap variant.ident discriminants
    rest ← de_arms discriminants variants
    code (
        record {
          variant = variant.ident;
          discriminant = tokens;
          variant_header = variant_inits variant.fields;
        }
        ∷ rest)

  unfoldable pub enum_de : ItemEnum Ty → Expansion (EnumDe Ty)
  unfolding contains_initialize_with de_arms predicates_of discriminant_map
  enum_de input = do
    init_method ← contains_initialize_with input.attrs
    arms ← de_arms (discriminant_map input.variants) input.variants
    code (record {
      predicates = input.predicates ++ predicates_of input.variants;
      arms = arms;
      init = init_method;
    })
