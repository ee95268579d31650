-- ===== src/SchemaFormat.antt =====
-- borsh/src/schema.rs: how schemas are themselves serialized. `Definition`, `Fields` and
-- `BorshSchemaContainer` derive both traits, so their implementations are what the derive macros
-- make of these items. A `String` is a native text here; its bytes are an argument.
pub mod Lookup
pub mod Differ
pub mod Writes
pub mod Reads
pub mod RoundTrip
use Prim.Native.String.{String}
use text.Mathlib.Text.{◌==◌ as str_eq}
use borsh_rs.Prelude.{ℕ, ◌≡◌, true, Bool, List, [], ◌∷◌, none, inl, inr, All}
use borsh_rs.Num.{is_utf8}
use borsh_rs.Encoding.{IsUint}
use borsh_rs.Io.{Read, Write}
use borsh_rs.Ser.{BorshSerialize, no_u8_slice}
use borsh_rs.Ser.Primitives.{uint_ser}
use borsh_rs.Ser.Containers.{vec_ser, tuple_ser, string_ser}
use borsh_rs.Ser.Collections.{serialize_hash_map}
use borsh_rs.Ser.Wrappers.{owned_ser}
use borsh_rs.De.{Target, BorshDeserialize}
use borsh_rs.De.Primitives.{uint_de, plain_de}
use borsh_rs.De.Containers.{vec_de, tuple_de, string_de}
use borsh_rs.De.Collections.{deserialize_hash_map}
use borsh_rs.De.Wrappers.{owned_de}
use borsh_rs.Derive.{Field, Fields, named, unnamed, unit, ItemStruct}
use borsh_rs.Derive.Code.{Values, field_list}
use borsh_rs.Derive.Discriminants.{Variant}
use borsh_rs.Derive.Enum.{ItemEnum}
use borsh_rs.Derive.Enum.Run.{EnumValue}
use borsh_rs.Derive.Nested.{
  derived_struct_ser, derived_enum_ser, derived_struct_de, derived_enum_de,
}
use borsh_rs.Schema.{Declaration, Definition, Definitions, BorshSchemaContainer}
use borsh_rs.Schema as schema

-- `String::as_bytes`, and what `String::from_utf8` makes of a text's bytes.
pub record Text : Type 0 where
  pub as_bytes : String → List ℕ
  pub from_utf8 : List ℕ → String

pub record IsText (text : Text) : Type 0 where
  pub same : (s : String) → text.from_utf8 (text.as_bytes s) ≡ s
  pub bytes : (s : String) → All (IsUint 1) (text.as_bytes s)
  pub utf8 : (s : String) → is_utf8 (text.as_bytes s) ≡ true

-- The types of the fields of `Fields` and, with `Fields` itself, of `Definition`.
pub data Part : Type 0 where
  u32 word words pairs : Part

pub data DefinitionPart : Type 0 where
  part : Part → DefinitionPart
  fields_part : DefinitionPart

pub data ContainerPart : Type 0 where
  declaration definitions : ContainerPart

abbrev pub PartValue : Part → Type 0
PartValue u32 = ℕ
PartValue word = String
PartValue words = List String
PartValue pairs = List (String × String)

abbrev pub DefinitionValue : DefinitionPart → Type 0
DefinitionValue (part a) = PartValue a
DefinitionValue fields_part = schema.Fields

abbrev pub ContainerValue : ContainerPart → Type 0
ContainerValue declaration = Declaration
ContainerValue definitions = Definitions

abbrev pub field : {Ty : Type 0} → String → Ty → Field Ty
field ident a = record { ident = ident; attrs = []; ty = a }

abbrev pub variant : {Ty : Type 0} → String → Fields Ty → Variant Ty
variant ident fields = record { ident = ident; discriminant = none; fields = fields }

-- The items.
abbrev pub fields_item : ItemEnum Part
fields_item = record {
  attrs = [];
  predicates = [];
  variants =
      variant "NamedFields" (unnamed (field "" pairs ∷ []))
      ∷ variant "UnnamedFields" (unnamed (field "" words ∷ []))
      ∷ variant "Empty" unit
      ∷ [];
}

abbrev pub definition_item : ItemEnum DefinitionPart
definition_item = record {
  attrs = [];
  predicates = [];
  variants =
      variant "Array" (named (field "length" (part u32) ∷ field "elements" (part word) ∷ []))
      ∷ variant "Sequence" (named (field "elements" (part word) ∷ []))
      ∷ variant "Tuple" (named (field "elements" (part words) ∷ []))
      ∷ variant "Enum" (named (field "variants" (part pairs) ∷ []))
      ∷ variant "Struct" (named (field "fields" fields_part ∷ []))
      ∷ [];
}

abbrev pub container_item : ItemStruct ContainerPart
container_item = record {
  attrs = [];
  predicates = [];
  fields = named (field "declaration" declaration ∷ field "definitions" definitions ∷ []);
}

-- Their values as values of the items, and back.
abbrev pub fields_value : schema.Fields → EnumValue PartValue fields_item.variants
fields_value (schema.named_fields xs) = inl (xs, tt)
fields_value (schema.unnamed_fields xs) = inr (inl (xs, tt))
fields_value schema.empty = inr (inr (inl tt))

abbrev pub fields_of : EnumValue PartValue fields_item.variants → schema.Fields
fields_of (inl (xs, u)) = schema.named_fields xs
fields_of (inr (inl (xs, u))) = schema.unnamed_fields xs
fields_of (inr (inr (inl u))) = schema.empty
fields_of (inr (inr (inr x))) = absurd x

abbrev pub definition_value : Definition → EnumValue DefinitionValue definition_item.variants
definition_value (schema.array n elements) = inl (n, (elements, tt))
definition_value (schema.sequence elements) = inr (inl (elements, tt))
definition_value (schema.tuple elements) = inr (inr (inl (elements, tt)))
definition_value (schema.enum xs) = inr (inr (inr (inl (xs, tt))))
definition_value (schema.struct xs) = inr (inr (inr (inr (inl (xs, tt)))))

abbrev pub definition_of : EnumValue DefinitionValue definition_item.variants → Definition
definition_of (inl (n, (elements, u))) = schema.array n elements
definition_of (inr (inl (elements, u))) = schema.sequence elements
definition_of (inr (inr (inl (elements, u)))) = schema.tuple elements
definition_of (inr (inr (inr (inl (xs, u))))) = schema.enum xs
definition_of (inr (inr (inr (inr (inl (xs, u)))))) = schema.struct xs
definition_of (inr (inr (inr (inr (inr x))))) = absurd x

abbrev pub container_value :
    BorshSchemaContainer → Values ContainerValue (field_list container_item.fields)
container_value c = (c.declaration, (c.definitions, tt))

abbrev pub container_of :
    Values ContainerValue (field_list container_item.fields) → BorshSchemaContainer
container_of (name, (entries, u)) = record { declaration = name; definitions = entries }

-- The implementations. `le` is the order of texts that sorts the keys of a `HashMap`.
module _ {W : Type 0} ⦃wr : Write W⦄ (text : Text) (le : String → String → Bool) where
  abbrev pub word_ser : BorshSerialize W String
  word_ser = owned_ser string_ser text.as_bytes

  abbrev pub part_ser : (a : Part) → BorshSerialize W (PartValue a)
  part_ser u32 = uint_ser 4
  part_ser word = word_ser
  part_ser words = vec_ser word_ser
  part_ser pairs = vec_ser (tuple_ser word_ser word_ser)

  abbrev pub fields_ser : BorshSerialize W schema.Fields
  fields_ser = owned_ser (derived_enum_ser part_ser fields_item) fields_value

  abbrev pub definition_part_ser : (a : DefinitionPart) → BorshSerialize W (DefinitionValue a)
  definition_part_ser (part a) = part_ser a
  definition_part_ser fields_part = fields_ser

  abbrev pub definition_ser : BorshSerialize W Definition
  definition_ser = owned_ser (derived_enum_ser definition_part_ser definition_item) definition_value

  abbrev pub container_part_ser : (a : ContainerPart) → BorshSerialize W (ContainerValue a)
  container_part_ser declaration = word_ser
  container_part_ser definitions = record {
    serialize = serialize_hash_map word_ser definition_ser le;
    u8_slice = no_u8_slice;
  }

  abbrev pub container_ser : BorshSerialize W BorshSchemaContainer
  container_ser = owned_ser (derived_struct_ser container_part_ser container_item) container_value

-- What a skipped field would get; there is none.
abbrev pub part_default : (a : Part) → PartValue a
part_default u32 = 0
part_default word = ""
part_default words = []
part_default pairs = []

abbrev pub definition_part_default : (a : DefinitionPart) → DefinitionValue a
definition_part_default (part a) = part_default a
definition_part_default fields_part = schema.empty

abbrev pub container_part_default : (a : ContainerPart) → ContainerValue a
container_part_default declaration = ""
container_part_default definitions = []

-- The sizes are those of a machine of 64 bits; only whether one is 0 matters.
module _ {R : Type 0} ⦃rd : Read R⦄ (text : Text) (utf8_error : List ℕ → String) (t : Target) where
  abbrev pub word_de : BorshDeserialize R String
  word_de = owned_de (string_de utf8_error t) text.from_utf8 24

  abbrev pub part_de : (a : Part) → BorshDeserialize R (PartValue a)
  part_de u32 = uint_de 4
  part_de word = word_de
  part_de words = vec_de word_de t
  part_de pairs = vec_de (tuple_de word_de word_de 48) t

  abbrev pub fields_de : BorshDeserialize R schema.Fields
  fields_de = owned_de (derived_enum_de part_de part_default fields_item 32) fields_of 32

  abbrev pub definition_part_de : (a : DefinitionPart) → BorshDeserialize R (DefinitionValue a)
  definition_part_de (part a) = part_de a
  definition_part_de fields_part = fields_de

  abbrev pub definition_de : BorshDeserialize R Definition
  definition_de =
      owned_de (derived_enum_de definition_part_de definition_part_default definition_item 40)
        definition_of 40

  abbrev pub container_part_de : (a : ContainerPart) → BorshDeserialize R (ContainerValue a)
  container_part_de declaration = word_de
  container_part_de definitions = plain_de (deserialize_hash_map word_de definition_de str_eq) 48

  abbrev pub container_de : BorshDeserialize R BorshSchemaContainer
  container_de =
      owned_de (derived_struct_de container_part_de container_part_default container_item 72)
        container_of 72
