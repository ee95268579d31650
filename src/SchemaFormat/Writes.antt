-- ===== src/SchemaFormat/Writes.antt =====
-- borsh/src/schema.rs: the derived `BorshSerialize` for `Fields`, `Definition` and
-- `BorshSchemaContainer`.
use Prim.Native.String.{String}
use borsh_rs.Prelude.{arith, ℕ, ◌≡◌, refl, Bool, true, inl, List}
use borsh_rs.Num.{is_utf8}
use borsh_rs.Io.{Write}
use borsh_rs.Io.Laws.{IsWrite}
use borsh_rs.Encoding.{encode_u8, encode_uint, encode_seq, encode_pair, IsUint, SeqValid, PairValid}
use borsh_rs.Ser.Laws.{IsSerialize, uint_ser-IsSerialize}
use borsh_rs.Ser.Compose.{vec_ser-IsSerialize, tuple_ser-IsSerialize, string_ser-IsSerialize}
use borsh_rs.Ser.Collections.{serialize_hash_map}
use borsh_rs.Ser.CollectionLaws.{serialize_btree_map-encode_seq}
use borsh_rs.Ser.Sorting.{sort_by-All, length-sort_by}
use borsh_rs.RoundTrip.Wrappers.{owned_ser-IsSerialize}
use borsh_rs.Derive.Code.{names, field_list}
use borsh_rs.Derive.Discriminants.{value}
use borsh_rs.Derive.Discriminants.Laws.{compiler_discriminants}
use borsh_rs.Derive.{contains_skip}
use borsh_rs.Derive.Kept.{encode_kept}
use borsh_rs.Derive.Struct.Laws.{kept}
use borsh_rs.Derive.Enum.Spec.{encode_enum, EnumValid}
use borsh_rs.Derive.Nested.{derived_struct_ser-IsSerialize, derived_enum_ser-IsSerialize}
use borsh_rs.Schema.{Declaration, Definition, Definitions, BorshSchemaContainer}
use borsh_rs.Schema as schema
use package.borsh_rs.SchemaFormat.{
  Text, Part, u32, word, words, pairs, DefinitionPart, part, fields_part, ContainerPart,
  declaration, definitions, PartValue, DefinitionValue, ContainerValue, fields_item,
  definition_item, container_item, fields_value, definition_value, container_value, word_ser,
  part_ser, fields_ser, definition_part_ser, definition_ser, container_part_ser, container_ser,
  fields_of, definition_of, container_of,
}
use package.borsh_rs.SchemaFormat.Lookup.{sorted}

-- What is written, and what can be.
module _ (text : Text) where
  abbrev pub WordValid : String → Type 0
  WordValid s = SeqValid (IsUint 1) (text.as_bytes s) × (is_utf8 (text.as_bytes s) ≡ true)

  abbrev pub encode_word : String → List ℕ
  encode_word s = encode_seq encode_u8 (text.as_bytes s)

  abbrev pub PartValid : (a : Part) → PartValue a → Type 0
  PartValid u32 = IsUint 4
  PartValid word = WordValid
  PartValid words = SeqValid WordValid
  PartValid pairs = SeqValid (PairValid WordValid WordValid)

  abbrev pub encode_part : (a : Part) → PartValue a → List ℕ
  encode_part u32 = encode_uint 4
  encode_part word = encode_word
  encode_part words = encode_seq encode_word
  encode_part pairs = encode_seq (encode_pair encode_word encode_word)

  abbrev pub FieldsValid : schema.Fields → Type 0
  FieldsValid x = EnumValid PartValid fields_item.variants (fields_value x)

  abbrev pub encode_fields : schema.Fields → List ℕ
  encode_fields x =
      encode_enum encode_part (compiler_discriminants 0 fields_item.variants) fields_item.variants
        (fields_value x)

  abbrev pub DefinitionPartValid : (a : DefinitionPart) → DefinitionValue a → Type 0
  DefinitionPartValid (part a) = PartValid a
  DefinitionPartValid fields_part = FieldsValid

  abbrev pub encode_definition_part : (a : DefinitionPart) → DefinitionValue a → List ℕ
  encode_definition_part (part a) = encode_part a
  encode_definition_part fields_part = encode_fields

  abbrev pub DefinitionValid : Definition → Type 0
  DefinitionValid x = EnumValid DefinitionPartValid definition_item.variants (definition_value x)

  abbrev pub encode_definition : Definition → List ℕ
  encode_definition x =
      encode_enum encode_definition_part (compiler_discriminants 0 definition_item.variants)
        definition_item.variants (definition_value x)

  abbrev pub EntriesValid : Definitions → Type 0
  EntriesValid = SeqValid (PairValid WordValid DefinitionValid)

  abbrev pub encode_entries : Definitions → List ℕ
  encode_entries = encode_seq (encode_pair encode_word encode_definition)

  abbrev pub ContainerPartValid : (a : ContainerPart) → ContainerValue a → Type 0
  ContainerPartValid declaration = WordValid
  ContainerPartValid definitions = EntriesValid

  abbrev pub encode_container_part :
      (String → String → Bool) → (a : ContainerPart) → ContainerValue a → List ℕ
  encode_container_part le declaration = encode_word
  encode_container_part le definitions = λ xs. encode_entries (sorted le xs)

  abbrev pub ContainerValid : BorshSchemaContainer → Type 0
  ContainerValid c = WordValid c.declaration × EntriesValid c.definitions

  abbrev pub encode_container : (String → String → Bool) → BorshSchemaContainer → List ℕ
  encode_container le c =
      encode_kept (kept container_item.fields) (encode_container_part le)
        (field_list container_item.fields) (container_value c)

  module _ {W : Type 0} ⦃wr : Write W⦄ (law : IsWrite wr) (le : String → String → Bool) where
    word_ser-IsSerialize : IsSerialize wr (word_ser text le) WordValid encode_word
    word_ser-IsSerialize = record {
      emits = λ s v.
          (owned_ser-IsSerialize text.from_utf8 text.as_bytes (string_ser-IsSerialize law)).emits s
            v.0;
      slices = λ xs. inl refl;
    }

    part_ser-IsSerialize :
        (a : Part) → IsSerialize wr (part_ser text le a) (PartValid a) (encode_part a)
    part_ser-IsSerialize u32 = uint_ser-IsSerialize 4
    part_ser-IsSerialize word = word_ser-IsSerialize
    part_ser-IsSerialize words = vec_ser-IsSerialize law word_ser-IsSerialize
    part_ser-IsSerialize pairs =
        vec_ser-IsSerialize law
          (tuple_ser-IsSerialize law word_ser-IsSerialize word_ser-IsSerialize)

    fields_ser-IsSerialize : IsSerialize wr (fields_ser text le) FieldsValid encode_fields
    unfolding contains_skip names value
    fields_ser-IsSerialize = owned_ser-IsSerialize fields_of fields_value (
        derived_enum_ser-IsSerialize law part_ser-IsSerialize fields_item
          ((refl, (refl, tt)), ((refl, tt), (tt, tt))) (tt, (tt, (tt, tt))) (tt, (tt, (tt, tt)))
          (omega arith, (omega arith, (omega arith, tt))) (tt, (tt, (tt, tt))))

    definition_part_ser-IsSerialize :
        (a : DefinitionPart)
        → IsSerialize wr
            (definition_part_ser text le a)
            (DefinitionPartValid a)
            (encode_definition_part a)
    definition_part_ser-IsSerialize (part a) = part_ser-IsSerialize a
    definition_part_ser-IsSerialize fields_part = fields_ser-IsSerialize

    definition_ser-IsSerialize :
        IsSerialize wr (definition_ser text le) DefinitionValid encode_definition
    unfolding contains_skip names value
    definition_ser-IsSerialize = owned_ser-IsSerialize definition_of definition_value (
        derived_enum_ser-IsSerialize law definition_part_ser-IsSerialize definition_item
          (
            (refl, (refl, (refl, (refl, tt)))),
            ((refl, (refl, (refl, tt))), ((refl, (refl, tt)), ((refl, tt), (tt, tt)))),
          )
          (tt, (tt, (tt, (tt, (tt, tt)))))
          (
            ((refl, refl), ((refl, refl), tt)),
            (
              ((refl, refl), tt),
              (((refl, refl), tt), (((refl, refl), tt), (((refl, refl), tt), tt))),
            ),
          )
          (omega arith, (omega arith, (omega arith, (omega arith, (omega arith, tt)))))
          (((refl, tt), (tt, tt)), ((tt, tt), ((tt, tt), ((tt, tt), ((tt, tt), tt))))))

    -- The entries are written in the order of their names.
    entries-IsSerialize :
        IsSerialize wr
          (container_part_ser text le definitions)
          EntriesValid
          (λ xs. encode_entries (sorted le xs))
    unfolding serialize_hash_map
    entries-IsSerialize = record {
      emits = λ xs v. record {
        writes = λ w.
            serialize_btree_map-encode_seq law word_ser-IsSerialize definition_ser-IsSerialize
              (sorted le xs) w
              (
                (rw (length-sort_by (λ e. e.0) le xs) v.0),
                sort_by-All (λ e. e.0) le (PairValid WordValid DefinitionValid) xs v.1,
              );
      };
      slices = λ xs. inl refl;
    }

    container_part_ser-IsSerialize :
        (a : ContainerPart)
        → IsSerialize wr
            (container_part_ser text le a)
            (ContainerPartValid a)
            (encode_container_part le a)
    container_part_ser-IsSerialize declaration = word_ser-IsSerialize
    container_part_ser-IsSerialize definitions = entries-IsSerialize

    pub container_ser-IsSerialize :
        IsSerialize wr (container_ser text le) ContainerValid (encode_container le)
    unfolding contains_skip names
    container_ser-IsSerialize = record {
      emits = λ c v.
          (owned_ser-IsSerialize container_of container_value (
              derived_struct_ser-IsSerialize law container_part_ser-IsSerialize container_item
                ((refl, tt), (tt, tt)))).emits
            c ((λ k. v.0), ((λ k. v.1), tt));
      slices = λ xs. inl refl;
    }
