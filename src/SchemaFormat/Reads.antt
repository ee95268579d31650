-- ===== src/SchemaFormat/Reads.antt =====
-- borsh/src/schema.rs: the derived `BorshDeserialize` for `Fields`, `Definition` and
-- `BorshSchemaContainer`.
use Prim.Native.String.{String}
use text.Mathlib.Text.{◌==◌ as str_eq}
use borsh_rs.Prelude.{ℕ, ◌+◌, ◌≤◌, ◌^◌, ◌≡◌, refl, Bool, true, List, arith}
use borsh_rs.Num.{is_utf8}
use borsh_rs.Io.{Read}
use borsh_rs.Io.Laws.{IsRead, Reads}
use borsh_rs.Encoding.{encode_u8, encode_seq, IsUint, SeqValid, PairValid}
use borsh_rs.Ser.Sorting.{sort_by-All, length-sort_by}
use borsh_rs.De.{Target}
use borsh_rs.De.Laws.{IsDeserialize}
use borsh_rs.De.Reads.{plain-IsDeserialize, uint_de-IsDeserialize}
use borsh_rs.De.Compose.{vec_de-IsDeserialize, deserialize_tuple-Reads}
use borsh_rs.De.ByteStrings.{deserialize_string-Reads}
use borsh_rs.De.MapReads.{KeysApart, deserialize_hash_map-encode_seq}
use borsh_rs.RoundTrip.Wrappers.{owned_de-IsDeserialize}
use borsh_rs.Derive.{contains_skip, contains_initialize_with}
use borsh_rs.Derive.Discriminants.{value}
use borsh_rs.Derive.Nested.{derived_struct_de-IsDeserialize, derived_enum_de-IsDeserialize}
use borsh_rs.Schema.{Declaration, Definition, Definitions, BorshSchemaContainer}
use borsh_rs.Schema as schema
use package.borsh_rs.SchemaFormat.{
  Text, IsText, Part, u32, word, words, pairs, DefinitionPart, part, fields_part, ContainerPart,
  declaration, definitions, ContainerValue, fields_item, definition_item, container_item,
  fields_value, definition_value, container_value, fields_of, definition_of, container_of,
  part_default, definition_part_default, container_part_default, word_de, part_de, fields_de,
  definition_part_de, definition_de, container_part_de, container_de,
}
use package.borsh_rs.SchemaFormat.Lookup.{Apart, sorted, sorted_container, sort_by-KeysApart}
use package.borsh_rs.SchemaFormat.Writes.{
  WordValid, encode_word, PartValid, encode_part, FieldsValid, encode_fields, DefinitionPartValid,
  encode_definition_part, DefinitionValid, encode_definition, EntriesValid, encode_entries,
  ContainerValid, encode_container,
}

EntriesValid-sorted :
    (text : Text) (le : String → String → Bool) (xs : Definitions)
    → EntriesValid text xs
    → EntriesValid text (sorted le xs)
EntriesValid-sorted text le xs v = (
  rw (length-sort_by (λ e. e.0) le xs) v.0,
  sort_by-All (λ e. e.0) le (PairValid (WordValid text) (DefinitionValid text)) xs v.1,
)

fields_same : (x : schema.Fields) → fields_of (fields_value x) ≡ x
fields_same (schema.named_fields xs) = refl
fields_same (schema.unnamed_fields xs) = refl
fields_same schema.empty = refl

definition_same : (x : Definition) → definition_of (definition_value x) ≡ x
definition_same (schema.array n elements) = refl
definition_same (schema.sequence elements) = refl
definition_same (schema.tuple elements) = refl
definition_same (schema.enum xs) = refl
definition_same (schema.struct xs) = refl

module _ {R : Type 0} ⦃rd : Read R⦄ {view : R → List ℕ} (law : IsRead rd view) (text : Text)
    (texts : IsText text) (utf8_error : List ℕ → String) (t : Target)
    (wide : 2 ^ 32 ≤ t.usize_max + 1) where
  word_de-IsDeserialize :
      IsDeserialize view (word_de text utf8_error t) (WordValid text) (encode_word text)
  word_de-IsDeserialize =
      owned_de-IsDeserialize text.from_utf8 text.as_bytes law 24 (omega arith) texts.same (
        plain-IsDeserialize law _ 24 {Valid = λ s. SeqValid (IsUint 1) s × (is_utf8 s ≡ true)}
          {enc = encode_seq encode_u8} (omega arith)
          (λ s v. deserialize_string-Reads law t wide utf8_error s v.0 v.1))

  part_de-IsDeserialize :
      (a : Part)
      → IsDeserialize view (part_de text utf8_error t a) (PartValid text a) (encode_part text a)
  part_de-IsDeserialize u32 = uint_de-IsDeserialize law 4 (omega arith)
  part_de-IsDeserialize word = word_de-IsDeserialize
  part_de-IsDeserialize words = vec_de-IsDeserialize law word_de-IsDeserialize t wide
  part_de-IsDeserialize pairs =
      vec_de-IsDeserialize law
        (plain-IsDeserialize law _ 48 (omega arith)
          (deserialize_tuple-Reads law word_de-IsDeserialize word_de-IsDeserialize))
        t wide

  fields_de-IsDeserialize :
      IsDeserialize view (fields_de text utf8_error t) (FieldsValid text) (encode_fields text)
  unfolding contains_skip contains_initialize_with value
  fields_de-IsDeserialize =
      owned_de-IsDeserialize fields_of fields_value law 32 (omega arith) fields_same (
        derived_enum_de-IsDeserialize law part_default part_de-IsDeserialize 32 (omega arith)
          fields_item refl ((refl, (refl, tt)), ((refl, tt), (tt, tt))) (tt, (tt, (tt, tt)))
          (omega arith, (omega arith, (omega arith, tt)))
          ((refl, (refl, tt)), ((refl, tt), (tt, tt))) ((refl, tt), ((refl, tt), (tt, tt))))

  definition_part_de-IsDeserialize :
      (a : DefinitionPart)
      → IsDeserialize view
          (definition_part_de text utf8_error t a)
          (DefinitionPartValid text a)
          (encode_definition_part text a)
  definition_part_de-IsDeserialize (part a) = part_de-IsDeserialize a
  definition_part_de-IsDeserialize fields_part = fields_de-IsDeserialize

  definition_de-IsDeserialize :
      IsDeserialize view
        (definition_de text utf8_error t)
        (DefinitionValid text)
        (encode_definition text)
  unfolding contains_skip contains_initialize_with value
  definition_de-IsDeserialize =
      owned_de-IsDeserialize definition_of definition_value law 40 (omega arith) definition_same (
        derived_enum_de-IsDeserialize law definition_part_default definition_part_de-IsDeserialize
          40 (omega arith) definition_item refl
          (
            (refl, (refl, (refl, (refl, tt)))),
            ((refl, (refl, (refl, tt))), ((refl, (refl, tt)), ((refl, tt), (tt, tt)))),
          )
          (tt, (tt, (tt, (tt, (tt, tt)))))
          (omega arith, (omega arith, (omega arith, (omega arith, (omega arith, tt)))))
          (
            (refl, (refl, (refl, (refl, tt)))),
            ((refl, (refl, (refl, tt))), ((refl, (refl, tt)), ((refl, tt), (tt, tt)))),
          )
          ((refl, (refl, tt)), ((refl, tt), ((refl, tt), ((refl, tt), ((refl, tt), tt))))))

  -- Entries with different names are read in the order in which they stand.
  ReadableParts : (a : ContainerPart) → ContainerValue a → Type 0
  ReadableParts declaration = WordValid text
  ReadableParts definitions = λ xs. KeysApart Apart xs × EntriesValid text xs

  encode_readable : (a : ContainerPart) → ContainerValue a → List ℕ
  encode_readable declaration = encode_word text
  encode_readable definitions = encode_entries text

  container_part_de-IsDeserialize :
      (a : ContainerPart)
      → IsDeserialize view
          (container_part_de text utf8_error t a)
          (ReadableParts a)
          (encode_readable a)
  unfolding ReadableParts encode_readable
  container_part_de-IsDeserialize declaration = word_de-IsDeserialize
  container_part_de-IsDeserialize definitions = plain-IsDeserialize law _ 48 (omega arith) λ xs v.
      record {
        takes = λ s rest e.
            deserialize_hash_map-encode_seq law word_de-IsDeserialize definition_de-IsDeserialize
              str_eq xs s rest v.0 v.1 e;
      }

  pub container_de-Reads :
      (le : String → String → Bool) (c : BorshSchemaContainer)
      → KeysApart Apart c.definitions
      → ContainerValid text c
      → Reads view
          (container_de text utf8_error t).deserialize_reader
          (sorted_container le c)
          (encode_container text le c)
  unfolding ReadableParts encode_readable contains_skip contains_initialize_with
  container_de-Reads le c apart v =
      (owned_de-IsDeserialize container_of container_value law 72 (omega arith) (λ x. refl)
          (derived_struct_de-IsDeserialize law container_part_default
            container_part_de-IsDeserialize 72 (omega arith) container_item refl
            (refl, (refl, tt)))).reads
        (sorted_container le c)
        (
          (λ k. v.0),
          (
            (λ k. (
              sort_by-KeysApart le c.definitions apart,
              EntriesValid-sorted text le c.definitions v.1,
            )),
            tt,
          ),
        )
