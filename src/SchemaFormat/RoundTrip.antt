-- ===== src/SchemaFormat/RoundTrip.antt =====
-- borsh/src/schema.rs and borsh/src/schema_helpers.rs: a schema is read back from its own encoding.
use Prim.Native.String.{String}
use borsh_rs.Prelude.{
  ℕ, ◌+◌, ◌≤◌, ◌<◌, ◌^◌, ◌≡◌, refl, sym, Bool, true, inl, arith, List, [], append-nil, All-map,
  length,
}
use borsh_rs.Io.{ok, err, custom, invalid_data}
use borsh_rs.Io.Laws.{Reads}
use borsh_rs.Io.Slice.{Slice, slice_read, vec_write}
use borsh_rs.Io.SliceLaws.{slice_read-IsRead, vec_write-IsWrite}
use borsh_rs.Encoding.{SeqValid, PairValid}
use borsh_rs.Ser.{BorshSerialize, try_to_vec}
use borsh_rs.Ser.Laws.{IsSerialize}
use borsh_rs.De.{Target, BorshDeserialize, try_from_slice}
use borsh_rs.De.Laws.{IsDeserialize}
use borsh_rs.RoundTrip.{try_to_vec-encode}
use borsh_rs.Schema.{Definition, Definitions, BorshSchema, BorshSchemaContainer, schema_container}
use borsh_rs.Schema as schema
use borsh_rs.Schema.Steps.{UniqueNames}
use borsh_rs.SchemaHelpers.{
  same_container, schema_does_not_match, try_from_slice_with_schema, try_to_vec_with_schema,
}
use borsh_rs.SchemaHelpers.Laws.{
  try_from_slice_with_schema-try_to_vec_with_schema, try_from_slice_with_schema-mismatch,
}
use package.borsh_rs.SchemaFormat.Differ.{Differ, same_container-Differ}
use package.borsh_rs.SchemaFormat.{Text, IsText, container_ser, container_de}
use package.borsh_rs.SchemaFormat.Lookup.{
  sorted_container, UniqueNames-KeysApart, same_container-sorted,
}
use package.borsh_rs.SchemaFormat.Writes.{
  WordValid, FieldsValid, DefinitionValid, ContainerValid, encode_container,
  container_ser-IsSerialize,
}
use package.borsh_rs.SchemaFormat.Reads.{container_de-Reads}

module _ (text : Text) where
  -- Every length fits 32 bits.
  abbrev pub WordFits : String → Type 0
  WordFits s = length (text.as_bytes s) < 2 ^ 32

  abbrev pub FieldsFit : schema.Fields → Type 0
  FieldsFit (schema.named_fields xs) = SeqValid (PairValid WordFits WordFits) xs
  FieldsFit (schema.unnamed_fields xs) = SeqValid WordFits xs
  FieldsFit schema.empty = Unit

  abbrev pub DefinitionFits : Definition → Type 0
  DefinitionFits (schema.array n elements) = (n < 2 ^ 32) × WordFits elements
  DefinitionFits (schema.sequence elements) = WordFits elements
  DefinitionFits (schema.tuple elements) = SeqValid WordFits elements
  DefinitionFits (schema.enum xs) = SeqValid (PairValid WordFits WordFits) xs
  DefinitionFits (schema.struct fields) = FieldsFit fields

  abbrev pub ContainerFits : BorshSchemaContainer → Type 0
  ContainerFits c =
      WordFits c.declaration × SeqValid (PairValid WordFits DefinitionFits) c.definitions

module _ (text : Text) (texts : IsText text) where
  WordFits-WordValid : (s : String) → WordFits text s → WordValid text s
  WordFits-WordValid s h = ((h, texts.bytes s), texts.utf8 s)

  words-Valid : (xs : List String) → SeqValid (WordFits text) xs → SeqValid (WordValid text) xs
  words-Valid xs h = (h.0, All-map WordFits-WordValid xs h.1)

  pairs-Valid :
      (xs : List (String × String))
      → SeqValid (PairValid (WordFits text) (WordFits text)) xs
      → SeqValid (PairValid (WordValid text) (WordValid text)) xs
  pairs-Valid xs h =
      (h.0, All-map (λ (a, b) (p, q). (WordFits-WordValid a p, WordFits-WordValid b q)) xs h.1)

  FieldsFit-FieldsValid : (x : schema.Fields) → FieldsFit text x → FieldsValid text x
  FieldsFit-FieldsValid (schema.named_fields xs) h = ((λ k. pairs-Valid xs h), tt)
  FieldsFit-FieldsValid (schema.unnamed_fields xs) h = ((λ k. words-Valid xs h), tt)
  FieldsFit-FieldsValid schema.empty h = tt

  DefinitionFits-DefinitionValid : (x : Definition) → DefinitionFits text x → DefinitionValid text x
  DefinitionFits-DefinitionValid (schema.array n elements) h =
      ((λ k. omega (arith, h.0)), ((λ k. WordFits-WordValid elements h.1), tt))
  DefinitionFits-DefinitionValid (schema.sequence elements) h =
      ((λ k. WordFits-WordValid elements h), tt)
  DefinitionFits-DefinitionValid (schema.tuple elements) h = ((λ k. words-Valid elements h), tt)
  DefinitionFits-DefinitionValid (schema.enum xs) h = ((λ k. pairs-Valid xs h), tt)
  DefinitionFits-DefinitionValid (schema.struct fields) h =
      ((λ k. FieldsFit-FieldsValid fields h), tt)

  ContainerFits-ContainerValid :
      (c : BorshSchemaContainer) → ContainerFits text c → ContainerValid text c
  ContainerFits-ContainerValid c (h, k) = (
    WordFits-WordValid c.declaration h,
    (
      k.0,
      All-map (λ (name, x) (p, q). (WordFits-WordValid name p, DefinitionFits-DefinitionValid x q))
          c.definitions k.1,
    ),
  )

  module _ (le : String → String → Bool) (utf8_error : List ℕ → String) (t : Target)
      (wide : 2 ^ 32 ≤ t.usize_max + 1) where
    -- A container that the implementations take.
    abbrev Writable : BorshSchemaContainer → Type 0
    Writable c = UniqueNames c.definitions × ContainerFits text c

    writes : IsSerialize vec_write (container_ser text le) Writable (encode_container text le)
    writes = record {
      emits = λ c h.
          (container_ser-IsSerialize text vec_write-IsWrite le).emits c
            (ContainerFits-ContainerValid c h.1);
      slices = λ cs. inl refl;
    }

    reads :
        (c : BorshSchemaContainer)
        → Writable c
        → Reads
            (λ s. s)
            (container_de text utf8_error t).deserialize_reader
            (sorted_container le c)
            (encode_container text le c)
    reads c h =
        container_de-Reads slice_read-IsRead text texts utf8_error t wide le c
          (UniqueNames-KeysApart c.definitions h.0) (ContainerFits-ContainerValid c h.1)

    -- For the derived implementations for schemas, with the bytes of texts as an argument
    -- that is inverted and gives well-formed UTF-8, on a platform of 32 bits or more:
    -- `try_to_vec` of a container with one definition for each name and all lengths below 2
    -- ^ 32 succeeds, and `try_from_slice` reads from the bytes a container that the derived
    -- `PartialEq` takes for equal to it.
    pub try_from_slice-container_ser :
        (c : BorshSchemaContainer)
        → UniqueNames c.definitions
        → ContainerFits text c
        → (bytes : List ℕ) × (read : BorshSchemaContainer) × (try_to_vec (container_ser text le) c
            ≡ ok bytes)
          × (try_from_slice (container_de text utf8_error t) bytes ≡ ok read)
          × (same_container c read ≡ true)
    unfolding try_from_slice
    try_from_slice-container_ser c unique fits =
        let bytes = encode_container text le c in
        let (rest, e, nothing) = (reads c (unique, fits)).takes bytes [] (sym (append-nil bytes)) in
        (
          bytes,
          sorted_container le c,
          try_to_vec-encode (container_ser text le) writes c (unique, fits),
          rw (e, nothing) refl,
          same_container-sorted le c unique,
        )

    -- For the derived implementations for schemas, with the bytes of texts as an argument
    -- that is inverted and gives well-formed UTF-8, on a platform of 32 bits or more: if
    -- `schema_container` returns a container for a schema, with one definition for each
    -- name and all lengths below 2 ^ 32, and the implementations for a type write and read
    -- an encoding, then `try_to_vec_with_schema` of a valid value succeeds, and
    -- `try_from_slice_with_schema` gives the value back from the bytes.
    pub try_from_slice_with_schema-container_ser :
        {T : Type 0} (ser : BorshSerialize (List ℕ) T) (de : BorshDeserialize Slice T)
        {Valid : T → Type 0} {enc : T → List ℕ}
        → IsSerialize vec_write ser Valid enc
        → IsDeserialize (λ s. s) de Valid enc
        → (size : ℕ) (schema : BorshSchema) (own : BorshSchemaContainer) (x : T)
        → schema_container schema ≡ ok own
        → UniqueNames own.definitions
        → ContainerFits text own
        → Valid x
        → (bytes : List ℕ) × (try_to_vec_with_schema schema (container_ser text le) ser x
            ≡ ok bytes)
          × (try_from_slice_with_schema schema (container_de text utf8_error t) de size bytes
              ≡ ok x)
    try_from_slice_with_schema-container_ser ser de hs hd size schema own x e unique fits valid =
        try_from_slice_with_schema-try_to_vec_with_schema (container_ser text le)
          (container_de text utf8_error t) writes reads ser de hs hd.reads size schema own x e
          (unique, fits) (same_container-sorted le own unique) valid

    -- For the derived implementations for schemas, with the bytes of texts as an argument
    -- that is inverted and gives well-formed UTF-8, on a platform of 32 bits or more: what
    -- `try_to_vec_with_schema` writes for a valid value of a type, whose schema has a
    -- container with one definition for each name and all lengths below 2 ^ 32, is refused
    -- by `try_from_slice_with_schema` with `Borsh schema does not match`, if the container
    -- of the schema that it is read with has another declaration, another number of
    -- definitions, or a definition that the first has not. The implementations for the type
    -- write and read an encoding.
    pub try_from_slice_with_schema-Differ :
        {T : Type 0} (ser : BorshSerialize (List ℕ) T) (de : BorshDeserialize Slice T)
        {Valid : T → Type 0} {enc : T → List ℕ}
        → IsSerialize vec_write ser Valid enc
        → IsDeserialize (λ s. s) de Valid enc
        → (size : ℕ) (written schema : BorshSchema) (other own : BorshSchemaContainer) (x : T)
        → schema_container written ≡ ok other
        → schema_container schema ≡ ok own
        → UniqueNames other.definitions
        → ContainerFits text other
        → Differ own other
        → Valid x
        → (bytes : List ℕ) × (try_to_vec_with_schema written (container_ser text le) ser x
            ≡ ok bytes)
          × (try_from_slice_with_schema schema (container_de text utf8_error t) de size bytes
              ≡ err (custom invalid_data schema_does_not_match))
    try_from_slice_with_schema-Differ ser de hs hd size written schema other own x e e' unique fits
          differ valid =
        try_from_slice_with_schema-mismatch (container_ser text le) (container_de text utf8_error t)
          writes reads ser de hs hd.reads size written schema other own x e e' (unique, fits)
          (same_container-Differ le own other unique differ) valid
