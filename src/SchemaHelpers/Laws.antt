-- ===== src/SchemaHelpers/Laws.antt =====
-- borsh/src/schema_helpers.rs: what is written with a schema is read with the same schema only.
use borsh_rs.Prelude.{ℕ, ◌≡◌, refl, sym, true, false, List, [], ◌++◌, append-nil}
use borsh_rs.Io.{ok, err, custom, invalid_data}
use borsh_rs.Io.Slice.{Slice, slice_read, vec_write}
use borsh_rs.Io.Laws.{Reads, Reads-bind, Reads-map}
use borsh_rs.Ser.{BorshSerialize}
use borsh_rs.Ser.Laws.{IsSerialize}
use borsh_rs.De.{BorshDeserialize, try_from_slice}
use borsh_rs.De.Containers.{deserialize_tuple, tuple_de}
use borsh_rs.RoundTrip.{try_to_vec-encode}
use borsh_rs.Schema.{BorshSchema, BorshSchemaContainer, schema_container}
use package.borsh_rs.SchemaHelpers.{
  same_container, schema_does_not_match, try_from_slice_with_schema, try_to_vec_with_schema,
}

-- Implementations for containers: what is read is what was written, with the entries of the map in
-- some order. And implementations for the type.
module _ (container_ser : BorshSerialize (List ℕ) BorshSchemaContainer)
    (container_de : BorshDeserialize Slice BorshSchemaContainer)
    {IsContainer : BorshSchemaContainer → Type 0} {enc_container : BorshSchemaContainer → List ℕ}
    {reordered : BorshSchemaContainer → BorshSchemaContainer}
    (hs : IsSerialize vec_write container_ser IsContainer enc_container)
    (hd : (c : BorshSchemaContainer)
      → IsContainer c
      → Reads (λ s. s) container_de.deserialize_reader (reordered c) (enc_container c))
    {T : Type 0} (ser : BorshSerialize (List ℕ) T) (de : BorshDeserialize Slice T)
    {Valid : T → Type 0} {enc : T → List ℕ} (hs' : IsSerialize vec_write ser Valid enc)
    (hd' : (x : T) → Valid x → Reads (λ s. s) de.deserialize_reader x (enc x)) (size : ℕ) where
  -- A pair is read from the encodings of its parts.
  pair-read :
      (c : BorshSchemaContainer) (x : T)
      → IsContainer c
      → Valid x
      → try_from_slice (tuple_de container_de de size) (enc_container c ++ enc x)
        ≡ ok (reordered c, x)
  unfolding try_from_slice deserialize_tuple
  pair-read c x valid_c valid_x =
      let pair : Reads (λ s. s) (tuple_de container_de de size).deserialize_reader (reordered c, x)
          (enc_container c ++ enc x) =
        Reads-bind container_de.deserialize_reader _ (hd c valid_c)
          (Reads-map de.deserialize_reader _ (hd' x valid_x) (λ s. refl)) in
      let (rest, e, nothing) =
        pair.takes (enc_container c ++ enc x) [] (sym (append-nil (enc_container c ++ enc x))) in
      rw (e, nothing) refl

  -- For implementations for containers that write an encoding and read the container from it
  -- with its definitions in some order, and for implementations for a type that write and
  -- read an encoding: `try_to_vec_with_schema` of a valid value succeeds, and
  -- `try_from_slice_with_schema` gives the value back from the bytes, if the schema has a
  -- container that the implementations take and that equals the reordered one.
  pub try_from_slice_with_schema-try_to_vec_with_schema :
      (schema : BorshSchema) (own : BorshSchemaContainer) (x : T)
      → schema_container schema ≡ ok own
      → IsContainer own
      → same_container own (reordered own) ≡ true
      → Valid x
      → (bytes : List ℕ) × (try_to_vec_with_schema schema container_ser ser x ≡ ok bytes)
        × (try_from_slice_with_schema schema container_de de size bytes ≡ ok x)
  unfolding try_from_slice_with_schema try_to_vec_with_schema
  try_from_slice_with_schema-try_to_vec_with_schema schema own x e valid_c same valid_x = (
    enc_container own ++ enc x,
    rw (e, try_to_vec-encode container_ser hs own valid_c, try_to_vec-encode ser hs' x valid_x)
        refl,
    rw (pair-read own x valid_c valid_x, e, same) refl,
  )

  -- For implementations for containers that write an encoding and read the container from it
  -- with its definitions in some order, and for implementations for a type that write and
  -- read an encoding: `try_from_slice_with_schema` refuses what `try_to_vec_with_schema`
  -- writes for a valid value and a schema whose reordered container differs, with `Borsh
  -- schema does not match`.
  pub try_from_slice_with_schema-mismatch :
      (written schema : BorshSchema) (other own : BorshSchemaContainer) (x : T)
      → schema_container written ≡ ok other
      → schema_container schema ≡ ok own
      → IsContainer other
      → same_container own (reordered other) ≡ false
      → Valid x
      → (bytes : List ℕ) × (try_to_vec_with_schema written container_ser ser x ≡ ok bytes)
        × (try_from_slice_with_schema schema container_de de size bytes
            ≡ err (custom invalid_data schema_does_not_match))
  unfolding try_from_slice_with_schema try_to_vec_with_schema
  try_from_slice_with_schema-mismatch written schema other own x e e' valid_c differ valid_x = (
    enc_container other ++ enc x,
    rw (e, try_to_vec-encode container_ser hs other valid_c, try_to_vec-encode ser hs' x valid_x)
        refl,
    rw (pair-read other x valid_c valid_x, e', differ) refl,
  )
