-- ===== src/Ser/Wrappers.antt =====
-- borsh/src/ser/mod.rs: the types that are written as another one (`&T`, `Cow`, `Box`, `Rc`, `Arc`,
-- `Bytes` and `BytesMut`), `PhantomData`, and `bson::oid::ObjectId`.
use borsh_rs.Prelude.{ℕ, List}
use borsh_rs.Io.{M, Write, pure}
use package.borsh_rs.Ser.{BorshSerialize, no_u8_slice}
use package.borsh_rs.Ser.Primitives.{u8_ser}
use package.borsh_rs.Ser.Containers.{serialize_seq, serialize_array}

module _ {W : Type 0} ⦃wr : Write W⦄ where
  -- `&T` and `Cow`: `self.as_ref().serialize(writer)`
  unfoldable pub serialize_deref :
      {T B : Type 0} → BorshSerialize W T → (B → T) → B → M W (Unit {0})
  serialize_deref s as_ref self = s.serialize (as_ref self)

  -- A type of this kind has the provided `u8_slice`.
  abbrev pub owned_ser : {T B : Type 0} → BorshSerialize W T → (B → T) → BorshSerialize W B
  owned_ser s as_ref = record { serialize = serialize_deref s as_ref; u8_slice = no_u8_slice }

  abbrev pub serialize_box : {T B : Type 0} → BorshSerialize W T → (B → T) → B → M W (Unit {0})
  serialize_box s as_ref self = s.serialize (as_ref self)

  -- `Rc` and `Arc`: `(**self).serialize(writer)`
  abbrev pub serialize_rc : {T B : Type 0} → BorshSerialize W T → (B → T) → B → M W (Unit {0})
  serialize_rc s deref self = s.serialize (deref self)

  -- `Bytes` and `BytesMut`, by their slices.
  unfoldable pub serialize_bytes : {B : Type 0} → (B → List ℕ) → B → M W (Unit {0})
  unfolding serialize_seq
  serialize_bytes as_ref self = serialize_seq u8_ser (as_ref self)

  unfoldable pub serialize_phantom_data : {P : Type 0} → P → M W (Unit {0})
  serialize_phantom_data self = pure tt

  -- `self.bytes()` is an array of 12 bytes.
  unfoldable pub serialize_object_id : {O : Type 0} → (O → List ℕ) → O → M W (Unit {0})
  unfolding serialize_array
  serialize_object_id bytes self = serialize_array u8_ser 12 (bytes self)
