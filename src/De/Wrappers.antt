-- ===== src/De/Wrappers.antt =====
-- borsh/src/de/mod.rs: the types that are read as another one (`Cow`, `Box`, `Rc`, `Arc` and
-- `Bytes`), `PhantomData`, and the types of the crates `bytes` and `bson`.
pub mod Buffer
use borsh_rs.Prelude.{ℕ, zero, suc, List}
use borsh_rs.Io.{M, Read, pure, ◌>>=◌}
use package.borsh_rs.De.{Target, BorshDeserialize}
use package.borsh_rs.De.Primitives.{deserialize_u8, deserialize_uint, plain_de}
use package.borsh_rs.De.Bytes.{cautious, u8_de}
use package.borsh_rs.De.Containers.{deserialize_vec}

-- What is used of `bytes::BytesMut`.
pub record BytesMut (B : Type 0) : Type 0 where
  pub with_capacity : ℕ → B
  pub put_u8 : B → ℕ → B
  pub as_ref : B → List ℕ

module _ {R : Type 0} ⦃rd : Read R⦄ where
  -- `Ok(Cow::Owned(BorshDeserialize::deserialize_reader(reader)?))`
  unfoldable pub deserialize_owned : {T B : Type 0} → BorshDeserialize R T → (T → B) → M R B
  deserialize_owned d into = do owned ← d.deserialize_reader; pure (into owned)

  -- A type of this kind has the provided hooks.
  abbrev pub owned_de : {T B : Type 0} → BorshDeserialize R T → (T → B) → ℕ → BorshDeserialize R B
  owned_de d into size = plain_de (deserialize_owned d into) size

  -- `Ok(T::Owned::deserialize_reader(reader)?.into())`
  abbrev pub deserialize_box : {T B : Type 0} → BorshDeserialize R T → (T → B) → M R B
  deserialize_box d into = do owned ← d.deserialize_reader; pure (into owned)

  -- `Rc` and `Arc`.
  abbrev pub deserialize_rc : {T B : Type 0} → BorshDeserialize R T → (T → B) → M R B
  deserialize_rc d into = do owned ← d.deserialize_reader; pure (into owned)

  unfoldable pub deserialize_bytes : {B : Type 0} → (List ℕ → B) → Target → M R B
  unfolding deserialize_vec
  deserialize_bytes into t = do vec ← deserialize_vec (u8_de t) t; pure (into vec)

  -- `PhantomData`
  unfoldable pub deserialize_phantom_data : {P : Type 0} → P → M R P
  deserialize_phantom_data default = pure default

  module _ {B : Type 0} (bytes : BytesMut B) where
    -- `for _ in 0..len { out.put_u8(u8::deserialize_reader(reader)?); }`
    unfoldable pub put_bytes : ℕ → B → M R B
    unfolding deserialize_u8
    put_bytes zero out = pure out
    put_bytes (suc n) out = do b ← deserialize_u8; put_bytes n (bytes.put_u8 out b)

    unfoldable pub deserialize_bytes_mut : M R B
    unfolding deserialize_uint put_bytes cautious
    deserialize_bytes_mut = do
      len ← deserialize_uint 4
      put_bytes len (bytes.with_capacity (cautious 1 len))

  -- `bson::oid::ObjectId`. Here the error of `read_exact` is passed on as it is.
  unfoldable pub deserialize_object_id : {O : Type 0} → (List ℕ → O) → M R O
  deserialize_object_id from_bytes = do buf ← rd.read_exact 12; pure (from_bytes buf)
