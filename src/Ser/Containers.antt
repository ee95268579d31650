-- ===== src/Ser/Containers.antt =====
-- borsh/src/ser/mod.rs: `Range`, `Option`, `Result`, slices, strings, vectors, arrays and tuples.
use borsh_rs.Prelude.{ℕ, ◌==◌, List, [], ◌∷◌, Option, none, some, length, if◌then◌else◌}
use borsh_rs.Num.{to_le_bytes}
use borsh_rs.Io.{M, Write, pure, ◌>>=◌, ◌>>◌}
use package.borsh_rs.Ser.{BorshSerialize, no_u8_slice, u32_try_from}
use package.borsh_rs.Ser.Primitives.{serialize_u8, u8_ser}

-- `core::ops::Range<T>`
pub record Range (T : Type 0) : Type 0 where
  pub start : T
  pub stop : T

-- `core::result::Result<T, E>`
pub data CoreResult (T E : Type 0) : Type 0 where
  done : T → CoreResult T E
  error : E → CoreResult T E

module _ {W : Type 0} ⦃wr : Write W⦄ {T : Type 0} (s : BorshSerialize W T) where
  unfoldable pub serialize_range : Range T → M W (Unit {0})
  serialize_range self = do s.serialize self.start; s.serialize self.stop

  unfoldable pub serialize_option : Option T → M W (Unit {0})
  unfolding serialize_u8
  serialize_option none = serialize_u8 0
  serialize_option (some value) = do serialize_u8 1; s.serialize value

  unfoldable pub serialize_result :
      {E : Type 0} → BorshSerialize W E → CoreResult T E → M W (Unit {0})
  unfolding serialize_u8
  serialize_result t (error e) = do serialize_u8 0; t.serialize e
  serialize_result t (done v) = do serialize_u8 1; s.serialize v

  -- `for item in data { item.serialize(writer)?; } Ok(())`
  unfoldable pub serialize_items : List T → M W (Unit {0})
  serialize_items [] = pure tt
  serialize_items (item ∷ rest) = do s.serialize item; serialize_items rest

  -- `serialize_slice`, without the length.
  unfoldable pub serialize_slice : List T → M W (Unit {0})
  unfolding serialize_items
  serialize_slice input = elim (s.u8_slice input) [
    | some bytes ↦ do wr.write_all bytes; pure tt
    | none ↦ serialize_items input
  ]

  -- The implementation for `[T]`, which `&T`, `Vec`, `Cow`, `Box`, `Rc`, `Arc` and `bytes` call.
  unfoldable pub serialize_seq : List T → M W (Unit {0})
  unfolding serialize_slice
  serialize_seq self = do
    n ← u32_try_from (length self)
    wr.write_all (to_le_bytes 4 n)
    serialize_slice self

  -- The implementation for `[T; N]`.
  unfoldable pub serialize_array : ℕ → List T → M W (Unit {0})
  unfolding serialize_items
  serialize_array n self = if n == 0 then pure tt else elim (s.u8_slice self) [
    | some bytes ↦ do wr.write_all bytes; pure tt
    | none ↦ serialize_items self
  ]

  -- One more component in front, as `impl_tuple!` writes them; `()` ends a tuple.
  unfoldable pub serialize_tuple : {U : Type 0} → BorshSerialize W U → T × U → M W (Unit {0})
  serialize_tuple t (first, others) = do s.serialize first; t.serialize others

  -- The implementations.
  abbrev pub range_ser : BorshSerialize W (Range T)
  range_ser = record { serialize = serialize_range; u8_slice = no_u8_slice }

  abbrev pub option_ser : BorshSerialize W (Option T)
  option_ser = record { serialize = serialize_option; u8_slice = no_u8_slice }

  abbrev pub result_ser : {E : Type 0} → BorshSerialize W E → BorshSerialize W (CoreResult T E)
  result_ser t = record { serialize = serialize_result t; u8_slice = no_u8_slice }

  abbrev pub vec_ser : BorshSerialize W (List T)
  vec_ser = record { serialize = serialize_seq; u8_slice = no_u8_slice }

  abbrev pub array_ser : ℕ → BorshSerialize W (List T)
  array_ser n = record { serialize = serialize_array n; u8_slice = no_u8_slice }

  abbrev pub tuple_ser : {U : Type 0} → BorshSerialize W U → BorshSerialize W (T × U)
  tuple_ser t = record { serialize = serialize_tuple t; u8_slice = no_u8_slice }

-- `str` and `String`, as their bytes.
module _ {W : Type 0} ⦃wr : Write W⦄ where
  unfoldable pub serialize_string : List ℕ → M W (Unit {0})
  unfolding serialize_seq
  serialize_string as_bytes = serialize_seq u8_ser as_bytes

  abbrev pub string_ser : BorshSerialize W (List ℕ)
  string_ser = record { serialize = serialize_string; u8_slice = no_u8_slice }
