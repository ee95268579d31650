-- ===== src/Ser/Primitives.antt =====
-- borsh/src/ser/mod.rs: integers, floats, `bool`, `()` and `PhantomData`.
use borsh_rs.Prelude.{ℕ, ◌%◌, ◌^◌, Bool, [], ◌∷◌, some, ltb, if◌then◌else◌}
use borsh_rs.Num.{ℤ, to_le_bytes, to_unsigned}
use borsh_rs.Io.{M, Write, panicked, pure}
use package.borsh_rs.Ser.{BorshSerialize, no_u8_slice}

-- `is_nan` of a float that is given by its bits: without the sign they are above those of infinity.
abbrev pub is_nan32 : ℕ → Bool
is_nan32 bits = ltb 0x7f80_0000 (bits % 2 ^ 31)

abbrev pub is_nan64 : ℕ → Bool
is_nan64 bits = ltb 0x7ff0_0000_0000_0000 (bits % 2 ^ 63)

module _ {W : Type 0} ⦃wr : Write W⦄ where
  unfoldable pub serialize_u8 : ℕ → M W (Unit {0})
  serialize_u8 self = wr.write_all (self ∷ [])

  -- `impl_for_integer!` for an unsigned type of `w` bytes.
  unfoldable pub serialize_uint : ℕ → ℕ → M W (Unit {0})
  serialize_uint w self = wr.write_all (to_le_bytes w self)

  -- `impl_for_integer!` for a signed type of `w` bytes.
  unfoldable pub serialize_int : ℕ → ℤ → M W (Unit {0})
  serialize_int w self = wr.write_all (to_le_bytes w (to_unsigned (256 ^ w) self))

  -- `impl_for_nonzero_integer!`: `get` returns the integer, which `serialize` writes.
  unfoldable pub serialize_nonzero : {T : Type 0} → BorshSerialize W T → T → M W (Unit {0})
  serialize_nonzero s self = s.serialize self

  -- `isize` and `usize`, as 64-bit integers.
  unfoldable pub serialize_isize : ℤ → M W (Unit {0})
  unfolding serialize_int
  serialize_isize self = serialize_int 8 self

  unfoldable pub serialize_usize : ℕ → M W (Unit {0})
  unfolding serialize_uint
  serialize_usize self = serialize_uint 8 self

  -- `impl_for_float!` for floats of `w` bytes: the assertion fails on a NaN.
  unfoldable pub serialize_float : (ℕ → Bool) → ℕ → ℕ → M W (Unit {0})
  serialize_float is_nan w self =
      if is_nan self then (λ s. (panicked, s)) else wr.write_all (to_le_bytes w self)

  unfoldable pub serialize_bool : Bool → M W (Unit {0})
  unfolding serialize_u8
  serialize_bool self = serialize_u8 (if self then 1 else 0)

  -- `()` and `PhantomData`.
  unfoldable pub serialize_unit : Unit {0} → M W (Unit {0})
  serialize_unit self = pure tt

  -- The implementations.
  abbrev pub u8_ser : BorshSerialize W ℕ
  u8_ser = record { serialize = serialize_u8; u8_slice = some }

  abbrev pub uint_ser : ℕ → BorshSerialize W ℕ
  uint_ser w = record { serialize = serialize_uint w; u8_slice = no_u8_slice }

  abbrev pub int_ser : ℕ → BorshSerialize W ℤ
  int_ser w = record { serialize = serialize_int w; u8_slice = no_u8_slice }

  abbrev pub nonzero_ser : {T : Type 0} → BorshSerialize W T → BorshSerialize W T
  nonzero_ser s = record { serialize = serialize_nonzero s; u8_slice = no_u8_slice }

  abbrev pub isize_ser : BorshSerialize W ℤ
  isize_ser = record { serialize = serialize_isize; u8_slice = no_u8_slice }

  abbrev pub usize_ser : BorshSerialize W ℕ
  usize_ser = record { serialize = serialize_usize; u8_slice = no_u8_slice }

  abbrev pub f32_ser : BorshSerialize W ℕ
  f32_ser = record { serialize = serialize_float is_nan32 4; u8_slice = no_u8_slice }

  abbrev pub f64_ser : BorshSerialize W ℕ
  f64_ser = record { serialize = serialize_float is_nan64 8; u8_slice = no_u8_slice }

  abbrev pub bool_ser : BorshSerialize W Bool
  bool_ser = record { serialize = serialize_bool; u8_slice = no_u8_slice }

  abbrev pub unit_ser : BorshSerialize W (Unit {0})
  unit_ser = record { serialize = serialize_unit; u8_slice = no_u8_slice }
