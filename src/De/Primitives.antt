-- ===== src/De/Primitives.antt =====
-- borsh/src/de/mod.rs: integers, floats, `bool`, `()` and `PhantomData`.
use borsh_rs.Prelude.{ℕ, ◌/◌, ◌^◌, Bool, true, false, List, [], ◌∷◌, ◌==◌, leb, if◌then◌else◌}
use Prim.Native.String.{String, ◌++◌ as str_append}
use borsh_rs.Num.{ℤ, pos, negsuc, from_le_bytes, to_signed, decimal_u8}
use borsh_rs.Io.{M, Read, panicked, custom, invalid_input, invalid_data, pure, fail, ◌>>=◌}
use borsh_rs.Ser.Primitives.{is_nan32, is_nan64}
use package.borsh_rs.De.{
  Target, BorshDeserialize, no_hook, read_exact_or, invalid_zero_value,
  overflow_on_machine_with_32_bit_isize, overflow_on_machine_with_32_bit_usize,
}

abbrev pub nan_not_allowed : String
nan_not_allowed = "For portability reasons we do not allow to deserialize NaNs."

-- `buf[0]`
abbrev pub first : {R : Type 0} → List ℕ → M R ℕ
first [] s = (panicked, s)
first (b ∷ bs) s = pure b s

-- `usize::try_from` and `isize::try_from`, of 64-bit integers.
abbrev pub fits_usize : Target → ℕ → Bool
fits_usize t u = leb u t.usize_max

abbrev pub fits_isize : Target → ℤ → Bool
fits_isize t (pos n) = leb n (t.usize_max / 2)
fits_isize t (negsuc n) = leb n (t.usize_max / 2)

module _ {R : Type 0} ⦃rd : Read R⦄ where
  unfoldable pub deserialize_u8 : M R ℕ
  unfolding read_exact_or
  deserialize_u8 = do buf ← read_exact_or 1; first buf

  -- `impl_for_integer!` for an unsigned type of `w` bytes.
  unfoldable pub deserialize_uint : ℕ → M R ℕ
  unfolding read_exact_or
  deserialize_uint w = do buf ← read_exact_or w; pure (from_le_bytes buf)

  -- `impl_for_integer!` for a signed type of `w` bytes.
  unfoldable pub deserialize_int : ℕ → M R ℤ
  unfolding read_exact_or
  deserialize_int w = do buf ← read_exact_or w; pure (to_signed (256 ^ w) (from_le_bytes buf))

  -- `impl_for_nonzero_integer!`: `new` fails on zero.
  unfoldable pub deserialize_nonzero : {T : Type 0} → BorshDeserialize R T → (T → Bool) → M R T
  deserialize_nonzero d is_zero = do
    x ← d.deserialize_reader
    if is_zero x then fail (custom invalid_data invalid_zero_value) else pure x

  unfoldable pub deserialize_isize : Target → M R ℤ
  unfolding deserialize_int
  deserialize_isize t = do
    i ← deserialize_int 8
    if fits_isize t i
        then pure i
        else fail (custom invalid_input overflow_on_machine_with_32_bit_isize)

  unfoldable pub deserialize_usize : Target → M R ℕ
  unfolding deserialize_uint
  deserialize_usize t = do
    u ← deserialize_uint 8
    if fits_usize t u
        then pure u
        else fail (custom invalid_input overflow_on_machine_with_32_bit_usize)

  -- `impl_for_float!` for floats of `w` bytes, given by their bits.
  unfoldable pub deserialize_float : (ℕ → Bool) → ℕ → M R ℕ
  unfolding read_exact_or
  deserialize_float is_nan w = do
    buf ← read_exact_or w
    if is_nan (from_le_bytes buf)
        then fail (custom invalid_input nan_not_allowed)
        else pure (from_le_bytes buf)

  -- The test of `bool`'s tag.
  abbrev pub bool_of_tag : ℕ → M R Bool
  bool_of_tag b =
      if b == 0
      then pure false
      else if b == 1
      then pure true
      else fail (custom invalid_input (str_append "Invalid bool representation: " (decimal_u8 b)))

  unfoldable pub deserialize_bool : M R Bool
  unfolding deserialize_u8
  deserialize_bool = do b ← deserialize_u8; bool_of_tag b

  -- `()` and `PhantomData`.
  unfoldable pub deserialize_unit : M R (Unit {0})
  deserialize_unit = pure tt

  -- The implementations that keep the provided hooks.
  abbrev pub plain_de : {T : Type 0} → M R T → ℕ → BorshDeserialize R T
  plain_de d size = record {
    deserialize_reader = d;
    vec_from_reader = no_hook;
    array_from_reader = no_hook;
    size_of = size;
  }

  abbrev pub uint_de : ℕ → BorshDeserialize R ℕ
  uint_de w = plain_de (deserialize_uint w) w

  abbrev pub int_de : ℕ → BorshDeserialize R ℤ
  int_de w = plain_de (deserialize_int w) w

  abbrev pub nonzero_de : {T : Type 0} → BorshDeserialize R T → (T → Bool) → BorshDeserialize R T
  nonzero_de d is_zero = plain_de (deserialize_nonzero d is_zero) d.size_of

  abbrev pub isize_de : Target → BorshDeserialize R ℤ
  isize_de t = plain_de (deserialize_isize t) 8

  abbrev pub usize_de : Target → BorshDeserialize R ℕ
  usize_de t = plain_de (deserialize_usize t) 8

  abbrev pub f32_de : BorshDeserialize R ℕ
  f32_de = plain_de (deserialize_float is_nan32 4) 4

  abbrev pub f64_de : BorshDeserialize R ℕ
  f64_de = plain_de (deserialize_float is_nan64 8) 8

  abbrev pub bool_de : BorshDeserialize R Bool
  bool_de = plain_de deserialize_bool 1

  abbrev pub unit_de : BorshDeserialize R (Unit {0})
  unit_de = plain_de deserialize_unit 0
