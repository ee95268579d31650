-- ===== src/Shape.antt =====
-- The types that borsh/src/ser/mod.rs and borsh/src/de/mod.rs build from the primitive ones, as
-- data: `Vec<Option<(u16, String)>>` is `vec (option (pair (uint b2) string))`. A shape names a type,
-- and with it the implementations that the compiler picks for the type.
pub mod Writes
pub mod Reads
pub mod Consumes
pub mod RoundTrip
use borsh_rs.Prelude.{
  ℕ, suc, ◌+◌, ◌≤◌, ◌<◌, ◌^◌, ◌≡◌, Bool, true, false, ◌&&◌, ◌||◌, List, Option, ◌==◌,
}
use Prim.Native.String.{String}
use borsh_rs.Num.{ℤ, is_utf8}
use borsh_rs.Io.{Read, Write}
use borsh_rs.Ser.{BorshSerialize}
use borsh_rs.Ser.Primitives.{
  is_nan32, is_nan64, u8_ser, uint_ser, int_ser, nonzero_ser, isize_ser, usize_ser, f32_ser,
  f64_ser, bool_ser, unit_ser,
}
use borsh_rs.Ser.Containers.{
  Range, CoreResult, range_ser, option_ser, result_ser, vec_ser, array_ser, tuple_ser, string_ser,
}
use borsh_rs.De.{Target, BorshDeserialize}
use borsh_rs.De.Primitives.{
  fits_usize, fits_isize, uint_de, int_de, nonzero_de, isize_de, usize_de, f32_de, f64_de, bool_de,
  unit_de,
}
use borsh_rs.De.Bytes.{u8_de}
use borsh_rs.De.Containers.{range_de, option_de, result_de, vec_de, array_de, tuple_de, string_de}
use borsh_rs.Encoding.{
  encode_u8, encode_uint, encode_int, encode_bool, encode_unit, encode_range, encode_option,
  encode_result, encode_items, encode_seq, encode_pair, IsUint, IsInt, RangeValid, OptionValid,
  ResultValid, SeqValid, ArrayValid, PairValid,
}

-- The widths of the integers, less one.
pub data Width : Type 0 where
  b1 b2 b4 b8 b16 : Width

abbrev pub below : Width → ℕ
below b1 = 0
below b2 = 1
below b4 = 3
below b8 = 7
below b16 = 15

abbrev pub bytes : Width → ℕ
bytes w = suc (below w)

pub data Shape : Type 0 where
  u8 usize isize f32 f64 bool unit string : Shape
  uint int nonzero : Width → Shape
  range option vec : Shape → Shape
  array : ℕ → Shape → Shape
  result pair : Shape → Shape → Shape

-- The values of a type.
abbrev pub El : Shape → Type 0
El u8 = ℕ
El usize = ℕ
El isize = ℤ
El f32 = ℕ
El f64 = ℕ
El bool = Bool
El unit = Unit {0}
El string = List ℕ
El (uint w) = ℕ
El (int w) = ℤ
El (nonzero w) = ℕ
El (range a) = Range (El a)
El (option a) = Option (El a)
El (vec a) = List (El a)
El (array n a) = List (El a)
El (result a b) = CoreResult (El a) (El b)
El (pair a b) = El a × El b

abbrev pub encode : (a : Shape) → El a → List ℕ
encode u8 = encode_u8
encode usize = encode_uint 8
encode isize = encode_int 8
encode f32 = encode_uint 4
encode f64 = encode_uint 8
encode bool = encode_bool
encode unit = encode_unit
encode string = encode_seq encode_u8
encode (uint w) = encode_uint (bytes w)
encode (int w) = encode_int (bytes w)
encode (nonzero w) = encode_uint (bytes w)
encode (range a) = encode_range (encode a)
encode (option a) = encode_option (encode a)
encode (vec a) = encode_seq (encode a)
encode (array n a) = encode_items (encode a)
encode (result a b) = encode_result (encode a) (encode b)
encode (pair a b) = encode_pair (encode a) (encode b)

-- The values that have an encoding which the machine can read. A length fits 32 bits.
abbrev pub IsValid : Target → (a : Shape) → El a → Type 0
IsValid t u8 = IsUint 1
IsValid t usize = λ u. IsUint 8 u × (fits_usize t u ≡ true)
IsValid t isize = λ z. IsInt 8 z × (fits_isize t z ≡ true)
IsValid t f32 = λ x. IsUint 4 x × (is_nan32 x ≡ false)
IsValid t f64 = λ x. IsUint 8 x × (is_nan64 x ≡ false)
IsValid t bool = λ b. Unit {0}
IsValid t unit = λ u. Unit {0}
IsValid t string = λ s. SeqValid (IsUint 1) s × (is_utf8 s ≡ true)
IsValid t (uint w) = IsUint (bytes w)
IsValid t (int w) = IsInt (bytes w)
IsValid t (nonzero w) = λ u. IsUint (bytes w) u × ((u == 0) ≡ false)
IsValid t (range a) = RangeValid (IsValid t a)
IsValid t (option a) = OptionValid (IsValid t a)
IsValid t (vec a) = SeqValid (IsValid t a)
IsValid t (array n a) = ArrayValid (IsValid t a) n
IsValid t (result a b) = ResultValid (IsValid t a) (IsValid t b)
IsValid t (pair a b) = PairValid (IsValid t a) (IsValid t b)

-- The implementation of `BorshSerialize` for a type.
abbrev pub ser : {W : Type 0} ⦃wr : Write W⦄ (a : Shape) → BorshSerialize W (El a)
ser u8 = u8_ser
ser usize = usize_ser
ser isize = isize_ser
ser f32 = f32_ser
ser f64 = f64_ser
ser bool = bool_ser
ser unit = unit_ser
ser string = string_ser
ser (uint w) = uint_ser (bytes w)
ser (int w) = int_ser (bytes w)
ser (nonzero w) = nonzero_ser (uint_ser (bytes w))
ser (range a) = range_ser (ser a)
ser (option a) = option_ser (ser a)
ser (vec a) = vec_ser (ser a)
ser (array n a) = array_ser (ser a) n
ser (result a b) = result_ser (ser a) (ser b)
ser (pair a b) = tuple_ser (ser a) (ser b)

-- The machine, how the compiler lays out the types that it is free to, and a text of the standard
-- library.
pub record Platform : Type 0 where
  pub target : Target
  pub layout : Shape → ℕ
  pub utf8_error : List ℕ → String

-- The implementation of `BorshDeserialize` for a type.
abbrev pub de : {R : Type 0} ⦃rd : Read R⦄ (p : Platform) (a : Shape) → BorshDeserialize R (El a)
de p u8 = u8_de p.target
de p usize = usize_de p.target
de p isize = isize_de p.target
de p f32 = f32_de
de p f64 = f64_de
de p bool = bool_de
de p unit = unit_de
de p string = string_de p.utf8_error p.target
de p (uint w) = uint_de (bytes w)
de p (int w) = int_de (bytes w)
de p (nonzero w) = nonzero_de (uint_de (bytes w)) (λ u. u == 0)
de p (range a) = range_de (de p a)
de p (option a) = option_de (de p a) (p.layout (option a))
de p (vec a) = vec_de (de p a) p.target
de p (array n a) = array_de (de p a) n
de p (result a b) = result_de (de p a) (de p b) (p.layout (result a b))
de p (pair a b) = tuple_de (de p a) (de p b) (p.layout (pair a b))

-- The types of size 0 in Rust.
abbrev pub zero_sized : Shape → Bool
zero_sized unit = true
zero_sized (range a) = zero_sized a
zero_sized (array n a) = (n == 0) || zero_sized a
zero_sized (pair a b) = zero_sized a && zero_sized b
zero_sized _ = false

-- The layout gives size 0 to the types of size 0 only, and `usize` has 32 bits or more.
pub record IsPlatform (p : Platform) : Type 0 where
  pub sized : (a : Shape) → p.layout a ≡ 0 → zero_sized a ≡ true
  pub wide : 2 ^ 32 ≤ p.target.usize_max + 1
