-- ===== src/Shape/Writes.antt =====
-- borsh/src/ser/mod.rs: the implementation for each shape writes the encoding.
use borsh_rs.Io.{Write}
use borsh_rs.Io.Laws.{IsWrite}
use borsh_rs.Prelude.{◌≡◌, false, ◌==◌}
use borsh_rs.Ser.{BorshSerialize}
use borsh_rs.Ser.Primitives.{is_nan32, is_nan64}
use borsh_rs.Ser.Laws.{
  IsSerialize, u8_ser-IsSerialize, uint_ser-IsSerialize, int_ser-IsSerialize,
  nonzero_ser-IsSerialize, isize_ser-IsSerialize, usize_ser-IsSerialize, float_ser-IsSerialize,
  bool_ser-IsSerialize, unit_ser-IsSerialize,
}
use borsh_rs.Ser.Compose.{
  range_ser-IsSerialize, option_ser-IsSerialize, result_ser-IsSerialize, vec_ser-IsSerialize,
  array_ser-IsSerialize, tuple_ser-IsSerialize, string_ser-IsSerialize,
}
use borsh_rs.De.{Target}
use package.borsh_rs.Shape.{
  Shape, u8, usize, isize, f32, f64, bool, unit, string, uint, int, nonzero, range, option, vec,
  array, result, pair, encode, IsValid, ser, bytes,
}

-- Fewer values.
narrow :
    {W T : Type 0} {wr : Write W} {s : BorshSerialize W T} {Valid Valid' : T → Type 0} {enc : T → _}
    → IsSerialize wr s Valid enc
    → ((x : T) → Valid' x → Valid x)
    → IsSerialize wr s Valid' enc
narrow h f = record { emits = λ x v. h.emits x (f x v); slices = h.slices }

pub ser-IsSerialize :
    {W : Type 0} ⦃wr : Write W⦄
    → IsWrite wr
    → (t : Target) (a : Shape) → IsSerialize wr (ser a) (IsValid t a) (encode a)
ser-IsSerialize law t u8 = u8_ser-IsSerialize
ser-IsSerialize law t usize = narrow usize_ser-IsSerialize (λ x v. v.0)
ser-IsSerialize law t isize = narrow isize_ser-IsSerialize (λ x v. v.0)
ser-IsSerialize law t f32 = float_ser-IsSerialize is_nan32 4
ser-IsSerialize law t f64 = float_ser-IsSerialize is_nan64 8
ser-IsSerialize law t bool = bool_ser-IsSerialize
ser-IsSerialize law t unit = unit_ser-IsSerialize law
ser-IsSerialize law t string = narrow (string_ser-IsSerialize law) (λ x v. v.0)
ser-IsSerialize law t (uint w) = uint_ser-IsSerialize (bytes w)
ser-IsSerialize law t (int w) = int_ser-IsSerialize (bytes w)
ser-IsSerialize law t (nonzero w) =
    nonzero_ser-IsSerialize (λ u. (u == 0) ≡ false) (uint_ser-IsSerialize (bytes w))
ser-IsSerialize law t (range a) = range_ser-IsSerialize law (ser-IsSerialize law t a)
ser-IsSerialize law t (option a) = option_ser-IsSerialize law (ser-IsSerialize law t a)
ser-IsSerialize law t (vec a) = vec_ser-IsSerialize law (ser-IsSerialize law t a)
ser-IsSerialize law t (array n a) = array_ser-IsSerialize law (ser-IsSerialize law t a) n
ser-IsSerialize law t (result a b) =
    result_ser-IsSerialize law (ser-IsSerialize law t a) (ser-IsSerialize law t b)
ser-IsSerialize law t (pair a b) =
    tuple_ser-IsSerialize law (ser-IsSerialize law t a) (ser-IsSerialize law t b)
