-- ===== src/Shape/Consumes.antt =====
-- borsh/src/de/mod.rs: the implementation for each shape accepts encodings of valid values only.
use borsh_rs.Prelude.{ℕ, refl, inl, List, ◌==◌}
use borsh_rs.Io.{Read}
use borsh_rs.Io.Laws.{IsRead, Sound}
use borsh_rs.Ser.Primitives.{is_nan32, is_nan64}
use borsh_rs.De.Primitives.{uint_de}
use borsh_rs.De.Sound.{
  deserialize_u8-Sound, deserialize_uint-Sound, deserialize_float-Sound, deserialize_bool-Sound,
  deserialize_unit-Sound, deserialize_nonzero-Sound,
}
use borsh_rs.De.SoundInts.{deserialize_int-Sound, deserialize_usize-Sound, deserialize_isize-Sound}
use borsh_rs.De.SoundCompose.{
  deserialize_range-Sound, deserialize_option-Sound, deserialize_result-Sound,
  deserialize_tuple-Sound,
}
use borsh_rs.De.SoundItems.{deserialize_vec-Sound, deserialize_array-Sound, SoundHook}
use borsh_rs.De.SoundBytes.{
  vec_from_reader_u8-Sound, array_from_reader_u8-Sound, deserialize_string-Sound,
}
use package.borsh_rs.Shape.{
  Shape, u8, usize, isize, f32, f64, bool, unit, string, uint, int, nonzero, range, option, vec,
  array, result, pair, encode, IsValid, bytes, below, Platform, IsPlatform, de,
}
use package.borsh_rs.Shape.Reads.{zero_sized-one, size_of-zero_sized}

module _ {R : Type 0} ⦃rd : Read R⦄ {view : R → List ℕ} (law : IsRead rd view) (p : Platform) where
  -- The hook for vectors.
  vec_hook-Sound :
      (a : Shape) (sound : Sound view (de p a).deserialize_reader (IsValid p.target a) (encode a))
      → SoundHook law (de p a) sound (de p a).vec_from_reader
  vec_hook-Sound u8 sound = vec_from_reader_u8-Sound law p.target
  vec_hook-Sound usize sound = inl (λ m s. refl)
  vec_hook-Sound isize sound = inl (λ m s. refl)
  vec_hook-Sound f32 sound = inl (λ m s. refl)
  vec_hook-Sound f64 sound = inl (λ m s. refl)
  vec_hook-Sound bool sound = inl (λ m s. refl)
  vec_hook-Sound unit sound = inl (λ m s. refl)
  vec_hook-Sound string sound = inl (λ m s. refl)
  vec_hook-Sound (uint w) sound = inl (λ m s. refl)
  vec_hook-Sound (int w) sound = inl (λ m s. refl)
  vec_hook-Sound (nonzero w) sound = inl (λ m s. refl)
  vec_hook-Sound (range a) sound = inl (λ m s. refl)
  vec_hook-Sound (option a) sound = inl (λ m s. refl)
  vec_hook-Sound (vec a) sound = inl (λ m s. refl)
  vec_hook-Sound (array n a) sound = inl (λ m s. refl)
  vec_hook-Sound (result a b) sound = inl (λ m s. refl)
  vec_hook-Sound (pair a b) sound = inl (λ m s. refl)

  -- The hook for arrays.
  array_hook-Sound :
      (a : Shape) (sound : Sound view (de p a).deserialize_reader (IsValid p.target a) (encode a))
      → SoundHook law (de p a) sound (de p a).array_from_reader
  array_hook-Sound u8 sound = array_from_reader_u8-Sound law p.target
  array_hook-Sound usize sound = inl (λ m s. refl)
  array_hook-Sound isize sound = inl (λ m s. refl)
  array_hook-Sound f32 sound = inl (λ m s. refl)
  array_hook-Sound f64 sound = inl (λ m s. refl)
  array_hook-Sound bool sound = inl (λ m s. refl)
  array_hook-Sound unit sound = inl (λ m s. refl)
  array_hook-Sound string sound = inl (λ m s. refl)
  array_hook-Sound (uint w) sound = inl (λ m s. refl)
  array_hook-Sound (int w) sound = inl (λ m s. refl)
  array_hook-Sound (nonzero w) sound = inl (λ m s. refl)
  array_hook-Sound (range a) sound = inl (λ m s. refl)
  array_hook-Sound (option a) sound = inl (λ m s. refl)
  array_hook-Sound (vec a) sound = inl (λ m s. refl)
  array_hook-Sound (array n a) sound = inl (λ m s. refl)
  array_hook-Sound (result a b) sound = inl (λ m s. refl)
  array_hook-Sound (pair a b) sound = inl (λ m s. refl)

  module _ (plat : IsPlatform p) where
    pub de-Sound :
        (a : Shape) → Sound view (de p a).deserialize_reader (IsValid p.target a) (encode a)
    de-Sound u8 = deserialize_u8-Sound law
    de-Sound usize = deserialize_usize-Sound law p.target
    de-Sound isize = deserialize_isize-Sound law p.target
    de-Sound f32 = deserialize_float-Sound law is_nan32 4
    de-Sound f64 = deserialize_float-Sound law is_nan64 8
    de-Sound bool = deserialize_bool-Sound law
    de-Sound unit = deserialize_unit-Sound law
    de-Sound string = deserialize_string-Sound law p.target p.utf8_error
    de-Sound (uint w) = deserialize_uint-Sound law (bytes w)
    de-Sound (int w) = deserialize_int-Sound law (below w)
    de-Sound (nonzero w) =
        deserialize_nonzero-Sound law (uint_de (bytes w)) (λ u. u == 0)
          (deserialize_uint-Sound law (bytes w))
    de-Sound (range a) = deserialize_range-Sound law (de p a) (de-Sound a)
    de-Sound (option a) = deserialize_option-Sound law (de p a) (de-Sound a)
    de-Sound (vec a) =
        deserialize_vec-Sound law (de p a) (de-Sound a) (vec_hook-Sound a (de-Sound a))
          (λ e x v. (zero_sized-one p.target a (size_of-zero_sized R p plat a e) x x v v).0)
          p.target
    de-Sound (array n a) =
        deserialize_array-Sound law (de p a) (de-Sound a) (array_hook-Sound a (de-Sound a)) n
    de-Sound (result a b) = deserialize_result-Sound law (de p a) (de-Sound a) (de p b) (de-Sound b)
    de-Sound (pair a b) = deserialize_tuple-Sound law (de p a) (de-Sound a) (de p b) (de-Sound b)
