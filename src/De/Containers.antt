-- ===== src/De/Containers.antt =====
-- borsh/src/de/mod.rs: `Range`, `Option`, `Result`, strings, vectors, arrays and tuples.
use borsh_rs.Prelude.{
  ℕ, zero, suc, ◌*◌, ◌==◌, List, [], ◌∷◌, Option, none, some, replicate, if◌then◌else◌,
}
use Prim.Native.String.{String, ◌++◌ as str_append}
use borsh_rs.Num.{decimal_u8, is_utf8}
use borsh_rs.Io.{M, Read, custom, invalid_input, invalid_data, pure, fail, ◌>>=◌}
use borsh_rs.Ser.Containers.{Range, CoreResult, done, error}
use package.borsh_rs.De.{Target, BorshDeserialize}
use package.borsh_rs.De.Primitives.{deserialize_u8, deserialize_uint, plain_de}
use package.borsh_rs.De.Bytes.{usize_of_u32, u8_de}

module _ {R : Type 0} ⦃rd : Read R⦄ {T : Type 0} (d : BorshDeserialize R T) where
  unfoldable pub deserialize_range : M R (Range T)
  deserialize_range = do
    a ← d.deserialize_reader
    b ← d.deserialize_reader
    pure (record { start = a; stop = b })

  -- The tests of the tags of `Option` and `Result`.
  abbrev pub option_of_tag : ℕ → M R (Option T)
  option_of_tag flag =
      if flag == 0
      then pure none
      else if flag == 1
      then d.deserialize_reader >>= (λ x. pure (some x))
      else fail (
          custom invalid_input (
            str_append "Invalid Option representation: "
              (str_append (decimal_u8 flag) ". The first byte must be 0 or 1")))

  unfoldable pub deserialize_option : M R (Option T)
  unfolding deserialize_u8
  deserialize_option = do flag ← deserialize_u8; option_of_tag flag

  abbrev pub result_of_tag : {E : Type 0} → BorshDeserialize R E → ℕ → M R (CoreResult T E)
  result_of_tag d' flag =
      if flag == 0
      then d'.deserialize_reader >>= (λ e. pure (error e))
      else if flag == 1
      then d.deserialize_reader >>= (λ x. pure (done x))
      else fail (
          custom invalid_input (
            str_append "Invalid Result representation: "
              (str_append (decimal_u8 flag) ". The first byte must be 0 or 1")))

  unfoldable pub deserialize_result : {E : Type 0} → BorshDeserialize R E → M R (CoreResult T E)
  unfolding deserialize_u8
  deserialize_result d' = do flag ← deserialize_u8; result_of_tag d' flag

  -- `for _ in 0..len { result.push(T::deserialize_reader(reader)?); }`
  unfoldable pub deserialize_items : ℕ → M R (List T)
  deserialize_items zero = pure []
  deserialize_items (suc n) = do
    x ← d.deserialize_reader
    rest ← deserialize_items n
    pure (x ∷ rest)

  -- A vector whose hook answered `none`. The elements of a type of size 0 are all one value, which
  -- is read once.
  unfoldable pub deserialize_elements : Target → ℕ → M R (List T)
  unfolding deserialize_items
  deserialize_elements t len =
      if d.size_of == 0
      then d.deserialize_reader >>= (λ x. usize_of_u32 t len >>= (λ n. pure (replicate n x)))
      else deserialize_items len

  -- What the hook answered, or else the elements.
  abbrev pub or_elements : Target → ℕ → Option (List T) → M R (List T)
  or_elements t len (some vec_bytes) = pure vec_bytes
  or_elements t len none = deserialize_elements t len

  -- The implementation for `Vec<T>`; `Box<[T]>`, `Cow`, `Rc`, `Arc` and `Bytes` call it.
  unfoldable pub deserialize_vec : Target → M R (List T)
  unfolding deserialize_uint deserialize_elements
  deserialize_vec t = do
    len ← deserialize_uint 4
    if len == 0 then pure [] else d.vec_from_reader len >>= or_elements t len

  abbrev pub or_items : ℕ → Option (List T) → M R (List T)
  or_items n (some arr) = pure arr
  or_items n none = deserialize_items n

  -- The implementation for `[T; N]`.
  unfoldable pub deserialize_array : ℕ → M R (List T)
  unfolding deserialize_items
  deserialize_array n = d.array_from_reader n >>= or_items n

  -- One more component in front of a tuple, as `impl_tuple!` reads them; `()` ends a tuple.
  unfoldable pub deserialize_tuple : {U : Type 0} → BorshDeserialize R U → M R (T × U)
  deserialize_tuple d' = do x ← d.deserialize_reader; y ← d'.deserialize_reader; pure (x, y)

  -- The implementations.
  abbrev pub range_de : BorshDeserialize R (Range T)
  range_de = plain_de deserialize_range (2 * d.size_of)

  abbrev pub option_de : ℕ → BorshDeserialize R (Option T)
  option_de size = plain_de deserialize_option size

  abbrev pub result_de :
      {E : Type 0} → BorshDeserialize R E → ℕ → BorshDeserialize R (CoreResult T E)
  result_de d' size = plain_de (deserialize_result d') size

  abbrev pub vec_de : Target → BorshDeserialize R (List T)
  vec_de t = plain_de (deserialize_vec t) 24

  abbrev pub array_de : ℕ → BorshDeserialize R (List T)
  array_de n = plain_de (deserialize_array n) (n * d.size_of)

  abbrev pub tuple_de : {U : Type 0} → BorshDeserialize R U → ℕ → BorshDeserialize R (T × U)
  tuple_de d' size = plain_de (deserialize_tuple d') size

-- `String`. The text of the error is that of `FromUtf8Error`.
module _ {R : Type 0} ⦃rd : Read R⦄ (utf8_error : List ℕ → String) (t : Target) where
  unfoldable pub deserialize_string : M R (List ℕ)
  unfolding deserialize_vec
  deserialize_string = do
    bytes ← deserialize_vec (u8_de t) t
    if is_utf8 bytes then pure bytes else fail (custom invalid_data (utf8_error bytes))

  abbrev pub string_de : BorshDeserialize R (List ℕ)
  string_de = plain_de deserialize_string 24
