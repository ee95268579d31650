-- ===== src/De.antt =====
-- borsh/src/de/mod.rs: the trait `BorshDeserialize` as a record for a reader of type `R`, and its
-- provided methods.
pub mod Primitives
pub mod Bytes
pub mod Containers
pub mod Laws
pub mod FillVec
pub mod Bounded
pub mod Ends
pub mod Compose
pub mod Contract
pub mod Collections
pub mod Net
pub mod NetReads
pub mod MapReads
pub mod MapOrder
pub mod ByteStrings
pub mod Sound
pub mod SoundCompose
pub mod SoundItems
pub mod SoundInts
pub mod SoundBytes
pub mod Reads
pub mod Wrappers
use borsh_rs.Prelude.{ℕ, ◌≤◌, List, [], ◌∷◌, Option, none, leb, if◌then◌else◌, Bool, true, false}
use Prim.Native.String.{String}
use borsh_rs.Io.{
  M, Read, Result, ok, err, panicked, out_of_fuel, Error, ErrorKind, custom, kind, invalid_input,
  invalid_data, unexpected_eof, pure, map_err, ◌>>=◌,
}
use borsh_rs.Io.Slice.{Slice}

-- The machine that the program runs on: `usize::MAX`.
pub record Target : Type 0 where
  pub usize_max : ℕ

abbrev pub not_all_bytes_read : String
not_all_bytes_read = "Not all bytes read"

abbrev pub unexpected_length_of_input : String
unexpected_length_of_input = "Unexpected length of input"

abbrev pub overflow_on_machine_with_32_bit_isize : String
overflow_on_machine_with_32_bit_isize = "Overflow on machine with 32 bit isize"

abbrev pub overflow_on_machine_with_32_bit_usize : String
overflow_on_machine_with_32_bit_usize = "Overflow on machine with 32 bit usize"

abbrev pub invalid_zero_value : String
invalid_zero_value = "Expected a non-zero value"

-- `trait BorshDeserialize`. The two hooks answer `none` where a type reads its sequences element by
-- element; `array_from_reader` is given the length `N`. `size_of` is `size_of::<T>()`.
pub record BorshDeserialize (R T : Type 0) : Type 0 where
  pub deserialize_reader : M R T
  pub vec_from_reader : ℕ → M R (Option (List T))
  pub array_from_reader : ℕ → M R (Option (List T))
  pub size_of : ℕ

-- The provided hooks.
abbrev pub no_hook : {R T : Type 0} → ℕ → M R (Option (List T))
no_hook n = pure none

abbrev pub is_unexpected_eof : ErrorKind → Bool
is_unexpected_eof unexpected_eof = true
is_unexpected_eof _ = false

abbrev pub unexpected_eof_to_unexpected_length_of_input : Error → Error
unexpected_eof_to_unexpected_length_of_input e =
    if is_unexpected_eof (kind e) then custom invalid_input unexpected_length_of_input else e

-- `deserialize`: the reader is the slice itself.
unfoldable pub deserialize : {T : Type 0} → BorshDeserialize Slice T → M Slice T
deserialize d buf = d.deserialize_reader buf

-- The last check of `try_from_slice`.
abbrev pub all_read : {T : Type 0} → Result T × Slice → Result T
all_read (ok result, []) = ok result
all_read (ok result, b ∷ bs) = err (custom invalid_data not_all_bytes_read)
all_read (err e, v) = err e
all_read (panicked, v) = panicked
all_read (out_of_fuel, v) = out_of_fuel

unfoldable pub try_from_slice : {T : Type 0} → BorshDeserialize Slice T → List ℕ → Result T
unfolding deserialize
try_from_slice d v = all_read (deserialize d v)

-- The last match of `try_from_reader`: only the end of the input is a success.
abbrev pub at_end : {R T : Type 0} → T → Result (List ℕ) × R → Result T × R
at_end result (err f, s) =
    if is_unexpected_eof (kind f)
    then (ok result, s)
    else (err (custom invalid_data not_all_bytes_read), s)
at_end result (ok buf, s) = (err (custom invalid_data not_all_bytes_read), s)
at_end result (panicked, s) = (panicked, s)
at_end result (out_of_fuel, s) = (out_of_fuel, s)

module _ {R : Type 0} ⦃rd : Read R⦄ where
  unfoldable pub try_from_reader : {T : Type 0} → BorshDeserialize R T → M R T
  try_from_reader d = do
    result ← d.deserialize_reader
    λ reader. at_end result (rd.read_exact 1 reader)

  -- `reader.read_exact(&mut buf).map_err(unexpected_eof_to_unexpected_length_of_input)?`
  unfoldable pub read_exact_or : ℕ → M R (List ℕ)
  read_exact_or n reader =
      map_err unexpected_eof_to_unexpected_length_of_input (rd.read_exact n reader)
