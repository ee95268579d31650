-- ===== src/Ser.antt =====
-- borsh/src/ser/mod.rs: the trait `BorshSerialize` as a record for a writer of type `W`, its
-- provided methods, and the helpers of borsh/src/ser/helpers.rs.
pub mod Primitives
pub mod Containers
pub mod Laws
pub mod Compose
pub mod Contract
pub mod Collections
pub mod Net
pub mod Canonical
pub mod CollectionLaws
pub mod Wrappers
pub mod Sorting
use borsh_rs.Prelude.{ℕ, ◌^◌, List, [], Option, none, ltb, if◌then◌else◌}
use borsh_rs.Io.{M, Result, ok, err, panicked, out_of_fuel, simple, invalid_input, pure, fail}

-- `trait BorshSerialize`. `u8_slice` is some byte string if a slice of the type is one.
pub record BorshSerialize (W T : Type 0) : Type 0 where
  pub serialize : T → M W (Unit {0})
  pub u8_slice : List T → Option (List ℕ)

-- The provided `u8_slice`.
abbrev pub no_u8_slice : {T : Type 0} → List T → Option (List ℕ)
no_u8_slice slice = none

-- The vector that was written, or the error.
abbrev pub written : Result (Unit {0}) × List ℕ → Result (List ℕ)
written (ok u, result) = ok result
written (err e, result) = err e
written (panicked, result) = panicked
written (out_of_fuel, result) = out_of_fuel

-- `try_to_vec`: the capacity of the vector that it starts from is not modelled.
unfoldable pub try_to_vec : {T : Type 0} → BorshSerialize (List ℕ) T → T → Result (List ℕ)
try_to_vec s x = written (s.serialize x [])

-- `to_vec` and `to_writer` of helpers.rs.
unfoldable pub to_vec : {T : Type 0} → BorshSerialize (List ℕ) T → T → Result (List ℕ)
unfolding try_to_vec
to_vec s value = try_to_vec s value

unfoldable pub to_writer : {W T : Type 0} → BorshSerialize W T → W → T → Result (Unit {0}) × W
to_writer s writer value = s.serialize value writer

-- `u32::try_from(len).map_err(|_| ErrorKind::InvalidInput)?`
abbrev pub u32_try_from : {W : Type 0} → ℕ → M W ℕ
u32_try_from n = if ltb n (2 ^ 32) then pure n else fail (simple invalid_input)
