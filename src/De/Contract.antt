-- ===== src/De/Contract.antt =====
-- borsh/src/de/mod.rs: what the implementations read, over any reader that keeps its contract. `d` is
-- the implementation for the elements, and `view` the input that a reader has left.
use borsh_rs.Prelude.{ℕ, ◌+◌, ◌≤◌, ◌^◌, ◌≡◌, Bool, true, false, List, [], ◌++◌, All}
use Prim.Native.String.{String}
use borsh_rs.Num.{is_utf8}
use borsh_rs.Io.{Read, ok}
use borsh_rs.Io.Laws.{IsByte, IsRead, Sound}
use borsh_rs.Encoding.{
  encode_u8, encode_uint, encode_seq, encode_items, encode_result, IsUint, SeqValid, ArrayValid,
  ResultValid,
}
use borsh_rs.Ser.Containers.{CoreResult}
use package.borsh_rs.De.{BorshDeserialize, Target}
use package.borsh_rs.De.Laws.{IsDeserialize}
use package.borsh_rs.De.Primitives.{deserialize_float}
use package.borsh_rs.De.Containers.{
  deserialize_vec, deserialize_array, deserialize_result, deserialize_string,
}
use package.borsh_rs.De.Compose.{deserialize_vec-Reads, deserialize_array-Reads}
use package.borsh_rs.De.SoundCompose.{deserialize_result-Sound}
use package.borsh_rs.De.SoundItems.{SoundHook, deserialize_vec-Sound}
use package.borsh_rs.De.ByteStrings.{deserialize_string-Reads}
use package.borsh_rs.De.SoundBytes.{deserialize_string-Sound}
use package.borsh_rs.De.Sound.{deserialize_float-Sound}

module _ {R : Type 0} ⦃rd : Read R⦄ {view : R → List ℕ} (law : IsRead rd view) where
  -- On a machine with 32 bits or more, over any reader that keeps its contract and for
  -- elements that are read from their encodings, a vector of fewer than 2 ^ 32 valid elements
  -- is read back from an input that begins with its encoding, and the rest of the input is
  -- left.
  pub deserialize_vec-encode_seq :
      {T : Type 0} (d : BorshDeserialize R T) {Valid : T → Type 0} {enc : T → List ℕ}
      → IsDeserialize view d Valid enc
      → (t : Target) (xs : List T) (s : R) (rest : List ℕ) → 2 ^ 32 ≤ t.usize_max + 1
      → SeqValid Valid xs
      → view s ≡ encode_seq enc xs ++ rest
      → (s' : R) × (deserialize_vec d t s ≡ (ok xs, s')) × (view s' ≡ rest)
  deserialize_vec-encode_seq d hd t xs s rest wide v h =
      (deserialize_vec-Reads law hd t xs wide v).takes s rest h

  -- Over any reader that keeps its contract, a vector that was read from bytes is valid, and
  -- its encoding, and nothing else, was consumed. The elements, and what their hook answers,
  -- must be read so too, and a type of size 0 must have no bytes.
  pub deserialize_vec-consumed :
      {T : Type 0} (d : BorshDeserialize R T) {Valid : T → Type 0} {enc : T → List ℕ}
      (sound : Sound view d.deserialize_reader Valid enc)
      → SoundHook law d sound d.vec_from_reader
      → (d.size_of ≡ 0 → (x : T) → Valid x → enc x ≡ [])
      → (t : Target) (s : R) (xs : List T) (s' : R) → All IsByte (view s)
      → deserialize_vec d t s ≡ (ok xs, s')
      → (view s ≡ encode_seq enc xs ++ view s') × SeqValid Valid xs
  deserialize_vec-consumed d sound hook zst t s xs s' bytes h =
      (deserialize_vec-Sound law d sound hook zst t).consumed s xs s' bytes h

  -- Over any reader that keeps its contract and for elements that are read from their
  -- encodings, an array of fewer than 2 ^ 32 valid elements is read back from an input that
  -- begins with their encodings, and the rest is left.
  pub deserialize_array-encode_items :
      {T : Type 0} (d : BorshDeserialize R T) {Valid : T → Type 0} {enc : T → List ℕ}
      → IsDeserialize view d Valid enc
      → (n : ℕ) (xs : List T) (s : R) (rest : List ℕ) → ArrayValid Valid n xs
      → view s ≡ encode_items enc xs ++ rest
      → (s' : R) × (deserialize_array d n s ≡ (ok xs, s')) × (view s' ≡ rest)
  deserialize_array-encode_items d hd n xs s rest v h =
      (deserialize_array-Reads law hd n xs v).takes s rest h

  -- On a machine with 32 bits or more and over any reader that keeps its contract, a string
  -- is read back from an input that begins with its encoding, and the rest is left: any byte
  -- string that is a well-formed text of fewer than 2 ^ 32 bytes.
  pub deserialize_string-encode_seq :
      (utf8_error : List ℕ → String) (t : Target) (bytes : List ℕ) (s : R) (rest : List ℕ)
      → 2 ^ 32 ≤ t.usize_max + 1
      → SeqValid (IsUint 1) bytes
      → is_utf8 bytes ≡ true
      → view s ≡ encode_seq encode_u8 bytes ++ rest
      → (s' : R) × (deserialize_string utf8_error t s ≡ (ok bytes, s')) × (view s' ≡ rest)
  deserialize_string-encode_seq utf8_error t bytes s rest wide v text h =
      (deserialize_string-Reads law t wide utf8_error bytes v text).takes s rest h

  -- Over any reader that keeps its contract, a string that was read from bytes is a
  -- well-formed text, and its encoding was consumed.
  pub deserialize_string-consumed :
      (utf8_error : List ℕ → String) (t : Target) (s : R) (text : List ℕ) (s' : R)
      → All IsByte (view s)
      → deserialize_string utf8_error t s ≡ (ok text, s')
      → (view s ≡ encode_seq encode_u8 text ++ view s')
        × SeqValid (IsUint 1) text
        × (is_utf8 text ≡ true)
  deserialize_string-consumed utf8_error t s text s' bytes h =
      let (v, good) = (deserialize_string-Sound law t utf8_error).consumed s text s' bytes h in
      (v, good.0, good.1)

  -- Over any reader that keeps its contract, a result that was read from bytes is valid, and
  -- its encoding was consumed, so no tag but 0 and 1 is accepted. The values and the errors
  -- must be read so too.
  pub deserialize_result-consumed :
      {T E : Type 0} (d : BorshDeserialize R T) (d' : BorshDeserialize R E) {Valid : T → Type 0}
      {enc : T → List ℕ} {Valid' : E → Type 0} {enc' : E → List ℕ}
      → Sound view d.deserialize_reader Valid enc
      → Sound view d'.deserialize_reader Valid' enc'
      → (s : R) (x : CoreResult T E) (s' : R) → All IsByte (view s)
      → deserialize_result d d' s ≡ (ok x, s')
      → (view s ≡ encode_result enc enc' x ++ view s') × ResultValid Valid Valid' x
  deserialize_result-consumed d d' sound sound' s x s' bytes h =
      (deserialize_result-Sound law d sound d' sound').consumed s x s' bytes h

  -- Over any reader that keeps its contract, a float of `w` bytes that was read from bytes is
  -- no NaN, and its bits were consumed.
  pub deserialize_float-consumed :
      (is_nan : ℕ → Bool) (w : ℕ) (s : R) (bits : ℕ) (s' : R)
      → All IsByte (view s)
      → deserialize_float is_nan w s ≡ (ok bits, s')
      → (view s ≡ encode_uint w bits ++ view s') × IsUint w bits × (is_nan bits ≡ false)
  deserialize_float-consumed is_nan w s bits s' bytes h =
      let (v, good) = (deserialize_float-Sound law is_nan w).consumed s bits s' bytes h in
      (v, good.0, good.1)
