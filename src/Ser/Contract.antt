-- ===== src/Ser/Contract.antt =====
-- borsh/src/ser/mod.rs: what the implementations write, for any writer that takes a buffer as it
-- takes its parts. `s` is the implementation for the elements.
use borsh_rs.Prelude.{ℕ, ◌≡◌, List}
use borsh_rs.Io.{Write}
use borsh_rs.Io.Laws.{IsWrite}
use borsh_rs.Encoding.{encode_seq, encode_items, encode_result, SeqValid, ArrayValid, ResultValid}
use package.borsh_rs.Ser.{BorshSerialize}
use package.borsh_rs.Ser.Containers.{
  CoreResult, serialize_seq, serialize_array, serialize_result, serialize_slice, serialize_items,
}
use package.borsh_rs.Ser.Laws.{IsSerialize}
use package.borsh_rs.Ser.Compose.{
  vec_ser-IsSerialize, array_ser-IsSerialize, result_ser-IsSerialize, slice-Emits, items-Emits,
}
use borsh_rs.Prelude.{All, sym, ◌∙◌}

module _ {W : Type 0} ⦃wr : Write W⦄ (law : IsWrite wr) {T : Type 0} (s : BorshSerialize W T)
    {Valid : T → Type 0} {enc : T → List ℕ} (hs : IsSerialize wr s Valid enc) where
  -- For a writer that takes a buffer as it takes its parts, and elements that are written as
  -- their encodings, a sequence of fewer than 2 ^ 32 valid elements is written as its length
  -- in four bytes and the encodings of its elements, in any state of the writer.
  pub serialize_seq-encode_seq :
      (xs : List T) (w : W)
      → SeqValid Valid xs
      → serialize_seq s xs w ≡ wr.write_all (encode_seq enc xs) w
  serialize_seq-encode_seq xs w v = ((vec_ser-IsSerialize law hs).emits xs v).writes w

  -- For a writer that takes a buffer as it takes its parts, and elements that are written as
  -- their encodings, the bytes of a slice at once, if the type has them, are what its
  -- elements write one by one.
  pub serialize_slice-serialize_items :
      (xs : List T) (w : W) → All Valid xs → serialize_slice s xs w ≡ serialize_items s xs w
  serialize_slice-serialize_items xs w v =
      (slice-Emits law hs xs v).writes w ∙ sym ((items-Emits law hs xs v).writes w)

  -- For a writer that takes a buffer as it takes its parts, and elements that are written as
  -- their encodings, an array of `n` valid elements is written as their encodings, without a
  -- length.
  pub serialize_array-encode_items :
      (n : ℕ) (xs : List T) (w : W)
      → ArrayValid Valid n xs
      → serialize_array s n xs w ≡ wr.write_all (encode_items enc xs) w
  serialize_array-encode_items n xs w v = ((array_ser-IsSerialize law hs n).emits xs v).writes w

  -- For a writer that takes a buffer as it takes its parts, and values and errors that are
  -- written as their encodings, a valid result is written as a tag, 0 for an error and 1 for
  -- a value, and the encoding of what it holds.
  pub serialize_result-encode_result :
      {E : Type 0} (t : BorshSerialize W E) {Valid' : E → Type 0} {enc' : E → List ℕ}
      → IsSerialize wr t Valid' enc'
      → (x : CoreResult T E) (w : W) → ResultValid Valid Valid' x
      → serialize_result s t x w ≡ wr.write_all (encode_result enc enc' x) w
  serialize_result-encode_result t ht x w v =
      ((result_ser-IsSerialize law hs ht).emits x v).writes w
