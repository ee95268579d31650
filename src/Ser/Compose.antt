-- ===== src/Ser/Compose.antt =====
-- borsh/src/ser/mod.rs: `Range`, `Option`, `Result`, slices, arrays and tuples write the encoding if
-- their components do.
use borsh_rs.Prelude.{
  ℕ, ◌≤◌, ◌^◌, ◌≡◌, refl, inl, inr, false, List, [], ◌∷◌, Option, none, some, All, length, arith,
  lt→ltb, le→ltb, ◌==◌, Bool-cases,
}
use borsh_rs.Num.{to_le_bytes}
use borsh_rs.Io.{
  Write, simple, invalid_input, Result, ok, err, panicked, out_of_fuel, and_then, pure, ◌>>◌,
}
use borsh_rs.Io.Laws.{IsWrite, Emits, Emits-nil, Emits-then}
use borsh_rs.Encoding.{
  encode_range, encode_option, encode_result, encode_items, encode_seq, encode_pair, IsUint,
  RangeValid, OptionValid, ResultValid, SeqValid, ArrayValid, PairValid, encode_u8,
}
use package.borsh_rs.Ser.{BorshSerialize}
use package.borsh_rs.Ser.Primitives.{serialize_u8}
use package.borsh_rs.Ser.Containers.{
  CoreResult, done, error, serialize_range, serialize_option, serialize_result, serialize_items,
  serialize_slice, serialize_seq, serialize_array, serialize_tuple, serialize_string, range_ser,
  option_ser, result_ser, vec_ser, array_ser, tuple_ser, string_ser,
}
use package.borsh_rs.Ser.Laws.{IsSerialize, u8_ser-IsSerialize}

and_then-pure :
    {W : Type 0} (r : Result (Unit {0}) × W) → and_then {B = Unit {0}} r (λ u. pure tt) ≡ r
and_then-pure (ok u, w) = refl
and_then-pure (err e, w) = refl
and_then-pure (panicked, w) = refl
and_then-pure (out_of_fuel, w) = refl

module _ {W : Type 0} ⦃wr : Write W⦄ (law : IsWrite wr) where
  -- A write as the last step but one.
  write-Emits : (bytes : List ℕ) → Emits wr (wr.write_all bytes >> pure tt) bytes
  write-Emits bytes = record { writes = λ w. and_then-pure (wr.write_all bytes w) }

  module _ {T : Type 0} {s : BorshSerialize W T} {Valid : T → Type 0} {enc : T → List ℕ}
      (h : IsSerialize wr s Valid enc) where
    pub range_ser-IsSerialize : IsSerialize wr (range_ser s) (RangeValid Valid) (encode_range enc)
    unfolding serialize_range
    range_ser-IsSerialize = record {
      emits = λ x v.
          Emits-then law (s.serialize x.start) (s.serialize x.stop) (h.emits x.start v.0)
            (h.emits x.stop v.1);
      slices = λ xs. inl refl;
    }

    option-Emits :
        (x : Option T) → OptionValid Valid x → Emits wr (serialize_option s x) (encode_option enc x)
    unfolding serialize_option
    option-Emits none v = record { writes = λ w. refl }
    option-Emits (some x) v =
        Emits-then law (serialize_u8 1) (s.serialize x) (record { writes = λ w. refl })
          (h.emits x v)

    pub option_ser-IsSerialize :
        IsSerialize wr (option_ser s) (OptionValid Valid) (encode_option enc)
    option_ser-IsSerialize = record { emits = option-Emits; slices = λ xs. inl refl }

    result-Emits :
        {E : Type 0} {t : BorshSerialize W E} {Valid' : E → Type 0} {enc' : E → List ℕ}
        → IsSerialize wr t Valid' enc'
        → (x : CoreResult T E) → ResultValid Valid Valid' x
        → Emits wr (serialize_result s t x) (encode_result enc enc' x)
    unfolding serialize_result
    result-Emits {t} h' (error e) v =
        Emits-then law (serialize_u8 0) (t.serialize e) (record { writes = λ w. refl })
          (h'.emits e v)
    result-Emits h' (done x) v =
        Emits-then law (serialize_u8 1) (s.serialize x) (record { writes = λ w. refl })
          (h.emits x v)

    pub result_ser-IsSerialize :
        {E : Type 0} {t : BorshSerialize W E} {Valid' : E → Type 0} {enc' : E → List ℕ}
        → IsSerialize wr t Valid' enc'
        → IsSerialize wr (result_ser s t) (ResultValid Valid Valid') (encode_result enc enc')
    result_ser-IsSerialize h' = record { emits = result-Emits h'; slices = λ xs. inl refl }

    pub items-Emits :
        (xs : List T) → All Valid xs → Emits wr (serialize_items s xs) (encode_items enc xs)
    unfolding serialize_items
    items-Emits [] v = Emits-nil law
    items-Emits (x ∷ xs) v =
        Emits-then law (s.serialize x) (serialize_items s xs) (h.emits x v.0) (items-Emits xs v.1)

    -- The bytes of a slice at once, and its elements one by one, are the same.
    pub slice-Emits :
        (xs : List T) → All Valid xs → Emits wr (serialize_slice s xs) (encode_items enc xs)
    unfolding serialize_slice
    slice-Emits xs v = elim (h.slices xs) [
      | inl e ↦ record { writes = λ w. rw (e, serialize_slice) ((items-Emits xs v).writes w) }
      | inr e ↦ record {
        writes = λ w. rw (e, serialize_slice) ((write-Emits (encode_items enc xs)).writes w);
      }
    ]

    seq-Emits :
        (xs : List T) → SeqValid Valid xs → Emits wr (serialize_seq s xs) (encode_seq enc xs)
    unfolding serialize_seq
    seq-Emits xs v = record {
      writes = λ w. rw (lt→ltb (length xs) (2 ^ 32) v.0) (
          (Emits-then law (wr.write_all (to_le_bytes 4 (length xs))) (serialize_slice s xs)
              (record { writes = λ w. refl }) (slice-Emits xs v.1)).writes
            w);
    }

    pub vec_ser-IsSerialize : IsSerialize wr (vec_ser s) (SeqValid Valid) (encode_seq enc)
    vec_ser-IsSerialize = record { emits = seq-Emits; slices = λ xs. inl refl }

    array-Emits :
        (n : ℕ) (xs : List T)
        → ArrayValid Valid n xs
        → Emits wr (serialize_array s n xs) (encode_items enc xs)
    unfolding serialize_array serialize_slice
    array-Emits n [] v = elim (Bool-cases (n == 0)) [
      | inl e ↦ rw (e, serialize_array) (Emits-nil law)
      | inr e ↦ rw (e, serialize_array) (slice-Emits [] v.1)
    ]
    array-Emits n (x ∷ xs) v =
        let more : (n == 0) ≡ false = ground arith in
        rw (more, serialize_array) (slice-Emits (x ∷ xs) v.1)

    pub array_ser-IsSerialize :
        (n : ℕ) → IsSerialize wr (array_ser s n) (ArrayValid Valid n) (encode_items enc)
    array_ser-IsSerialize n = record { emits = array-Emits n; slices = λ xs. inl refl }

    pub tuple_ser-IsSerialize :
        {U : Type 0} {t : BorshSerialize W U} {Valid' : U → Type 0} {enc' : U → List ℕ}
        → IsSerialize wr t Valid' enc'
        → IsSerialize wr (tuple_ser s t) (PairValid Valid Valid') (encode_pair enc enc')
    unfolding serialize_tuple
    tuple_ser-IsSerialize {t} h' = record {
      emits = λ (x, y) (v, v').
          Emits-then law (s.serialize x) (t.serialize y) (h.emits x v) (h'.emits y v');
      slices = λ xs. inl refl;
    }

  -- A string is written as the sequence of its bytes.
  pub string_ser-IsSerialize :
      IsSerialize wr string_ser (SeqValid (IsUint 1)) (encode_seq encode_u8)
  unfolding serialize_string
  string_ser-IsSerialize = record {
    emits = λ x v. seq-Emits u8_ser-IsSerialize x v;
    slices = λ xs. inl refl;
  }

  -- More than 2 ^ 32 - 1 elements: the length is refused before anything is written.
  pub serialize_seq-too_long :
      {T : Type 0} (s : BorshSerialize W T) (xs : List T) (w : W)
      → 2 ^ 32 ≤ length xs
      → serialize_seq s xs w ≡ (err (simple invalid_input), w)
  unfolding serialize_seq
  serialize_seq-too_long s xs w h = rw (le→ltb (length xs) (2 ^ 32) h) refl
