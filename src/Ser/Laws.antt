-- ===== src/Ser/Laws.antt =====
-- borsh/src/ser/mod.rs: what an implementation of `BorshSerialize` promises, and that the primitive
-- types keep it. The writer is any that takes a buffer as it takes its parts.
use borsh_rs.Prelude.{
  ℕ, ◌≡◌, refl, ◌⊎◌, inl, inr, Bool, false, List, [], ◌∷◌, none, some, concat_map, ap,
}
use borsh_rs.Io.{Write}
use borsh_rs.Io.Laws.{IsWrite, Emits, Emits-nil}
use borsh_rs.Encoding.{encode_u8, encode_uint, encode_int, encode_bool, encode_unit, IsUint, IsInt}
use package.borsh_rs.Ser.{BorshSerialize}
use package.borsh_rs.Ser.Primitives.{
  serialize_u8, serialize_uint, serialize_int, serialize_nonzero, serialize_isize, serialize_usize,
  serialize_float, serialize_bool, serialize_unit, u8_ser, uint_ser, int_ser, nonzero_ser,
  isize_ser, usize_ser, bool_ser, unit_ser,
}

-- `serialize` writes the encoding of each valid value, and `u8_slice`, if it answers, gives the
-- encodings of the elements.
pub record IsSerialize {W T : Type 0} (wr : Write W) (s : BorshSerialize W T) (Valid : T → Type 0)
    (enc : T → List ℕ) : Type 0 where
  pub emits : (x : T) → Valid x → Emits wr (s.serialize x) (enc x)
  pub slices : (xs : List T) → (s.u8_slice xs ≡ none) ⊎ (s.u8_slice xs ≡ some (concat_map enc xs))

-- A byte string is the encodings of its bytes.
concat_map-encode_u8 : (xs : List ℕ) → concat_map encode_u8 xs ≡ xs
concat_map-encode_u8 [] = refl
concat_map-encode_u8 (x ∷ xs) = ap (λ t. x ∷ t) (concat_map-encode_u8 xs)

module _ {W : Type 0} ⦃wr : Write W⦄ where
  pub u8_ser-IsSerialize : IsSerialize wr u8_ser (IsUint 1) encode_u8
  unfolding serialize_u8
  u8_ser-IsSerialize = record {
    emits = λ x h. record { writes = λ w. refl };
    slices = λ xs. inr (rw concat_map-encode_u8);
  }

  pub uint_ser-IsSerialize : (w : ℕ) → IsSerialize wr (uint_ser w) (IsUint w) (encode_uint w)
  unfolding serialize_uint
  uint_ser-IsSerialize w = record {
    emits = λ x h. record { writes = λ s. refl };
    slices = λ xs. inl refl;
  }

  pub int_ser-IsSerialize : (w : ℕ) → IsSerialize wr (int_ser w) (IsInt w) (encode_int w)
  unfolding serialize_int
  int_ser-IsSerialize w = record {
    emits = λ x h. record { writes = λ s. refl };
    slices = λ xs. inl refl;
  }

  pub nonzero_ser-IsSerialize :
      {T : Type 0} {s : BorshSerialize W T} {Valid : T → Type 0} {enc : T → List ℕ}
      (NonZero : T → Type 0)
      → IsSerialize wr s Valid enc
      → IsSerialize wr (nonzero_ser s) (λ x. Valid x × NonZero x) enc
  unfolding serialize_nonzero
  nonzero_ser-IsSerialize NonZero law = record {
    emits = λ x h. law.emits x h.0;
    slices = λ xs. inl refl;
  }

  pub isize_ser-IsSerialize : IsSerialize wr isize_ser (IsInt 8) (encode_int 8)
  unfolding serialize_isize
  isize_ser-IsSerialize = record {
    emits = λ x h. record { writes = λ s. refl };
    slices = λ xs. inl refl;
  }

  pub usize_ser-IsSerialize : IsSerialize wr usize_ser (IsUint 8) (encode_uint 8)
  unfolding serialize_usize
  usize_ser-IsSerialize = record {
    emits = λ x h. record { writes = λ s. refl };
    slices = λ xs. inl refl;
  }

  pub float_ser-IsSerialize :
      (is_nan : ℕ → Bool) (w : ℕ)
      → IsSerialize wr
          (record { serialize = serialize_float is_nan w; u8_slice = λ xs. none })
          (λ x. IsUint w x × (is_nan x ≡ false))
          (encode_uint w)
  unfolding serialize_float
  float_ser-IsSerialize is_nan w = record {
    emits = λ x h. record { writes = λ s. rw h.1 refl };
    slices = λ xs. inl refl;
  }

  pub bool_ser-IsSerialize : IsSerialize wr bool_ser (λ b. Unit) encode_bool
  unfolding serialize_bool
  bool_ser-IsSerialize = record {
    emits = λ x h. record { writes = λ s. refl };
    slices = λ xs. inl refl;
  }

  pub unit_ser-IsSerialize : IsWrite wr → IsSerialize wr unit_ser (λ u. Unit) encode_unit
  unfolding serialize_unit
  unit_ser-IsSerialize law = record { emits = λ x h. Emits-nil law; slices = λ xs. inl refl }
