-- ===== src/De/Reads.antt =====
-- borsh/src/de/mod.rs: the primitive types read back the encodings of their values.
use borsh_rs.Prelude.{ℕ, ◌^◌, ◌≡◌, refl, ◌≢◌, inl, Bool, true, false, List, [], ◌∷◌, arith}
use borsh_rs.Num.{ℤ, from_le_bytes-to_le_bytes, to_unsigned, to_unsigned-lt, to_signed-to_unsigned}
use borsh_rs.Io.{M, Read}
use borsh_rs.Io.Laws.{IsRead, Reads, Reads-map, Reads-pure}
use borsh_rs.Encoding.{encode_u8, encode_uint, encode_int, encode_bool, encode_unit, IsUint, IsInt}
use package.borsh_rs.De.{BorshDeserialize, Target, read_exact_or}
use package.borsh_rs.De.Laws.{IsDeserialize, read_exact_or-Reads, le_bytes-Reads}
use package.borsh_rs.De.Primitives.{
  first, fits_usize, fits_isize, deserialize_u8, deserialize_uint, deserialize_int,
  deserialize_nonzero, deserialize_isize, deserialize_usize, deserialize_float, deserialize_bool,
  deserialize_unit, bool_of_tag, plain_de, uint_de, int_de, bool_de, unit_de,
}

module _ {R : Type 0} ⦃rd : Read R⦄ {view : R → List ℕ} (law : IsRead rd view) where
  pub deserialize_u8-Reads : (b : ℕ) → Reads view deserialize_u8 b (encode_u8 b)
  unfolding deserialize_u8
  deserialize_u8-Reads b =
      Reads-map (read_exact_or 1) first (read_exact_or-Reads law (b ∷ [])) (λ s. refl)

  pub deserialize_uint-Reads :
      (w v : ℕ) → IsUint w v → Reads view (deserialize_uint w) v (encode_uint w v)
  unfolding deserialize_uint
  deserialize_uint-Reads w v h =
      Reads-map (read_exact_or w) _ (le_bytes-Reads law w v)
        (λ s. rw (from_le_bytes-to_le_bytes w v h))

  pub deserialize_int-Reads :
      (w : ℕ) (z : ℤ) → IsInt w z → Reads view (deserialize_int w) z (encode_int w z)
  unfolding deserialize_int
  deserialize_int-Reads w z h =
      Reads-map (read_exact_or w) _ (le_bytes-Reads law w (to_unsigned (256 ^ w) z)) (λ s. rw (
        from_le_bytes-to_le_bytes w _ (to_unsigned-lt (256 ^ w) z h),
        to_signed-to_unsigned (256 ^ w) z h,
      ))

  pub deserialize_nonzero-Reads :
      {T : Type 0} (d : BorshDeserialize R T) (is_zero : T → Bool) (x : T) (bytes : List ℕ)
      → Reads view d.deserialize_reader x bytes
      → is_zero x ≡ false
      → Reads view (deserialize_nonzero d is_zero) x bytes
  unfolding deserialize_nonzero
  deserialize_nonzero-Reads d is_zero x bytes h n =
      Reads-map d.deserialize_reader _ h (λ s. rw n refl)

  -- A 64-bit integer that fits the machine's.
  pub deserialize_usize-Reads :
      (t : Target) (u : ℕ)
      → IsUint 8 u
      → fits_usize t u ≡ true
      → Reads view (deserialize_usize t) u (encode_uint 8 u)
  unfolding deserialize_usize
  deserialize_usize-Reads t u h f =
      Reads-map (deserialize_uint 8) _ (deserialize_uint-Reads 8 u h) (λ s. rw f refl)

  pub deserialize_isize-Reads :
      (t : Target) (z : ℤ)
      → IsInt 8 z
      → fits_isize t z ≡ true
      → Reads view (deserialize_isize t) z (encode_int 8 z)
  unfolding deserialize_isize
  deserialize_isize-Reads t z h f =
      Reads-map (deserialize_int 8) _ (deserialize_int-Reads 8 z h) (λ s. rw f refl)

  pub deserialize_float-Reads :
      (is_nan : ℕ → Bool) (w bits : ℕ)
      → IsUint w bits
      → is_nan bits ≡ false
      → Reads view (deserialize_float is_nan w) bits (encode_uint w bits)
  unfolding deserialize_float
  deserialize_float-Reads is_nan w bits h n =
      Reads-map (read_exact_or w) _ (le_bytes-Reads law w bits)
        (λ s. rw (from_le_bytes-to_le_bytes w bits h, n) refl)

  pub deserialize_bool-Reads : (b : Bool) → Reads view deserialize_bool b (encode_bool b)
  unfolding deserialize_bool
  deserialize_bool-Reads true =
      Reads-map deserialize_u8 bool_of_tag (deserialize_u8-Reads 1) (λ s. refl)
  deserialize_bool-Reads false =
      Reads-map deserialize_u8 bool_of_tag (deserialize_u8-Reads 0) (λ s. refl)

  -- A type with the provided hooks and at least one byte in memory.
  pub plain-IsDeserialize :
      {T : Type 0} (m : M R T) (size : ℕ) {Valid : T → Type 0} {enc : T → List ℕ}
      → size ≢ 0
      → ((x : T) → Valid x → Reads view m x (enc x))
      → IsDeserialize view (plain_de m size) Valid enc
  plain-IsDeserialize m size sized h = record {
    reads = h;
    vec_hook = inl (λ n s. refl);
    array_hook = inl (λ n s. refl);
    one_value = λ e. absurd (sized e);
  }

  pub uint_de-IsDeserialize :
      (w : ℕ) → w ≢ 0 → IsDeserialize view (uint_de w) (IsUint w) (encode_uint w)
  uint_de-IsDeserialize w h = plain-IsDeserialize _ w h (deserialize_uint-Reads w)

  pub int_de-IsDeserialize :
      (w : ℕ) → w ≢ 0 → IsDeserialize view (int_de w) (IsInt w) (encode_int w)
  int_de-IsDeserialize w h = plain-IsDeserialize _ w h (deserialize_int-Reads w)

  pub bool_de-IsDeserialize : IsDeserialize view bool_de (λ b. Unit {0}) encode_bool
  bool_de-IsDeserialize = plain-IsDeserialize _ 1 (omega arith) (λ b v. deserialize_bool-Reads b)

  pub unit_de-IsDeserialize : IsDeserialize view unit_de (λ u. Unit {0}) encode_unit
  unfolding deserialize_unit
  unit_de-IsDeserialize = record {
    reads = λ x v. Reads-pure tt;
    vec_hook = inl (λ n s. refl);
    array_hook = inl (λ n s. refl);
    one_value = λ e x y v v'. (refl, refl);
  }
