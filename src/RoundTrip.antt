-- ===== src/RoundTrip.antt =====
-- borsh/src/ser/mod.rs and borsh/src/de/mod.rs together: a value that is serialized to a vector is
-- what `try_from_slice` and `try_from_reader` give back.
pub mod Wrappers
use borsh_rs.Prelude.{
  ℕ, ◌≡◌, ◌≢◌, ◌↔◌, refl, sym, ap, ◌∙◌, All, List, [], ◌∷◌, ◌++◌, append-nil, length, arith,
}
use borsh_rs.Io.{Read, Result, ok, err, panicked, out_of_fuel, custom, invalid_data}
use borsh_rs.Io.Slice.{Slice, slice_read, vec_write, write_all_vec}
use borsh_rs.Io.Laws.{IsByte, IsRead, Sound, pure-ok}
use borsh_rs.Ser.{BorshSerialize, try_to_vec}
use borsh_rs.Ser.Laws.{IsSerialize}
use borsh_rs.De.{BorshDeserialize, try_from_slice, try_from_reader, all_read, not_all_bytes_read}
use borsh_rs.De.Laws.{IsDeserialize}

module _ {T : Type 0} (s : BorshSerialize (List ℕ) T) {Valid : T → Type 0} {enc : T → List ℕ}
    (hs : IsSerialize vec_write s Valid enc) where
  -- `try_to_vec` of a valid value is its encoding.
  pub try_to_vec-encode : (x : T) → Valid x → try_to_vec s x ≡ ok (enc x)
  unfolding try_to_vec write_all_vec
  try_to_vec-encode x v = rw ((hs.emits x v).writes []) refl

  module _ (d : BorshDeserialize Slice T) (hd : IsDeserialize (λ b. b) d Valid enc) where
    -- For implementations that write and read the same encoding, `try_to_vec` of a valid
    -- value succeeds, and `try_from_slice` gives the value back from the bytes.
    pub try_from_slice-try_to_vec :
        (x : T)
        → Valid x
        → (bytes : List ℕ) × (try_to_vec s x ≡ ok bytes) × (try_from_slice d bytes ≡ ok x)
    unfolding try_from_slice
    try_from_slice-try_to_vec x v =
        let (rest, e, nothing) = (hd.reads x v).takes (enc x) [] (sym (append-nil (enc x))) in
        (enc x, try_to_vec-encode x v, rw (e, nothing) refl)

    -- For an implementation that reads a valid value from its encoding, `try_from_slice`
    -- refuses the encoding with anything behind it.
    pub try_from_slice-trailing :
        (x : T) (b : ℕ) (more : List ℕ)
        → Valid x
        → try_from_slice d (enc x ++ (b ∷ more)) ≡ err (custom invalid_data not_all_bytes_read)
    unfolding try_from_slice
    try_from_slice-trailing x b more v =
        let (rest, e, left) = (hd.reads x v).takes (enc x ++ (b ∷ more)) (b ∷ more) refl in
        rw (e, left) refl

module _ {T : Type 0} (d : BorshDeserialize Slice T) {Valid : T → Type 0} {enc : T → List ℕ}
    (hd : IsDeserialize (λ b. b) d Valid enc)
    (sound : Sound (λ b. b) d.deserialize_reader Valid enc) where
  all_read-ok : (r : Result T × Slice) {x : T} → all_read r ≡ ok x → r ≡ (ok x, [])
  all_read-ok (ok y, []) h = cc
  all_read-ok (ok y, b ∷ bs) h = cc
  all_read-ok (err e, v) h = cc
  all_read-ok (panicked, v) h = cc
  all_read-ok (out_of_fuel, v) h = cc

  -- For an implementation that reads each valid value from its encoding and accepts nothing
  -- else, `try_from_slice` accepts a byte string exactly if it is the encoding of a valid
  -- value, and that value is the answer.
  pub try_from_slice-ok_iff :
      (bytes : List ℕ) (x : T)
      → All IsByte bytes
      → (try_from_slice d bytes ≡ ok x) ↔ ((bytes ≡ enc x) × Valid x)
  unfolding try_from_slice
  try_from_slice-ok_iff bytes x good = (
    λ h.
        let (v, valid) =
          sound.consumed bytes x [] good (all_read-ok (d.deserialize_reader bytes) h) in
        (v ∙ append-nil (enc x), valid),
    λ (e, valid).
        let (rest, eq, nothing) =
          (hd.reads x valid).takes bytes [] (e ∙ sym (append-nil (enc x))) in
        rw (eq, nothing) refl,
  )

  -- For an implementation that reads each valid value from its encoding and accepts nothing
  -- else, `try_from_slice` accepts no proper front of an encoding of a valid value.
  pub try_from_slice-truncated :
      (x y : T) (front : List ℕ) (b : ℕ) (back : List ℕ)
      → Valid x
      → All IsByte front
      → enc x ≡ front ++ (b ∷ back)
      → try_from_slice d front ≢ ok y
  try_from_slice-truncated x y front b back valid good cut h =
      let (same, valid') = (try_from_slice-ok_iff front y good).0 h in
      let (r₁, e₁, v₁) = (hd.reads x valid).takes (enc x) [] (sym (append-nil (enc x))) in
      let (r₂, e₂, v₂) =
        (hd.reads y valid').takes (enc x) (b ∷ back) (cut ∙ ap (λ z. z ++ (b ∷ back)) same) in
      let (p, q) = pure-ok (sym e₁ ∙ e₂) in cc

module _ {R : Type 0} ⦃rd : Read R⦄ {view : R → List ℕ} (law : IsRead rd view) {T : Type 0}
    {d : BorshDeserialize R T} {Valid : T → Type 0} {enc : T → List ℕ}
    (hd : IsDeserialize view d Valid enc) where
  -- Over any reader that keeps its contract and for an implementation that reads a valid
  -- value from its encoding, `try_from_reader` gives the value if the input is its encoding
  -- and nothing else.
  pub try_from_reader-encode :
      (x : T) (s : R) → Valid x → view s ≡ enc x → (s' : R) × (try_from_reader d s ≡ (ok x, s'))
  unfolding try_from_reader
  try_from_reader-encode x s valid v =
      let (s₁, e, left) = (hd.reads x valid).takes s [] (v ∙ sym (append-nil (enc x))) in
      let (f, s₂, eof, k) = law.read_exact_short 1 s₁ (omega (arith, ap length left)) in
      (s₂, rw (e, eof, k) refl)

  -- Over any reader that keeps its contract and for an implementation that reads a valid
  -- value from its encoding, `try_from_reader` refuses an input that holds more than the
  -- encoding.
  pub try_from_reader-trailing :
      (x : T) (s : R) (b : ℕ) (more : List ℕ)
      → Valid x
      → view s ≡ enc x ++ (b ∷ more)
      → (s' : R) × (try_from_reader d s ≡ (err (custom invalid_data not_all_bytes_read), s'))
  unfolding try_from_reader
  try_from_reader-trailing x s b more valid v =
      let (s₁, e, left) = (hd.reads x valid).takes s (b ∷ more) v in
      let (got, s₂, some_byte, rest, len) =
        law.read_exact_full 1 s₁ (omega (arith, ap length left)) in
      (s₂, rw (e, some_byte) refl)
