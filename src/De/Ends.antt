-- ===== src/De/Ends.antt =====
-- borsh/src/de/mod.rs: where the loop of `u8::vec_from_reader` ends.
use borsh_rs.Prelude.{
  ℕ, zero, suc, ◌+◌, ◌-◌, ◌≤◌, ◌<◌, min, ◌≡◌, refl, ap, ◌∙◌, List, [], ◌∷◌, ◌++◌, some, length,
  length-append, arith, lt→ltb, le→leb, Option, none,
}
use borsh_rs.Io.{Read, Result, ok, err, panicked, out_of_fuel, custom, invalid_input}
use borsh_rs.Io.Laws.{IsRead}
use package.borsh_rs.De.{Target, unexpected_length_of_input}
use package.borsh_rs.De.Bytes.{grown, first_allocation, fill_vec, vec_from_reader_u8}
use package.borsh_rs.De.FillVec.{InVec, grown_room, fill_vec_round'}

module _ {R : Type 0} ⦃rd : Read R⦄ (t : Target) where
  -- A `read` that returns, and reports no more than its buffer holds.
  abbrev pub Answers : ℕ → Result (List ℕ) × R → Type 0
  Answers n (ok got, s) = length got ≤ n
  Answers n (err e, s) = Unit
  Answers n (panicked, s) = ⊥
  Answers n (out_of_fuel, s) = ⊥

  -- As many bytes as asked for, or an error.
  abbrev Filled : ℕ → Result (List ℕ) × R → Type 0
  Filled len (ok vec, s) = length vec ≡ len
  Filled len (err e, s) = Unit
  Filled len (panicked, s) = ⊥
  Filled len (out_of_fuel, s) = ⊥

  abbrev pub Settled : ℕ → Result (Option (List ℕ)) × R → Type 0
  Settled len (ok none, s) = ⊥
  Settled len (ok (some vec), s) = length vec ≡ len
  Settled len (err e, s) = Unit
  Settled len (panicked, s) = ⊥
  Settled len (out_of_fuel, s) = ⊥

  module _ {view : R → List ℕ} (law : IsRead rd view) where
    -- The loop answers that the input is too short.
    abbrev Fails : ℕ → ℕ → ℕ → List ℕ → R → Type 0
    Fails fuel len vec_len filled s =
        (s' : R) × (fill_vec t fuel len vec_len filled s
          ≡ (err (custom invalid_input unexpected_length_of_input), s'))

    fill_vec_eof :
        (fuel len vec_len : ℕ) (filled : List ℕ) (s s₁ : R)
        → length filled < len
        → rd.read (grown t len (length filled) vec_len - length filled) s ≡ (ok [], s₁)
        → Fails (suc fuel) len vec_len filled s
    unfolding fill_vec
    fill_vec_eof fuel len vec_len filled s s₁ lt e =
        (s₁, rw (lt→ltb (length filled) len lt, e) refl)

    short_round :
        (fuel len vec_len : ℕ) (filled : List ℕ) (s : R)
        → InVec t len (length filled) vec_len
        → length filled + length (view s) < len
        → ((b : ℕ) (bs : List ℕ) (s₁ : R)
            → InVec t len (length (filled ++ (b ∷ bs))) (grown t len (length filled) vec_len)
            → length (filled ++ (b ∷ bs)) + length (view s₁) < len
            → length (view s₁) < length (view s)
            → Fails fuel len (grown t len (length filled) vec_len) (filled ++ (b ∷ bs)) s₁)
        → Fails (suc fuel) len vec_len filled s
    short_round fuel len vec_len filled s h short next =
        go (law.read_part (grown t len (length filled) vec_len - length filled) s)
      where
        go :
            (got : List ℕ) × (s₁ : R) × (rd.read
                  (grown t len (length filled) vec_len - length filled)
                  s
                ≡ (ok got, s₁))
              × (view s ≡ got ++ view s₁)
              × (length got ≤ grown t len (length filled) vec_len - length filled)
              × (0 < grown t len (length filled) vec_len - length filled
                  → 0 < length (view s)
                  → 0 < length got)
            → Fails (suc fuel) len vec_len filled s
        go ([], s₁, e, v, le, some_read) = fill_vec_eof fuel len vec_len filled s s₁ (omega arith) e
        go (b ∷ bs, s₁, e, v, le, some_read) =
            let (room, top) = grown_room t len (length filled) vec_len h (omega arith) in
            let sizes = ap length v ∙ length-append (b ∷ bs) (view s₁) in
            let (s₂, eq) =
              next b bs s₁
                (record {
                  some_room = omega arith;
                  inside = omega (arith, length-append filled (b ∷ bs));
                  wanted = top;
                  addressable = h.addressable;
                })
                (omega (arith, length-append filled (b ∷ bs))) (omega arith) in
            (
              s₂,
              fill_vec_round' t fuel len vec_len filled s (b ∷ bs) s₁ (omega arith) (omega arith) e
                  ∙ eq,
            )

    fill_vec-Fails :
        (fuel len vec_len : ℕ) (filled : List ℕ) (s : R)
        → InVec t len (length filled) vec_len
        → length filled + length (view s) < len
        → length (view s) < fuel
        → Fails fuel len vec_len filled s
    fill_vec-Fails zero len vec_len filled s h short hf = absurd (omega arith)
    fill_vec-Fails (suc fuel) len vec_len filled s h short hf =
        short_round fuel len vec_len filled s h short λ b bs s₁ h' short' less.
          fill_vec-Fails fuel len (grown t len (length filled) vec_len) (filled ++ (b ∷ bs)) s₁ h'
            short' (omega arith)

    -- If `len` fits a `usize`, `u8::vec_from_reader` refuses an input with fewer than `len`
    -- bytes with `Unexpected length of input`, over any reader that keeps its contract.
    pub vec_from_reader_u8-short :
        (len : ℕ) (s : R)
        → len ≤ t.usize_max
        → length (view s) < len
        → (s' : R) × (vec_from_reader_u8 t len s
            ≡ (err (custom invalid_input unexpected_length_of_input), s'))
    unfolding vec_from_reader_u8
    vec_from_reader_u8-short len s fits short =
        let (s', e) =
          fill_vec-Fails (suc len) len (min len first_allocation) [] s
            (record {
              some_room = omega arith;
              inside = omega arith;
              wanted = omega arith;
              addressable = fits;
            })
            (omega arith) (omega arith) in
        (s', rw (le→leb len t.usize_max fits, e) refl)
