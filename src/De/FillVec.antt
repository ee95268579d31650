-- ===== src/De/FillVec.antt =====
-- borsh/src/de/mod.rs: the loop of `u8::vec_from_reader`, where the input is long enough.
use borsh_rs.Prelude.{
  ℕ, zero, suc, ◌+◌, ◌-◌, ◌≤◌, ◌<◌, min, ◌≡◌, refl, sym, ◌∙◌, List, [], ◌∷◌, ◌++◌, append-nil,
  append_assoc, some, ap, length, length-append, front-of, arith, le→leb, lt→ltb, le→ltb,
}
use mathlib.Core.Path.{subst}
use borsh_rs.Io.{Read, ok}
use borsh_rs.Io.Laws.{IsRead, Reads, ok-path}
use package.borsh_rs.De.{Target}
use package.borsh_rs.De.Bytes.{grown, first_allocation, fill_vec, vec_from_reader_u8}

-- Where the loop stands: `pos` bytes are in a vector of `vec_len`, of `len` that are asked for.
pub record InVec (t : Target) (len pos vec_len : ℕ) : Type 0 where
  pub some_room : 0 < vec_len
  pub inside : pos ≤ vec_len
  pub wanted : vec_len ≤ len
  pub addressable : len ≤ t.usize_max

-- Growth makes room for a byte, at least.
pub grown_room :
    (t : Target) (len pos vec_len : ℕ)
    → InVec t len pos vec_len
    → pos < len
    → (pos < grown t len pos vec_len) × (grown t len pos vec_len ≤ len)
grown_room t len pos vec_len h lt = ground arith

module _ {R : Type 0} ⦃rd : Read R⦄ (t : Target) where
  -- The loop's end.
  fill_vec_end :
      (fuel len vec_len : ℕ) (filled : List ℕ) (s : R)
      → InVec t len (length filled) vec_len
      → length filled ≡ len
      → fill_vec t (suc fuel) len vec_len filled s ≡ (ok filled, s)
  unfolding fill_vec
  fill_vec_end fuel len vec_len filled s h e =
      let no_room : vec_len - length filled ≡ 0 = omega arith in
      rw (le→ltb (length filled) len (omega arith), no_room, append-nil) refl

  -- A round that read something.
  fill_vec_round :
      (fuel len vec_len : ℕ) (filled : List ℕ) (s : R) (b : ℕ) (bs : List ℕ) (s₁ : R)
      → length filled < len
      → rd.read (grown t len (length filled) vec_len - length filled) s ≡ (ok (b ∷ bs), s₁)
      → fill_vec t (suc fuel) len vec_len filled s
        ≡ fill_vec t fuel len (grown t len (length filled) vec_len) (filled ++ (b ∷ bs)) s₁
  unfolding fill_vec
  fill_vec_round fuel len vec_len filled s b bs s₁ lt e = rw (lt→ltb (length filled) len lt, e) refl

  pub fill_vec_round' :
      (fuel len vec_len : ℕ) (filled : List ℕ) (s : R) (got : List ℕ) (s₁ : R)
      → length filled < len
      → 0 < length got
      → rd.read (grown t len (length filled) vec_len - length filled) s ≡ (ok got, s₁)
      → fill_vec t (suc fuel) len vec_len filled s
        ≡ fill_vec t fuel len (grown t len (length filled) vec_len) (filled ++ got) s₁
  fill_vec_round' fuel len vec_len filled s [] s₁ lt h e = absurd (omega arith)
  fill_vec_round' fuel len vec_len filled s (b ∷ bs) s₁ lt h e =
      fill_vec_round fuel len vec_len filled s b bs s₁ lt e

  module _ {view : R → List ℕ} (law : IsRead rd view) where
    -- The loop reads `bytes`, and leaves `rest`.
    abbrev Returns : ℕ → ℕ → ℕ → List ℕ → List ℕ → List ℕ → R → Type 0
    Returns fuel len vec_len filled bytes rest s =
        (s' : R) × (fill_vec t fuel len vec_len filled s ≡ (ok (filled ++ bytes), s'))
        × (view s' ≡ rest)

    one_round :
        (fuel len vec_len : ℕ) (filled bytes rest : List ℕ) (s : R)
        → InVec t len (length filled) vec_len
        → length filled + length bytes ≡ len
        → 0 < length bytes
        → view s ≡ bytes ++ rest
        → ((got more : List ℕ) (s₁ : R)
            → InVec t len (length (filled ++ got)) (grown t len (length filled) vec_len)
            → length (filled ++ got) + length more ≡ len
            → length more < length bytes
            → view s₁ ≡ more ++ rest
            → Returns fuel len (grown t len (length filled) vec_len) (filled ++ got) more rest s₁)
        → Returns (suc fuel) len vec_len filled bytes rest s
    one_round fuel len vec_len filled bytes rest s h e pos v next =
        let (room, top) = grown_room t len (length filled) vec_len h (omega arith) in
        let n : ℕ = grown t len (length filled) vec_len - length filled in
        let (got, s₁, eq, v₁, le, some_read) = law.read_part n s in
        let have : 0 < length got =
          some_read (omega arith) (omega (arith, ap length v, length-append bytes rest)) in
        let (more, p, q) = front-of got (view s₁) bytes rest (omega arith) (sym v₁ ∙ v) in
        let sizes : length bytes ≡ length got + length more =
          ap length p ∙ length-append got more in
        let (s₂, eq₂, v₂) =
          next got more s₁
            (record {
              some_room = omega arith;
              inside = omega (arith, length-append filled got);
              wanted = top;
              addressable = h.addressable;
            })
            (omega (arith, length-append filled got)) (omega arith) q in
        (
          s₂,
          fill_vec_round' fuel len vec_len filled s got s₁ (omega arith) have eq
              ∙ eq₂
              ∙ ok-path s₂ (append_assoc filled got more ∙ ap (λ z. filled ++ z) (sym p)),
          v₂,
        )

    -- With more fuel than bytes to come, the loop returns them.
    fill_vec-Returns :
        (fuel len vec_len : ℕ) (filled bytes rest : List ℕ) (s : R)
        → InVec t len (length filled) vec_len
        → length filled + length bytes ≡ len
        → length bytes < fuel
        → view s ≡ bytes ++ rest
        → Returns fuel len vec_len filled bytes rest s
    fill_vec-Returns zero len vec_len filled bytes rest s h e hf v = absurd (omega arith)
    fill_vec-Returns (suc fuel) len vec_len filled [] rest s h e hf v =
        (s, fill_vec_end fuel len vec_len filled s h (omega arith) ∙ rw append-nil refl, v)
    fill_vec-Returns (suc fuel) len vec_len filled (x ∷ xs) rest s h e hf v =
        one_round fuel len vec_len filled (x ∷ xs) rest s h e (omega arith) v
          λ got more s₁ h' e' shorter v'.
            fill_vec-Returns fuel len _ (filled ++ got) more rest s₁ h' e' (omega arith) v'

    -- The bytes that were asked for are read.
    pub vec_from_reader_u8-Reads :
        (bytes : List ℕ)
        → length bytes ≤ t.usize_max
        → Reads view (vec_from_reader_u8 t (length bytes)) (some bytes) bytes
    unfolding vec_from_reader_u8
    vec_from_reader_u8-Reads [] h = record {
      takes = λ s rest v. rw (le→leb 0 t.usize_max h) (unfold fill_vec in (s, refl, v));
    }
    vec_from_reader_u8-Reads (b ∷ bs) h = record {
      takes = λ s rest v.
          let n : ℕ = length (b ∷ bs) in
          let (s', e, v') =
            fill_vec-Returns (suc n) n (min n first_allocation) [] (b ∷ bs) rest s
              (record {
                some_room = omega arith;
                inside = omega arith;
                wanted = omega arith;
                addressable = h;
              })
              (omega arith) (omega arith) v in
          (s', rw (le→leb n t.usize_max h, e) refl, v');
    }

    -- If `len` fits a `usize`, `u8::vec_from_reader` returns the next `len` bytes of an
    -- input that has them, however few a reader that keeps its contract hands out at once.
    pub vec_from_reader_u8-returns :
        (len : ℕ) (bytes rest : List ℕ) (s : R)
        → len ≤ t.usize_max
        → length bytes ≡ len
        → view s ≡ bytes ++ rest
        → (s' : R) × (vec_from_reader_u8 t len s ≡ (ok (some bytes), s')) × (view s' ≡ rest)
    vec_from_reader_u8-returns len bytes rest s fits e v =
        subst
          (λ k. (s' : R) × (vec_from_reader_u8 t k s ≡ (ok (some bytes), s')) × (view s' ≡ rest)) e
          ((vec_from_reader_u8-Reads bytes (omega arith)).takes s rest v)
