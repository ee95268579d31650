-- ===== src/Io/ReadExact.antt =====
-- borsh/src/nostd_io.rs: over a reader that keeps the contract of `read`, `default_read_exact` keeps
-- that of `read_exact`, and its loop ends.
use borsh_rs.Prelude.{
  ℕ, zero, suc, ◌-◌, ◌≤◌, ◌<◌, ◌≡◌, refl, sym, ap, ◌∙◌, List, [], ◌∷◌, ◌++◌, append_assoc,
  append-nil, arith, length, length-append, le→ltb,
}
use borsh_rs.Io.{M, Read, ok, err, Error, kind, custom, unexpected_eof}
use borsh_rs.Io.Laws.{IsRead}
use borsh_rs.Io.Defaults.{default_read_exact}

module _ {R : Type 0} (read : ℕ → M R (List ℕ)) (view : R → List ℕ) where
  -- The contract of `read` alone.
  abbrev pub ReadPart : Type 0
  ReadPart =
      (n : ℕ) (s : R)
      → (bytes : List ℕ) × (s' : R) × (read n s ≡ (ok bytes, s'))
        × (view s ≡ bytes ++ view s')
        × (length bytes ≤ n)
        × (0 < n → 0 < length (view s) → 0 < length bytes)

  -- The loop, with `got` filled and `n` bytes to fill, has filled the buffer from the input.
  abbrev Fills : ℕ → ℕ → List ℕ → R → Type 0
  Fills fuel n got s =
      (bytes : List ℕ) × (s' : R) × (default_read_exact read fuel n got s ≡ (ok (got ++ bytes), s'))
      × (view s ≡ bytes ++ view s')
      × (length bytes ≡ n)

  -- The input ended before.
  abbrev Ends : ℕ → ℕ → List ℕ → R → Type 0
  Ends fuel n got s =
      (e : Error) × (s' : R) × (default_read_exact read fuel n got s ≡ (err e, s'))
      × (kind e ≡ unexpected_eof)

  -- One round that read something.
  round :
      (fuel n : ℕ) (got : List ℕ) (s : R) (b : ℕ) (bs : List ℕ) (s₁ : R)
      → read (suc n) s ≡ (ok (b ∷ bs), s₁)
      → length (b ∷ bs) ≤ suc n
      → default_read_exact read (suc fuel) (suc n) got s
        ≡ default_read_exact read fuel (suc n - length (b ∷ bs)) (got ++ (b ∷ bs)) s₁
  unfolding default_read_exact
  round fuel n got s b bs s₁ e le = rw (e, le→ltb (suc n) (length (b ∷ bs)) le) refl

  full_round :
      (fuel n : ℕ) (got : List ℕ) (s : R)
      → n < length (view s)
      → (bytes : List ℕ) × (s₁ : R) × (read (suc n) s ≡ (ok bytes, s₁))
        × (view s ≡ bytes ++ view s₁)
        × (length bytes ≤ suc n)
        × (0 < suc n → 0 < length (view s) → 0 < length bytes)
      → ((bytes : List ℕ) (s₁ : R)
          → view s ≡ bytes ++ view s₁
          → 0 < length bytes
          → length bytes ≤ suc n
          → Fills fuel (suc n - length bytes) (got ++ bytes) s₁)
      → Fills (suc fuel) (suc n) got s
  full_round fuel n got s h ([], s₁, e, v, le, more) next =
      absurd (omega (arith, more (omega arith) (omega arith)))
  full_round fuel n got s h (b ∷ bs, s₁, e, v, le, more) next =
      let (bytes, s₂, e₂, v₂, len₂) = next (b ∷ bs) s₁ v (omega arith) le in
      (
        (b ∷ bs) ++ bytes,
        s₂,
        round fuel n got s b bs s₁ e le ∙ e₂ ∙ rw (append_assoc got (b ∷ bs) bytes),
        v ∙ rw v₂ (sym (append_assoc (b ∷ bs) bytes (view s₂))),
        omega (arith, length-append (b ∷ bs) bytes),
      )

  full_loop :
      ReadPart
      → (fuel n : ℕ) (got : List ℕ) (s : R) → n ≤ fuel
      → n ≤ length (view s)
      → Fills fuel n got s
  full_loop part fuel zero got s hf h =
      ([], s, unfold default_read_exact in rw append-nil, refl, refl)
  full_loop part zero (suc n) got s hf h = absurd (omega arith)
  full_loop part (suc fuel) (suc n) got s hf h =
      full_round fuel n got s (omega arith) (part (suc n) s) λ bytes s₁ v pos le.
        full_loop part fuel (suc n - length bytes) (got ++ bytes) s₁ (omega arith)
          (omega (arith, ap length v, length-append bytes (view s₁)))

  short_round :
      (fuel n : ℕ) (got : List ℕ) (s : R)
      → length (view s) < suc n
      → (bytes : List ℕ) × (s₁ : R) × (read (suc n) s ≡ (ok bytes, s₁))
        × (view s ≡ bytes ++ view s₁)
        × (length bytes ≤ suc n)
        × (0 < suc n → 0 < length (view s) → 0 < length bytes)
      → ((bytes : List ℕ) (s₁ : R)
          → view s ≡ bytes ++ view s₁
          → 0 < length bytes
          → length bytes ≤ suc n
          → Ends fuel (suc n - length bytes) (got ++ bytes) s₁)
      → Ends (suc fuel) (suc n) got s
  short_round fuel n got s h ([], s₁, e, v, le, more) next = (
    custom unexpected_eof "failed to fill whole buffer",
    s₁,
    unfold default_read_exact in rw e refl,
    refl,
  )
  short_round fuel n got s h (b ∷ bs, s₁, e, v, le, more) next =
      let (x, s₂, e₂, k) = next (b ∷ bs) s₁ v (omega arith) le in
      (x, s₂, round fuel n got s b bs s₁ e le ∙ e₂, k)

  short_loop :
      ReadPart
      → (fuel n : ℕ) (got : List ℕ) (s : R) → n ≤ fuel
      → length (view s) < n
      → Ends fuel n got s
  short_loop part fuel zero got s hf h = absurd (omega arith)
  short_loop part zero (suc n) got s hf h = absurd (omega arith)
  short_loop part (suc fuel) (suc n) got s hf h =
      short_round fuel n got s h (part (suc n) s) λ bytes s₁ v pos le.
        short_loop part fuel (suc n - length bytes) (got ++ bytes) s₁ (omega arith)
          (omega (arith, ap length v, length-append bytes (view s₁)))

  -- If `read` keeps its contract, `default_read_exact` fills a buffer of `n` bytes with the
  -- next `n` of an input that has them. A round for each byte is enough.
  pub default_read_exact-full :
      (n : ℕ) (s : R)
      → ReadPart
      → n ≤ length (view s)
      → (bytes : List ℕ) × (s' : R) × (default_read_exact read n n [] s ≡ (ok bytes, s'))
        × (view s ≡ bytes ++ view s')
        × (length bytes ≡ n)
  default_read_exact-full n s part h = full_loop part n n [] s (omega arith) h

  -- If `read` keeps its contract, `default_read_exact` answers `UnexpectedEof` on an input
  -- with fewer than `n` bytes.
  pub default_read_exact-short :
      (n : ℕ) (s : R)
      → ReadPart
      → length (view s) < n
      → (e : Error) × (s' : R) × (default_read_exact read n n [] s ≡ (err e, s'))
        × (kind e ≡ unexpected_eof)
  default_read_exact-short n s part h = short_loop part n n [] s (omega arith) h

  -- The reader that takes `read_exact` from the trait.
  abbrev pub provided_read : Read R
  provided_read = record { read = read; read_exact = λ n. default_read_exact read n n [] }

  -- It keeps the contract of a reader.
  pub provided_read-IsRead : ReadPart → IsRead provided_read view
  provided_read-IsRead part = record {
    read_part = part;
    read_exact_full = λ n s h. default_read_exact-full n s part h;
    read_exact_short = λ n s h. default_read_exact-short n s part h;
  }
