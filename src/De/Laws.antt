-- ===== src/De/Laws.antt =====
-- borsh/src/de/mod.rs: what an implementation of `BorshDeserialize` promises, and the
-- calls of `read_exact` over any reader that keeps its contract.
use borsh_rs.Prelude.{
  ℕ, ◌<◌, ◌^◌, ◌≡◌, refl, sym, ◌∙◌, ◌⊎◌, inl, inr, List, [], ◌∷◌, ◌++◌, Option, none, some,
  concat_map, All, length, length-append, arith, Bool-cases, leb, leb→le, leb→gt,
}
use mathlib.Core.Path.{subst}
use borsh_rs.Num.{to_le_bytes, length-to_le_bytes}
use borsh_rs.Io.{M, Read, Result, ok, err, custom, invalid_input, Error}
use borsh_rs.Io.Laws.{IsRead, Reads, pure-ok}
use package.borsh_rs.De.{BorshDeserialize, read_exact_or, unexpected_length_of_input}

-- What a hook does: it answers `none` and reads nothing, or it reads a whole sequence
-- of an allowed length.
abbrev pub IsHook :
    {R T : Type 0}
    → (R → List ℕ)
    → (ℕ → Type 0)
    → (T → Type 0)
    → (T → List ℕ)
    → (ℕ → M R (Option (List T)))
    → Type 0
IsHook {R} view Allowed Valid enc hook =
    ((n : ℕ) (s : R) → hook n s ≡ (ok none, s))
    ⊎ ((xs : List _)
        → Allowed (length xs)
        → All Valid xs
        → Reads view (hook (length xs)) (some xs) (concat_map enc xs))

-- `deserialize_reader` reads the encoding of each valid value, and so do the hooks for sequences.
-- A type of size 0 has one valid value, and no bytes.
pub record IsDeserialize {R T : Type 0} (view : R → List ℕ) (d : BorshDeserialize R T)
    (Valid : T → Type 0) (enc : T → List ℕ) : Type 0 where
  pub reads : (x : T) → Valid x → Reads view d.deserialize_reader x (enc x)
  pub vec_hook : IsHook view (λ n. n < 2 ^ 32) Valid enc d.vec_from_reader
  pub array_hook : IsHook view (λ n. Unit) Valid enc d.array_from_reader
  pub one_value : d.size_of ≡ 0 → (x y : T) → Valid x → Valid y → (enc x ≡ []) × (x ≡ y)

pub not_ok :
    {A S : Type 0} {e : Error} {s s' : S} {a : A} → ¬ (◌≡◌ {A = Result A × S} (err e, s) (ok a, s'))
not_ok h = cc

module _ {R : Type 0} ⦃rd : Read R⦄ {view : R → List ℕ} (law : IsRead rd view) where
  -- `read_exact` reads any bytes of the right number.
  pub read_exact_or-Reads : (bytes : List ℕ) → Reads view (read_exact_or (length bytes)) bytes bytes
  unfolding read_exact_or
  read_exact_or-Reads bytes = record {
    takes = λ s rest h.
        let (got, s', e, v, len) =
          law.read_exact_full (length bytes) s (rw h (omega (arith, length-append bytes rest))) in
        let (same, left) = split got bytes (view s') rest len (sym v ∙ h) in
        (s', rw (e, same) refl, left);
  }
    where
      split :
          (xs ys us vs : List ℕ)
          → length xs ≡ length ys
          → xs ++ us ≡ ys ++ vs
          → (xs ≡ ys) × (us ≡ vs)
      split [] [] us vs h e = (refl, e)
      split [] (y ∷ ys) us vs h e = absurd (omega arith)
      split (x ∷ xs) [] us vs h e = absurd (omega arith)
      split (x ∷ xs) (y ∷ ys) us vs h e =
          let (p, q) = split xs ys us vs (omega arith) (cc) in (cc, q)

  pub read_exact_or-IsError :
      (n : ℕ) (s : R)
      → length (view s) < n
      → (s' : R) × (read_exact_or n s ≡ (err (custom invalid_input unexpected_length_of_input), s'))
  unfolding read_exact_or
  read_exact_or-IsError n s h =
      let (e, s', eq, k) = law.read_exact_short n s h in (s', rw eq (rw k refl))

  -- A successful `read_exact` has taken the bytes off the input.
  pub read_exact_or-ok :
      (n : ℕ) (s : R) {bytes : List ℕ} {s' : R}
      → read_exact_or n s ≡ (ok bytes, s')
      → (view s ≡ bytes ++ view s') × (length bytes ≡ n)
  unfolding read_exact_or
  read_exact_or-ok n s {bytes} {s'} h = elim (Bool-cases (leb n (length (view s)))) [
    | inl e ↦
        let (got, s₁, eq, v, len) = law.read_exact_full n s (leb→le _ _ e) in
        let (p, q) = pure-ok (rw eq at h) in rw (← p, ← q) (v, len)
    | inr e ↦
        let (x, s₁, eq, k) = law.read_exact_short n s (leb→gt _ _ e) in absurd (not_ok (rw eq at h))
  ]

  pub le_bytes-Reads : (w v : ℕ) → Reads view (read_exact_or w) (to_le_bytes w v) (to_le_bytes w v)
  le_bytes-Reads w v =
      subst (λ n. Reads view (read_exact_or n) (to_le_bytes w v) (to_le_bytes w v))
        (length-to_le_bytes w v) (read_exact_or-Reads (to_le_bytes w v))
