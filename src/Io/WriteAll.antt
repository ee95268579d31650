-- ===== src/Io/WriteAll.antt =====
-- borsh/src/nostd_io.rs: over a writer that keeps the contract of `write`, the provided `write_all`
-- writes the whole buffer, and its loop ends.
use borsh_rs.Prelude.{
  ℕ, zero, suc, ◌≤◌, ◌<◌, ◌≡◌, refl, sym, ap, ◌∙◌, List, [], ◌∷◌, ◌++◌, append_assoc, append-nil,
  arith, length, take, drop, length-drop, take-append-drop, le→ltb,
}
use borsh_rs.Io.{M, ok}
use borsh_rs.Io.Defaults.{default_write_all}

module _ {W : Type 0} (write : List ℕ → M W ℕ) (sink : W → List ℕ) where
  -- The contract of `write` of a writer that never fails: it takes a front part of the buffer, and
  -- a byte at least. `sink` is what the writer holds.
  abbrev pub WritePart : Type 0
  WritePart =
      (buf : List ℕ) (w : W)
      → 0 < length buf
      → (n : ℕ) × (w' : W) × (write buf w ≡ (ok n, w'))
        × (0 < n)
        × (n ≤ length buf)
        × (sink w' ≡ sink w ++ take n buf)

  abbrev Writes : ℕ → List ℕ → W → Type 0
  Writes fuel buf w =
      (w' : W) × (default_write_all write fuel buf w ≡ (ok tt, w')) × (sink w' ≡ sink w ++ buf)

  one_write :
      (fuel : ℕ) (b : ℕ) (bs : List ℕ) (w : W)
      → (n : ℕ) × (w' : W) × (write (b ∷ bs) w ≡ (ok n, w'))
        × (0 < n)
        × (n ≤ length (b ∷ bs))
        × (sink w' ≡ sink w ++ take n (b ∷ bs))
      → ((n : ℕ) (w' : W) → Writes fuel (drop n bs) w')
      → Writes (suc fuel) (b ∷ bs) w
  unfolding default_write_all
  one_write fuel b bs w (zero, w', e, pos, le, s) next = absurd (omega arith)
  one_write fuel b bs w (suc n, w', e, pos, le, s) next =
      let (w₂, e₂, s₂) = next n w' in
      (
        w₂,
        rw (e, le→ltb (length (b ∷ bs)) (suc n) le) e₂,
        s₂
            ∙ ap (λ z. z ++ drop n bs) s
            ∙ append_assoc (sink w) (take (suc n) (b ∷ bs)) (drop n bs)
            ∙ ap (λ z. sink w ++ z) (take-append-drop (suc n) (b ∷ bs)),
      )

  -- If each `write` takes a byte at least of a buffer that is not empty, `write_all` writes
  -- the whole buffer behind what was written before. A round for each byte is enough.
  pub default_write_all-writes :
      (fuel : ℕ) (buf : List ℕ) (w : W)
      → WritePart
      → length buf ≤ fuel
      → (w' : W) × (default_write_all write fuel buf w ≡ (ok tt, w')) × (sink w' ≡ sink w ++ buf)
  default_write_all-writes fuel [] w part h =
      (w, unfold default_write_all in refl, sym (append-nil (sink w)))
  default_write_all-writes zero (b ∷ bs) w part h = absurd (omega arith)
  default_write_all-writes (suc fuel) (b ∷ bs) w part h =
      one_write fuel b bs w (part (b ∷ bs) w (omega arith))
        λ n w'. default_write_all-writes fuel (drop n bs) w' part (omega (arith, length-drop n bs))
