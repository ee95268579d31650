-- ===== src/De/SoundInts.antt =====
-- borsh/src/de/mod.rs: signed integers, and those of the machine's width, are read from their
-- encodings only.
use borsh_rs.Prelude.{
  ℕ, suc, ◌*◌, ◌^◌, ◌<◌, ◌≡◌, refl, ap, Bool, true, false, List, arith, if◌then◌else◌,
}
use mathlib.Core.Path.{subst}
use native.Mathlib.Nat.{pow-succ'}
use borsh_rs.Num.{from_le_bytes, to_signed, to_unsigned-to_signed, to_signed-IsSigned, to_le_bytes}
use borsh_rs.Io.{Read, Error, ok, pure, fail}
use borsh_rs.Io.Laws.{IsRead, Sound, bind-ok, pure-ok}
use borsh_rs.Encoding.{encode_uint, encode_int, IsUint, IsInt}
use package.borsh_rs.De.{Target, read_exact_or}
use package.borsh_rs.De.Laws.{not_ok}
use package.borsh_rs.De.Sound.{number-Sound, deserialize_uint-Sound}
use package.borsh_rs.De.SoundCompose.{map-Sound}
use package.borsh_rs.De.Primitives.{
  deserialize_uint, deserialize_int, deserialize_usize, deserialize_isize, fits_usize, fits_isize,
}

half : (w u : ℕ) → u < 256 ^ suc w → IsInt (suc w) (to_signed (256 ^ suc w) u)
half w u h =
    let e : 256 ^ suc w ≡ 2 * (128 * 256 ^ w) = rw pow-succ' (omega arith) in
    rw e (to_signed-IsSigned (128 * 256 ^ w) u (subst (λ m. u < m) e h))

module _ {R : Type 0} ⦃rd : Read R⦄ {view : R → List ℕ} (law : IsRead rd view) where
  pub deserialize_int-Sound :
      (w : ℕ) → Sound view (deserialize_int (suc w)) (IsInt (suc w)) (encode_int (suc w))
  unfolding deserialize_int
  deserialize_int-Sound w =
      map-Sound law (read_exact_or (suc w)) (λ bs. to_signed (256 ^ suc w) (from_le_bytes bs))
        (IsInt (suc w)) (encode_int (suc w)) (number-Sound law (suc w))
        (λ bs h.
          (ap (to_le_bytes (suc w)) (to_unsigned-to_signed _ _ h), half w (from_le_bytes bs) h))

  -- A test of the value behind a call.
  fits-ok :
      {A : Type 0} (b : Bool) (x : Error) (n : A) {a : A} {s₁ s' : R}
      → (if b then pure n else fail x) s₁ ≡ (ok a, s')
      → (b ≡ true) × (n ≡ a) × (s₁ ≡ s')
  fits-ok true x n h = let (p, q) = pure-ok h in (refl, p, q)
  fits-ok false x n h = absurd (not_ok h)

  pub deserialize_usize-Sound :
      (t : Target)
      → Sound view (deserialize_usize t) (λ u. IsUint 8 u × (fits_usize t u ≡ true)) (encode_uint 8)
  unfolding deserialize_usize
  deserialize_usize-Sound t = record {
    consumed = λ s a s' bytes h.
        let (u, s₁, e, k) = bind-ok (deserialize_uint 8) _ s h in
        let (v, good) = (deserialize_uint-Sound law 8).consumed s u s₁ bytes e in
        let (fits, p, q) = fits-ok (fits_usize t u) _ u k in
        let r : view s₁ ≡ view s' = ap view q in
        (
          cc (ap (encode_uint 8) p),
          subst (λ z. IsUint 8 z × (fits_usize t z ≡ true)) p (good, fits),
        );
  }

  pub deserialize_isize-Sound :
      (t : Target)
      → Sound view (deserialize_isize t) (λ z. IsInt 8 z × (fits_isize t z ≡ true)) (encode_int 8)
  unfolding deserialize_isize
  deserialize_isize-Sound t = record {
    consumed = λ s a s' bytes h.
        let (z, s₁, e, k) = bind-ok (deserialize_int 8) _ s h in
        let (v, good) = (deserialize_int-Sound 7).consumed s z s₁ bytes e in
        let (fits, p, q) = fits-ok (fits_isize t z) _ z k in
        let r : view s₁ ≡ view s' = ap view q in
        (cc (ap (encode_int 8) p), subst (λ z. IsInt 8 z × (fits_isize t z ≡ true)) p (good, fits));
  }
