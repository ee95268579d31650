-- ===== src/Num/Bytes.antt =====
-- `to_le_bytes` and `from_le_bytes` of an unsigned integer of `w` bytes.
use borsh_rs.Prelude.{
  ℕ, zero, suc, ◌+◌, ◌*◌, ◌/◌, ◌%◌, ◌^◌, ◌<◌, ◌≡◌, refl, ap, List, [], ◌∷◌, arith, length, All,
}
use native.Mathlib.Nat.{pow-succ'}

abbrev IsByte : ℕ → Type 0
IsByte b = b < 256

unfoldable pub to_le_bytes : ℕ → ℕ → List ℕ
to_le_bytes zero v = []
to_le_bytes (suc w) v = v % 256 ∷ to_le_bytes w (v / 256)

unfoldable pub from_le_bytes : List ℕ → ℕ
from_le_bytes [] = 0
from_le_bytes (b ∷ bs) = b + 256 * from_le_bytes bs

pub length-to_le_bytes : (w v : ℕ) → length (to_le_bytes w v) ≡ w
unfolding to_le_bytes
length-to_le_bytes zero v = refl
length-to_le_bytes (suc w) v = ap suc (length-to_le_bytes w (v / 256))

pub from_le_bytes-to_le_bytes : (w v : ℕ) → v < 256 ^ w → from_le_bytes (to_le_bytes w v) ≡ v
unfolding to_le_bytes from_le_bytes
from_le_bytes-to_le_bytes zero v h = omega arith
from_le_bytes-to_le_bytes (suc w) v h =
    let h' : v < 256 * 256 ^ w = rw pow-succ' at h in
    omega (arith, from_le_bytes-to_le_bytes w (v / 256) (omega arith))

pub to_le_bytes-from_le_bytes :
    (bs : List ℕ) → All IsByte bs → to_le_bytes (length bs) (from_le_bytes bs) ≡ bs
unfolding to_le_bytes from_le_bytes
to_le_bytes-from_le_bytes [] h = refl
to_le_bytes-from_le_bytes (b ∷ bs) h =
    ground
      (arith, to_le_bytes-from_le_bytes bs h.1, low (from_le_bytes bs), high (from_le_bytes bs))
  where
    low : (r : ℕ) → (b + 256 * r) % 256 ≡ b
    low r = omega arith

    high : (r : ℕ) → (b + 256 * r) / 256 ≡ r
    high r = omega arith

pub from_le_bytes-lt : (bs : List ℕ) → All IsByte bs → from_le_bytes bs < 256 ^ length bs
unfolding from_le_bytes
from_le_bytes-lt [] h = omega arith
from_le_bytes-lt (b ∷ bs) h = rw pow-succ' (omega (arith, from_le_bytes-lt bs h.1))

pub to_le_bytes-All : (w v : ℕ) → All IsByte (to_le_bytes w v)
unfolding to_le_bytes
to_le_bytes-All zero v = tt
to_le_bytes-All (suc w) v = (omega arith, to_le_bytes-All w (v / 256))
