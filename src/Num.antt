-- ===== src/Num.antt =====
-- The conversions of machine integers and floats that borsh/src/ser/mod.rs and borsh/src/de/mod.rs
-- call: `to_le_bytes`, `from_le_bytes`, two's complement, `is_nan`.
mod Bytes
mod Text
mod Utf8
unfoldable pub use Bytes.*
unfoldable pub use Utf8.{is_utf8}
pub use Utf8.{is_utf8-ascii}
unfoldable pub use Text.{decimal_u8, decimal_digits, digit}
use borsh_rs.Prelude.{
  ℕ, zero, suc, ◌+◌, ◌-◌, ◌*◌, ◌/◌, ◌%◌, ◌^◌, ◌≤◌, ◌<◌, ◌≡◌, Bool, arith, ltb, lt→ltb, le→ltb,
  if◌then◌else◌, Bool-cases, inl, inr, ltb→lt, ltb→le,
}

-- A signed integer; `negsuc n` is -(n + 1).
pub data ℤ : Type 0 where
  pos : ℕ → ℤ
  negsuc : ℕ → ℤ

-- The value fits a signed integer whose patterns number `m`.
abbrev pub IsSigned : ℕ → ℤ → Type 0
IsSigned m (pos n) = 2 * n < m
IsSigned m (negsuc n) = 2 * n + 1 < m

-- `z as u{w}`: two's complement among `m` patterns, and back.
abbrev pub to_unsigned : ℕ → ℤ → ℕ
to_unsigned m (pos n) = n
to_unsigned m (negsuc n) = m - 1 - n

abbrev pub to_signed : ℕ → ℕ → ℤ
to_signed m u = if ltb (2 * u) m then pos u else negsuc (m - 1 - u)

pub to_unsigned-lt : (m : ℕ) (z : ℤ) → IsSigned m z → to_unsigned m z < m
to_unsigned-lt m (pos n) h = omega arith
to_unsigned-lt m (negsuc n) h = omega arith

pub to_signed-to_unsigned : (m : ℕ) (z : ℤ) → IsSigned m z → to_signed m (to_unsigned m z) ≡ z
to_signed-to_unsigned m (pos n) h = ground arith
to_signed-to_unsigned m (negsuc n) h = ground arith

pub to_unsigned-to_signed : (m u : ℕ) → u < m → to_unsigned m (to_signed m u) ≡ u
to_unsigned-to_signed m u h = ground arith

pub to_signed-IsSigned : (k u : ℕ) → u < 2 * k → IsSigned (2 * k) (to_signed (2 * k) u)
to_signed-IsSigned k u h = elim (Bool-cases (ltb (2 * u) (2 * k))) [
  | inl e ↦ rw e (omega (arith, ltb→lt _ _ e))
  | inr e ↦ rw e (omega (arith, ltb→le _ _ e))
]
