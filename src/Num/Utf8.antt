-- ===== src/Num/Utf8.antt =====
-- `String::from_utf8` accepts the byte strings that this test accepts: the well-formed sequences of
-- the Unicode standard, table 3-7.
use Prim.Native.Nat.{pred}
use borsh_rs.Prelude.{
  ℕ, ◌<◌, ◌≡◌, refl, true, All, arith, le→leb, Bool, ◌&&◌, List, [], ◌∷◌, leb, ◌==◌, if◌then◌else◌,
}

-- What may follow a first byte: the number of continuation bytes, and the range of the next one.
-- `none` is no first byte; a number 4 stands for it.
record Follow : Type 0 where
  count : ℕ
  lo : ℕ
  hi : ℕ

within : ℕ → ℕ → ℕ → Bool
within lo hi b = leb lo b && leb b hi

follow : ℕ → ℕ → ℕ → Follow
follow n a b = record { count = n; lo = a; hi = b }

first_byte : ℕ → Follow
unfolding within follow
first_byte b =
    if leb b 0x7f
    then follow 0 0x80 0xbf
    else if within 0xc2 0xdf b
    then follow 1 0x80 0xbf
    else if b == 0xe0
    then follow 2 0xa0 0xbf
    else if b == 0xed
    then follow 2 0x80 0x9f
    else if within 0xe1 0xef b
    then follow 2 0x80 0xbf
    else if b == 0xf0
    then follow 3 0x90 0xbf
    else if within 0xf1 0xf3 b
    then follow 3 0x80 0xbf
    else if b == 0xf4
    then follow 3 0x80 0x8f
    else follow 4 0x80 0xbf

-- The rest of a text, with a character under way.
utf8_from : Follow → List ℕ → Bool
unfolding within first_byte
utf8_from f [] = f.count == 0
utf8_from f (b ∷ bs) =
    utf8_from
      (if f.count == 0
        then first_byte b
        else if within f.lo f.hi b && leb f.count 3
        then record { count = pred f.count; lo = 0x80; hi = 0xbf }
        else record { count = 4; lo = 0x80; hi = 0xbf })
      bs

unfoldable pub is_utf8 : List ℕ → Bool
unfolding utf8_from
is_utf8 bytes = utf8_from (follow 0 0x80 0xbf) bytes

-- A text of ASCII characters.
pub is_utf8-ascii : (bytes : List ℕ) → All (λ b. b < 128) bytes → is_utf8 bytes ≡ true
unfolding is_utf8 utf8_from first_byte follow
is_utf8-ascii [] h = refl
is_utf8-ascii (b ∷ bytes) h = rw (le→leb b 0x7f (omega (arith, h.0))) (is_utf8-ascii bytes h.1)
