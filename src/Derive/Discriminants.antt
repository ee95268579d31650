-- ===== src/Derive/Discriminants.antt =====
-- borsh-derive-internal/src/enum_discriminant_map.rs. A discriminant is an expression, of which the
-- macro has the tokens; the tokens modelled are literals
-- and the operators `+` and `<<`, of which `<<` binds the looser.
pub mod Laws
use Prim.Native.String.{String}
use text.Mathlib.Text.{◌==◌ as str_eq}
use borsh_rs.Prelude.{
  ℕ, ◌+◌, ◌*◌, ◌^◌, ◌%◌, ◌&&◌, ltb, if◌then◌else◌, List, [], ◌∷◌, ◌++◌, Option, none, some,
}
use borsh_rs.De.Collections.{hash_insert}
use package.borsh_rs.Derive.{Attribute, Fields}

pub data Token : Type 0 where
  lit : ℕ → Token
  plus shl : Token

pub record Variant (Ty : Type 0) : Type 0 where
  pub ident : String
  pub discriminant : Option (List Token)
  pub fields : Fields Ty

-- `variant.discriminant.clone().map_or_else(...)`
abbrev pub this_discriminant : List Token → Option (List Token) → List Token
this_discriminant next none = next
this_discriminant next (some e) = e

-- The loop of `discriminant_map`, for the map so far and the tokens of
-- `next_discriminant_if_not_specified`.
unfoldable pub discriminants_from :
    {Ty : Type 0}
    → List Token
    → List (String × List Token)
    → List (Variant Ty)
    → List (String × List Token)
unfolding hash_insert
discriminants_from next map [] = map
discriminants_from next map (variant ∷ variants) =
    let this = this_discriminant next variant.discriminant in
    discriminants_from (this ++ (plus ∷ lit 1 ∷ [])) (hash_insert str_eq variant.ident this map)
      variants

unfoldable pub discriminant_map : {Ty : Type 0} → List (Variant Ty) → List (String × List Token)
unfolding discriminants_from
discriminant_map variants = discriminants_from (lit 0 ∷ []) [] variants

-- What Rust makes of the tokens where they stand for a `u8`: shifts of sums. `acc` is the value of
-- what stands before the last `<<`, and `sum` that of the sum since. A shift drops the bits beyond
-- the eighth. A literal or sum beyond `u8` and a shift by eight bits or more do not compile, which
-- 256, or the sum itself, stands for.
abbrev pub shifted : Option ℕ → ℕ → ℕ
shifted none sum = sum
shifted (some acc) sum = if ltb acc 256 && ltb sum 8 then acc * 2 ^ sum % 256 else 256

unfoldable pub value_from : Option ℕ → ℕ → List Token → ℕ
value_from acc sum [] = shifted acc sum
value_from acc sum (lit n ∷ tokens) = value_from acc (sum + n) tokens
value_from acc sum (plus ∷ tokens) = value_from acc sum tokens
value_from acc sum (shl ∷ tokens) = value_from (some (shifted acc sum)) 0 tokens

unfoldable pub value : List Token → ℕ
unfolding value_from
value tokens = value_from none 0 tokens
