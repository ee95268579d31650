-- ===== src/Encoding.antt =====
-- The Borsh format (README.md points to its specification), apart from how the code writes and
-- reads it: which bytes stand for a value, and which values have an encoding.
use borsh_rs.Prelude.{
  ℕ, ◌<◌, ◌^◌, ◌≡◌, Bool, List, [], ◌∷◌, ◌++◌, Option, none, some, length, concat_map, All,
  if◌then◌else◌,
}
use borsh_rs.Num.{ℤ, IsSigned, to_le_bytes, to_unsigned}
use borsh_rs.Ser.Containers.{Range, CoreResult, done, error}

abbrev pub encode_u8 : ℕ → List ℕ
encode_u8 b = b ∷ []

abbrev pub encode_uint : ℕ → ℕ → List ℕ
encode_uint w v = to_le_bytes w v

abbrev pub encode_int : ℕ → ℤ → List ℕ
encode_int w z = to_le_bytes w (to_unsigned (256 ^ w) z)

abbrev pub encode_bool : Bool → List ℕ
encode_bool b = (if b then 1 else 0) ∷ []

abbrev pub encode_unit : Unit {0} → List ℕ
encode_unit u = []

module _ {T : Type 0} (enc : T → List ℕ) where
  abbrev pub encode_range : Range T → List ℕ
  encode_range r = enc r.start ++ enc r.stop

  abbrev pub encode_option : Option T → List ℕ
  encode_option none = 0 ∷ []
  encode_option (some x) = 1 ∷ enc x

  abbrev pub encode_result : {E : Type 0} → (E → List ℕ) → CoreResult T E → List ℕ
  encode_result enc' (error e) = 0 ∷ enc' e
  encode_result enc' (done x) = 1 ∷ enc x

  -- The elements, without their number.
  abbrev pub encode_items : List T → List ℕ
  encode_items xs = concat_map enc xs

  abbrev pub encode_seq : List T → List ℕ
  encode_seq xs = to_le_bytes 4 (length xs) ++ concat_map enc xs

  abbrev pub encode_pair : {U : Type 0} → (U → List ℕ) → T × U → List ℕ
  encode_pair enc' (x, y) = enc x ++ enc' y

-- The values that have an encoding, for a predicate on those of the components.
abbrev pub IsUint : ℕ → ℕ → Type 0
IsUint w v = v < 256 ^ w

abbrev pub IsInt : ℕ → ℤ → Type 0
IsInt w z = IsSigned (256 ^ w) z

module _ {T : Type 0} (Valid : T → Type 0) where
  abbrev pub RangeValid : Range T → Type 0
  RangeValid r = Valid r.start × Valid r.stop

  abbrev pub OptionValid : Option T → Type 0
  OptionValid none = Unit
  OptionValid (some x) = Valid x

  abbrev pub ResultValid : {E : Type 0} → (E → Type 0) → CoreResult T E → Type 0
  ResultValid Valid' (error e) = Valid' e
  ResultValid Valid' (done x) = Valid x

  -- The number of elements fits 32 bits.
  abbrev pub SeqValid : List T → Type 0
  SeqValid xs = (length xs < 2 ^ 32) × All Valid xs

  abbrev pub ArrayValid : ℕ → List T → Type 0
  ArrayValid n xs = (length xs ≡ n) × All Valid xs

  abbrev pub PairValid : {U : Type 0} → (U → Type 0) → T × U → Type 0
  PairValid Valid' (x, y) = Valid x × Valid' y
