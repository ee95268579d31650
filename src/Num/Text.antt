-- ===== src/Num/Text.antt =====
-- `format!("{}", b)` of a byte.
use borsh_rs.Prelude.{ℕ, zero, suc, ◌/◌, ◌%◌, ltb, if◌then◌else◌}
use Prim.Native.String.{String, ◌++◌ as str_append}

unfoldable pub digit : ℕ → String
digit zero = "0"
digit (suc zero) = "1"
digit (suc (suc zero)) = "2"
digit (suc (suc (suc zero))) = "3"
digit (suc (suc (suc (suc zero)))) = "4"
digit (suc (suc (suc (suc (suc zero))))) = "5"
digit (suc (suc (suc (suc (suc (suc zero)))))) = "6"
digit (suc (suc (suc (suc (suc (suc (suc zero))))))) = "7"
digit (suc (suc (suc (suc (suc (suc (suc (suc zero)))))))) = "8"
digit _ = "9"

-- With as many digits as the fuel allows.
unfoldable pub decimal_digits : ℕ → ℕ → String
unfolding digit
decimal_digits zero n = digit (n % 10)
decimal_digits (suc fuel) n =
    let front = decimal_digits fuel (n / 10) in
    if ltb n 10 then digit n else str_append front (digit (n % 10))

-- A byte has at most three digits.
unfoldable pub decimal_u8 : ℕ → String
unfolding decimal_digits
decimal_u8 n = decimal_digits 2 n
