-- ===== src/Schema/Letters.antt =====
-- borsh/src/schema.rs: the letters of declarations. A word is what stands between `<`, `>` and commas.
use Prim.Native.Char.{code}
use Prim.Native.String.{String, ◌++◌ as str_append}
use text.Mathlib.TextEquality.{Char-path}
use text.Mathlib.TextLemmas.{nil-append, cons-append}
use native.Mathlib.Nat.{pow-succ'}
use borsh_rs.Prelude.{
  ℕ, zero, suc, ◌+◌, ◌-◌, ◌*◌, ◌/◌, ◌%◌, ◌^◌, ◌<◌, ◌≡◌, ◌⊎◌, refl, ap, inl, inr, Bool, true, false,
  ◌&&◌, not, List, [], ◌∷◌, ◌++◌, All, arith, ltb, ◌==◌, Bool-cases,
}
use borsh_rs.Num.{decimal_digits, digit}

-- The code points of a text.
abbrev pub codes : String → List ℕ
codes String.[] = []
codes (String.◌∷◌ c s) = code c ∷ codes s

pub codes-append : (s t : String) → codes (str_append s t) ≡ codes s ++ codes t
codes-append String.[] t = rw (nil-append t) refl
codes-append (String.◌∷◌ c s) t = rw (cons-append c s t) (ap (λ z. code c ∷ z) (codes-append s t))

pub codes_inj : (s t : String) → codes s ≡ codes t → s ≡ t
codes_inj String.[] String.[] h = refl
codes_inj String.[] (String.◌∷◌ d t) h = cc
codes_inj (String.◌∷◌ c s) String.[] h = cc
codes_inj (String.◌∷◌ c s) (String.◌∷◌ d t) h =
    let first : code c ≡ code d = cc in
    let rest : codes s ≡ codes t = cc in cc (Char-path c d first, codes_inj s t rest)

abbrev pub is_plain : ℕ → Bool
is_plain c = not (c == b'<') && (not (c == b'>') && not (c == b','))

abbrev pub IsWord : List ℕ → Type 0
IsWord = All (λ c. is_plain c ≡ true)

-- A word that is not empty begins so.
abbrev pub Starts : List ℕ → Type 0
Starts [] = ⊥
Starts (c ∷ cs) = is_plain c ≡ true

pub Starts-append : (xs ys : List ℕ) → Starts xs → Starts (xs ++ ys)
Starts-append [] ys h = absurd h
Starts-append (c ∷ cs) ys h = h

-- What can stand behind a declaration, and behind a word.
abbrev pub Stops : List ℕ → Type 0
Stops [] = Unit
Stops (c ∷ cs) = (c ≡ b'>') ⊎ (c ≡ b',')

abbrev pub Breaks : List ℕ → Type 0
Breaks [] = Unit
Breaks (c ∷ cs) = is_plain c ≡ false

pub Stops-Breaks : (xs : List ℕ) → Stops xs → Breaks xs
Stops-Breaks [] h = tt
Stops-Breaks (c ∷ cs) (inl e) = rw e refl
Stops-Breaks (c ∷ cs) (inr e) = rw e refl

-- A word in front of such a text can be told from the text.
pub word_split :
    (w v xs ys : List ℕ)
    → IsWord w
    → IsWord v
    → Breaks xs
    → Breaks ys
    → w ++ xs ≡ v ++ ys
    → (w ≡ v) × (xs ≡ ys)
word_split [] [] xs ys hw hv bx by e = (refl, e)
word_split [] (d ∷ v) [] ys hw hv bx by e = cc
word_split [] (d ∷ v) (x ∷ xs) ys hw hv bx by e =
    let same : x ≡ d = cc in let plain : is_plain x ≡ true = rw same hv.0 in cc
word_split (c ∷ w) [] xs [] hw hv bx by e = cc
word_split (c ∷ w) [] xs (y ∷ ys) hw hv bx by e =
    let same : y ≡ c = cc in let plain : is_plain y ≡ true = rw same hw.0 in cc
word_split (c ∷ w) (d ∷ v) xs ys hw hv bx by e =
    let same : c ≡ d = cc in
    let rest : w ++ xs ≡ v ++ ys = cc in
    let (p, q) = word_split w v xs ys hw.1 hv.1 bx by rest in (cc, q)

pub IsWord-append : (xs ys : List ℕ) → IsWord xs → IsWord ys → IsWord (xs ++ ys)
IsWord-append [] ys h k = k
IsWord-append (x ∷ xs) ys h k = (h.0, IsWord-append xs ys h.1 k)

-- Decimal digits.
abbrev pub read_decimal : ℕ → List ℕ → ℕ
read_decimal acc [] = acc
read_decimal acc (c ∷ cs) = read_decimal (acc * 10 + (c - b'0')) cs

read_decimal-append :
    (acc : ℕ) (xs ys : List ℕ) → read_decimal acc (xs ++ ys) ≡ read_decimal (read_decimal acc xs) ys
read_decimal-append acc [] ys = refl
read_decimal-append acc (x ∷ xs) ys = read_decimal-append (acc * 10 + (x - b'0')) xs ys

-- `digit` writes one letter.
codes-digit : (d : ℕ) → d < 10 → codes (digit d) ≡ (d + b'0') ∷ []
unfolding digit
codes-digit zero h = refl
codes-digit (suc zero) h = refl
codes-digit (suc (suc zero)) h = refl
codes-digit (suc (suc (suc zero))) h = refl
codes-digit (suc (suc (suc (suc zero)))) h = refl
codes-digit (suc (suc (suc (suc (suc zero))))) h = refl
codes-digit (suc (suc (suc (suc (suc (suc zero)))))) h = refl
codes-digit (suc (suc (suc (suc (suc (suc (suc zero))))))) h = refl
codes-digit (suc (suc (suc (suc (suc (suc (suc (suc zero)))))))) h = refl
codes-digit (suc (suc (suc (suc (suc (suc (suc (suc (suc zero))))))))) h = refl
codes-digit (suc (suc (suc (suc (suc (suc (suc (suc (suc (suc d)))))))))) h = absurd (omega arith)

digit_plain : (d : ℕ) → d < 10 → is_plain (d + b'0') ≡ true
digit_plain d h = ground arith

digit-IsWord : (d : ℕ) → d < 10 → IsWord (codes (digit d))
digit-IsWord d h = rw (codes-digit d h) (digit_plain d h, tt)

pub decimal_digits-IsWord : (fuel n : ℕ) → IsWord (codes (decimal_digits fuel n))
unfolding decimal_digits
decimal_digits-IsWord zero n = digit-IsWord (n % 10) (omega arith)
decimal_digits-IsWord (suc fuel) n = elim (Bool-cases (ltb n 10)) [
  | inl e ↦ rw (e, decimal_digits) (digit-IsWord n (ground arith))
  | inr e ↦
      rw (e, decimal_digits, codes-append (decimal_digits fuel (n / 10)) (digit (n % 10)))
        (IsWord-append _ _ (decimal_digits-IsWord fuel (n / 10))
          (digit-IsWord (n % 10) (omega arith)))
]

pub decimal_digits-Starts : (fuel n : ℕ) → Starts (codes (decimal_digits fuel n))
unfolding decimal_digits
decimal_digits-Starts zero n =
    rw (codes-digit (n % 10) (omega arith)) (digit_plain (n % 10) (omega arith))
decimal_digits-Starts (suc fuel) n = elim (Bool-cases (ltb n 10)) [
  | inl e ↦
      let small : n < 10 = ground arith in
      rw (e, decimal_digits, codes-digit n small) (digit_plain n small)
  | inr e ↦
      rw (e, decimal_digits, codes-append (decimal_digits fuel (n / 10)) (digit (n % 10)))
        (Starts-append _ _ (decimal_digits-Starts fuel (n / 10)))
]

-- The digits of a number are read as the number, if there are enough of them.
pub read_decimal-decimal_digits :
    (fuel n : ℕ) → n < 10 ^ suc fuel → read_decimal 0 (codes (decimal_digits fuel n)) ≡ n
unfolding decimal_digits
read_decimal-decimal_digits zero n h = rw (codes-digit (n % 10) (omega arith)) (omega arith)
read_decimal-decimal_digits (suc fuel) n h = elim (Bool-cases (ltb n 10)) [
  | inl e ↦
      let small : n < 10 = ground arith in rw (e, decimal_digits, codes-digit n small) (omega arith)
  | inr e ↦
      let power : 10 ^ suc (suc fuel) ≡ 10 ^ suc fuel * 10 = rw pow-succ' (omega arith) in
      let last = codes-digit (n % 10) (omega arith) in
      let front = read_decimal-decimal_digits fuel (n / 10) (omega arith) in
      rw
        (
          e,
          decimal_digits,
          codes-append (decimal_digits fuel (n / 10)) (digit (n % 10)),
          last,
          read_decimal-append 0 (codes (decimal_digits fuel (n / 10))) ((n % 10 + b'0') ∷ []),
          front,
        )
        (omega arith)
]
