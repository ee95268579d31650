-- ===== src/De/Sound.antt =====
-- borsh/src/de/mod.rs: a successful call for a primitive type has read the encoding of the value
-- that it returns, so no other byte string stands for that value.
use borsh_rs.Prelude.{
  ℕ, ◌<◌, ◌^◌, ◌≡◌, refl, sym, ap, ◌∙◌, Bool, true, false, List, [], ◌∷◌, ◌++◌, append_assoc, All,
  All-append_left, All-append_right, length, arith, ◌==◌, if◌then◌else◌, Bool-cases, inl, inr,
  ==_iff,
}
use mathlib.Core.Path.{subst}
use borsh_rs.Num.{to_le_bytes, from_le_bytes, to_le_bytes-from_le_bytes, from_le_bytes-lt}
use borsh_rs.Io.{M, Read, ok, Error, fail, pure, ◌>>=◌}
use borsh_rs.Io.Laws.{IsByte, IsRead, Sound, bind-ok, pure-ok}
use borsh_rs.Encoding.{encode_u8, encode_uint, encode_bool, encode_unit, IsUint}
use package.borsh_rs.De.{BorshDeserialize, read_exact_or}
use package.borsh_rs.De.Laws.{read_exact_or-ok, not_ok}
use package.borsh_rs.De.Primitives.{
  first, deserialize_u8, deserialize_uint, deserialize_nonzero, deserialize_float, deserialize_bool,
  bool_of_tag, deserialize_unit,
}

-- A call made of two: both have read their encodings, one behind the other.
pub bind-Sound :
    {R A B : Type 0} (view : R → List ℕ) (m : M R A) (f : A → M R B) {Valid : A → Type 0}
    {enc : A → List ℕ} (Valid' : A → B → Type 0) (enc' : A → B → List ℕ)
    → Sound view m Valid enc
    → ((a : A) → Sound view (f a) (Valid' a) (enc' a))
    → (s : R) (b : B) (s' : R) → All IsByte (view s)
    → (m >>= f) s ≡ (ok b, s')
    → (a : A) × Valid a × Valid' a b × (view s ≡ (enc a ++ enc' a b) ++ view s')
bind-Sound view m f {enc} Valid' enc' hm hf s b s' bytes h =
    let (a, s₁, e, k) = bind-ok m f s h in
    let (v, good) = hm.consumed s a s₁ bytes e in
    let (v', good') =
      (hf a).consumed s₁ b s'
        (All-append_right IsByte (enc a) (view s₁) (subst (All IsByte) v bytes)) k in
    (a, good, good', v ∙ rw v' (sym (append_assoc (enc a) (enc' a b) (view s'))))

-- A guard that let the value through.
pub guard-ok :
    {R A : Type 0} (b : Bool) (x : Error) (n : A) {a : A} {s s' : R}
    → (if b then fail x else pure n) s ≡ (ok a, s')
    → (b ≡ false) × (n ≡ a) × (s ≡ s')
guard-ok true x n h = absurd (not_ok h)
guard-ok false x n h = let (p, q) = pure-ok h in (refl, p, q)

module _ {R : Type 0} ⦃rd : Read R⦄ {view : R → List ℕ} (law : IsRead rd view) where
  -- What `read_exact` returned: that many bytes of the input.
  read-bytes :
      (n : ℕ) (s : R) {buf : List ℕ} {s₁ : R}
      → All IsByte (view s)
      → read_exact_or n s ≡ (ok buf, s₁)
      → (view s ≡ buf ++ view s₁) × (length buf ≡ n) × All IsByte buf
  read-bytes n s {buf} {s₁} bytes h =
      let (v, len) = read_exact_or-ok law n s h in
      (v, len, All-append_left IsByte buf (view s₁) (subst (All IsByte) v bytes))

  one_byte :
      (buf : List ℕ) (s₁ s' s : R) (b : ℕ)
      → length buf ≡ 1
      → All IsByte buf
      → view s ≡ buf ++ view s₁
      → first buf s₁ ≡ (ok b, s')
      → (view s ≡ encode_u8 b ++ view s') × IsUint 1 b
  one_byte [] s₁ s' s b len bytes v h = absurd (omega arith)
  one_byte (x ∷ y ∷ ys) s₁ s' s b len bytes v h = absurd (omega arith)
  one_byte (x ∷ []) s₁ s' s b len bytes v h =
      let (p, q) = pure-ok {a = x} {s = s₁} h in
      let r : view s₁ ≡ view s' = ap view q in (cc, omega arith)

  pub deserialize_u8-Sound : Sound view deserialize_u8 (IsUint 1) encode_u8
  unfolding deserialize_u8
  deserialize_u8-Sound = record {
    consumed = λ s b s' bytes h.
        let (buf, s₁, e, k) = bind-ok (read_exact_or 1) first s h in
        let (v, len, good) = read-bytes 1 s bytes e in one_byte buf s₁ s' s b len good v k;
  }

  -- A number that was computed from `w` bytes is below 256 ^ w, and has those bytes.
  from-bytes :
      (w : ℕ) (buf : List ℕ) (n : ℕ)
      → length buf ≡ w
      → All IsByte buf
      → from_le_bytes buf ≡ n
      → (buf ≡ to_le_bytes w n) × (n < 256 ^ w)
  from-bytes w buf n len good e =
      (cc (to_le_bytes-from_le_bytes buf good), rw (← e, ← len) (from_le_bytes-lt buf good))

  -- The bytes of a number.
  pub number-Sound :
      (w : ℕ)
      → Sound view
          (read_exact_or w)
          (λ buf. IsUint w (from_le_bytes buf))
          (λ buf. encode_uint w (from_le_bytes buf))
  number-Sound w = record {
    consumed = λ s buf s' bytes h.
        let (v, len, good) = read-bytes w s bytes h in
        let (same, small) = from-bytes w buf (from_le_bytes buf) len good refl in (cc, small);
  }

  pub deserialize_uint-Sound : (w : ℕ) → Sound view (deserialize_uint w) (IsUint w) (encode_uint w)
  unfolding deserialize_uint
  deserialize_uint-Sound w = record {
    consumed = λ s a s' bytes h.
        let (buf, s₁, e, k) = bind-ok (read_exact_or w) _ s h in
        let (v, len, good) = read-bytes w s bytes e in
        let (p, q) = pure-ok k in
        let (same, small) = from-bytes w buf a len good p in
        let r : view s₁ ≡ view s' = ap view q in (cc, small);
  }

  pub deserialize_float-Sound :
      (is_nan : ℕ → Bool) (w : ℕ)
      → Sound view
          (deserialize_float is_nan w)
          (λ bits. IsUint w bits × (is_nan bits ≡ false))
          (encode_uint w)
  unfolding deserialize_float
  deserialize_float-Sound is_nan w = record {
    consumed = λ s a s' bytes h.
        let (buf, s₁, e, k) = bind-ok (read_exact_or w) _ s h in
        let (v, len, good) = read-bytes w s bytes e in
        let (no_nan, p, q) = guard-ok (is_nan (from_le_bytes buf)) _ _ k in
        let (same, small) = from-bytes w buf a len good p in
        let r : view s₁ ≡ view s' = ap view q in (cc, (small, rw (← p) no_nan));
  }

  -- The tags of `bool`.
  bool_tag-ok :
      (b : ℕ) (s : R) {x : Bool} {s' : R}
      → bool_of_tag b s ≡ (ok x, s')
      → (encode_bool x ≡ b ∷ []) × (s ≡ s')
  bool_tag-ok b s h = elim (Bool-cases (b == 0)) [
    | inl zero_tag ↦
        let (p, q) = pure-ok (rw zero_tag at h) in (rw (← p, (==_iff _ _).0 zero_tag) refl, q)
    | inr other ↦ elim (Bool-cases (b == 1)) [
      | inl one_tag ↦
          let (p, q) = pure-ok (rw (other, one_tag) at h) in
          (rw (← p, (==_iff _ _).0 one_tag) refl, q)
      | inr bad ↦ absurd (not_ok (rw (other, bad) at h))
    ]
  ]

  pub deserialize_bool-Sound : Sound view deserialize_bool (λ b. Unit {0}) encode_bool
  unfolding deserialize_bool
  deserialize_bool-Sound = record {
    consumed = λ s x s' bytes h.
        let (b, s₁, e, k) = bind-ok deserialize_u8 bool_of_tag s h in
        let (v, good) = deserialize_u8-Sound.consumed s b s₁ bytes e in
        let (p, q) = bool_tag-ok b s₁ k in let r : view s₁ ≡ view s' = ap view q in (cc, tt);
  }

  pub deserialize_unit-Sound : Sound view deserialize_unit (λ u. Unit {0}) encode_unit
  unfolding deserialize_unit
  deserialize_unit-Sound = record {
    consumed = λ s x s' bytes h. let (p, q) = pure-ok h in (ap view q, tt);
  }

  pub deserialize_nonzero-Sound :
      {T : Type 0} (d : BorshDeserialize R T) (is_zero : T → Bool) {Valid : T → Type 0}
      {enc : T → List ℕ}
      → Sound view d.deserialize_reader Valid enc
      → Sound view (deserialize_nonzero d is_zero) (λ x. Valid x × (is_zero x ≡ false)) enc
  unfolding deserialize_nonzero
  deserialize_nonzero-Sound d is_zero {Valid} {enc} hd = record {
    consumed = λ s x s' bytes h.
        let (y, s₁, e, k) = bind-ok d.deserialize_reader _ s h in
        let (v, good) = hd.consumed s y s₁ bytes e in
        let (nonzero, p, q) = guard-ok (is_zero y) _ y k in
        let r : view s₁ ≡ view s' = ap view q in
        (v ∙ cc (ap enc p), (subst Valid p good, rw (← p) nonzero));
  }
