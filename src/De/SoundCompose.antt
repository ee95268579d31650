-- ===== src/De/SoundCompose.antt =====
-- borsh/src/de/mod.rs: a successful call for `Range`, `Option`, `Result` or a tuple has
-- read the encoding of what it returns, if those for its components have.
use borsh_rs.Prelude.{
  ℕ, ◌≡◌, refl, ap, ◌∙◌, List, ◌∷◌, ◌++◌, append_assoc, Option, All, All-append_right, ◌==◌,
  Bool-cases, inl, inr, ==_iff,
}
use mathlib.Core.Path.{subst}
use borsh_rs.Io.{M, Read, ok, pure, ◌>>=◌}
use borsh_rs.Io.Laws.{IsByte, IsRead, Sound, bind-ok, pure-ok}
use borsh_rs.Ser.Containers.{CoreResult}
use borsh_rs.Encoding.{
  encode_range, encode_option, encode_result, encode_pair, RangeValid, OptionValid, ResultValid,
  PairValid,
}
use package.borsh_rs.De.{BorshDeserialize}
use package.borsh_rs.De.Laws.{not_ok}
use package.borsh_rs.De.Sound.{deserialize_u8-Sound}
use package.borsh_rs.De.Primitives.{deserialize_u8}
use package.borsh_rs.De.Containers.{
  deserialize_range, deserialize_option, option_of_tag, deserialize_result, result_of_tag,
  deserialize_tuple,
}

module _ {R : Type 0} ⦃rd : Read R⦄ {view : R → List ℕ} (law : IsRead rd view) where
  -- A call and a computation on its value.
  pub map-Sound :
      {A B : Type 0} (m : M R A) (f : A → B) {Valid : A → Type 0} {enc : A → List ℕ}
      (Valid' : B → Type 0) (enc' : B → List ℕ)
      → Sound view m Valid enc
      → ((a : A) → Valid a → (enc' (f a) ≡ enc a) × Valid' (f a))
      → Sound view (m >>= (λ a. pure (f a))) Valid' enc'
  map-Sound m f Valid' enc' hm hf = record {
    consumed = λ s b s' bytes h.
        let (a, s₁, e, k) = bind-ok m _ s h in
        let (v, good) = hm.consumed s a s₁ bytes e in
        let (p, q) = pure-ok k in
        let (same, good') = hf a good in
        let r : view s₁ ≡ view s' = ap view q in (v ∙ cc (ap enc' p), subst Valid' p good');
  }

  -- Two calls, one behind the other.
  pub pair-Sound :
      {A B C : Type 0} (m : M R A) (n : M R B) (f : A → B → C) {Valid : A → Type 0}
      {enc : A → List ℕ} {Valid' : B → Type 0} {enc' : B → List ℕ} (Valid'' : C → Type 0)
      (enc'' : C → List ℕ)
      → Sound view m Valid enc
      → Sound view n Valid' enc'
      → ((a : A) (b : B) → Valid a → Valid' b → (enc'' (f a b) ≡ enc a ++ enc' b) × Valid'' (f a b))
      → Sound view (m >>= (λ a. n >>= (λ b. pure (f a b)))) Valid'' enc''
  pair-Sound m n f {enc} {enc'} Valid'' enc'' hm hn hf = record {
    consumed = λ s c s' bytes h.
        let (a, s₁, e₁, k₁) = bind-ok m _ s h in
        let (v₁, good₁) = hm.consumed s a s₁ bytes e₁ in
        let (b, s₂, e₂, k₂) = bind-ok n _ s₁ k₁ in
        let (v₂, good₂) =
          hn.consumed s₁ b s₂
            (All-append_right IsByte (enc a) (view s₁) (subst (All IsByte) v₁ bytes)) e₂ in
        let (p, q) = pure-ok k₂ in
        let (same, good) = hf a b good₁ good₂ in
        let r : view s₂ ≡ view s' = ap view q in
        (cc (ap enc'' p, append_assoc (enc a) (enc' b) (view s₂)), subst Valid'' p good);
  }

  module _ {T : Type 0} (d : BorshDeserialize R T) {Valid : T → Type 0} {enc : T → List ℕ}
      (hd : Sound view d.deserialize_reader Valid enc) where
    pub deserialize_range-Sound :
        Sound view (deserialize_range d) (RangeValid Valid) (encode_range enc)
    unfolding deserialize_range
    deserialize_range-Sound =
        pair-Sound d.deserialize_reader d.deserialize_reader _ (RangeValid Valid) (encode_range enc)
          hd hd (λ a b v v'. (refl, (v, v')))

    pub deserialize_tuple-Sound :
        {U : Type 0} (d' : BorshDeserialize R U) {Valid' : U → Type 0} {enc' : U → List ℕ}
        → Sound view d'.deserialize_reader Valid' enc'
        → Sound view (deserialize_tuple d d') (PairValid Valid Valid') (encode_pair enc enc')
    unfolding deserialize_tuple
    deserialize_tuple-Sound d' {Valid'} {enc'} hd' =
        pair-Sound d.deserialize_reader d'.deserialize_reader _ (PairValid Valid Valid')
          (encode_pair enc enc') hd hd' (λ a b v v'. (refl, (v, v')))

    -- What follows the tag of an option.
    option_tag-ok :
        (b : ℕ) (s : R) (x : Option T) (s' : R)
        → All IsByte (view s)
        → option_of_tag d b s ≡ (ok x, s')
        → (b ∷ view s ≡ encode_option enc x ++ view s') × OptionValid Valid x
    option_tag-ok b s x s' bytes h = elim (Bool-cases (b == 0)) [
      | inl zero_tag ↦
          let (p, q) = pure-ok (rw zero_tag at h) in
          let r : view s ≡ view s' = ap view q in
          (cc (ap (encode_option enc) p, (==_iff _ _).0 zero_tag), subst (OptionValid Valid) p tt)
      | inr other ↦ elim (Bool-cases (b == 1)) [
        | inl one_tag ↦
            let (y, s₁, e, k) = bind-ok d.deserialize_reader _ s (rw (other, one_tag) at h) in
            let (v, good) = hd.consumed s y s₁ bytes e in
            let (p, q) = pure-ok k in
            let r : view s₁ ≡ view s' = ap view q in
            (
              cc (ap (encode_option enc) p, (==_iff _ _).0 one_tag),
              subst (OptionValid Valid) p good,
            )
        | inr bad ↦ absurd (not_ok (rw (other, bad) at h))
      ]
    ]

    pub deserialize_option-Sound :
        Sound view (deserialize_option d) (OptionValid Valid) (encode_option enc)
    unfolding deserialize_option
    deserialize_option-Sound = record {
      consumed = λ s x s' bytes h.
          let (b, s₁, e, k) = bind-ok deserialize_u8 (option_of_tag d) s h in
          let (v, small) = (deserialize_u8-Sound law).consumed s b s₁ bytes e in
          let (w, good) = option_tag-ok b s₁ x s' (subst (All IsByte) v bytes).1 k in (v ∙ w, good);
    }

    result_tag-ok :
        {E : Type 0} (d' : BorshDeserialize R E) {Valid' : E → Type 0} {enc' : E → List ℕ}
        → Sound view d'.deserialize_reader Valid' enc'
        → (b : ℕ) (s : R) (x : CoreResult T E) (s' : R) → All IsByte (view s)
        → result_of_tag d d' b s ≡ (ok x, s')
        → (b ∷ view s ≡ encode_result enc enc' x ++ view s') × ResultValid Valid Valid' x
    result_tag-ok d' {Valid'} {enc'} hd' b s x s' bytes h = elim (Bool-cases (b == 0)) [
      | inl zero_tag ↦
          let (y, s₁, e, k) = bind-ok d'.deserialize_reader _ s (rw zero_tag at h) in
          let (v, good) = hd'.consumed s y s₁ bytes e in
          let (p, q) = pure-ok k in
          let r : view s₁ ≡ view s' = ap view q in
          (
            cc (ap (encode_result enc enc') p, (==_iff _ _).0 zero_tag),
            subst (ResultValid Valid Valid') p good,
          )
      | inr other ↦ elim (Bool-cases (b == 1)) [
        | inl one_tag ↦
            let (y, s₁, e, k) = bind-ok d.deserialize_reader _ s (rw (other, one_tag) at h) in
            let (v, good) = hd.consumed s y s₁ bytes e in
            let (p, q) = pure-ok k in
            let r : view s₁ ≡ view s' = ap view q in
            (
              cc (ap (encode_result enc enc') p, (==_iff _ _).0 one_tag),
              subst (ResultValid Valid Valid') p good,
            )
        | inr bad ↦ absurd (not_ok (rw (other, bad) at h))
      ]
    ]

    pub deserialize_result-Sound :
        {E : Type 0} (d' : BorshDeserialize R E) {Valid' : E → Type 0} {enc' : E → List ℕ}
        → Sound view d'.deserialize_reader Valid' enc'
        → Sound view (deserialize_result d d') (ResultValid Valid Valid') (encode_result enc enc')
    unfolding deserialize_result
    deserialize_result-Sound d' hd' = record {
      consumed = λ s x s' bytes h.
          let (b, s₁, e, k) = bind-ok deserialize_u8 (result_of_tag d d') s h in
          let (v, small) = (deserialize_u8-Sound law).consumed s b s₁ bytes e in
          let (w, good) = result_tag-ok d' hd' b s₁ x s' (subst (All IsByte) v bytes).1 k in
          (v ∙ w, good);
    }
