-- ===== src/De/SoundItems.antt =====
-- borsh/src/de/mod.rs: a successful call for a vector or an array has read the encoding of what it
-- returns, if those for its elements have.
use borsh_rs.Prelude.{
  ℕ, zero, suc, ◌≡◌, refl, sym, ap, ◌∙◌, ◌⊎◌, List, [], ◌∷◌, ◌++◌, append_assoc, Option, none, some,
  All, All-append_right, replicate, arith, ◌==◌, leb, if◌then◌else◌, Bool-cases, inl, inr, ==_iff,
}
use mathlib.Core.Path.{subst}
use borsh_rs.Io.{M, Read, ok, pure, ◌>>=◌}
use borsh_rs.Io.Laws.{IsByte, IsRead, Sound, bind-ok, pure-ok}
use borsh_rs.Encoding.{encode_uint, encode_items, encode_seq, SeqValid, ArrayValid}
use package.borsh_rs.De.{BorshDeserialize, Target}
use package.borsh_rs.De.Laws.{not_ok}
use package.borsh_rs.De.Sound.{deserialize_uint-Sound}
use package.borsh_rs.De.SoundCompose.{pair-Sound}
use package.borsh_rs.De.Primitives.{deserialize_uint}
use package.borsh_rs.De.Bytes.{usize_of_u32}
use package.borsh_rs.De.Containers.{
  deserialize_items, deserialize_elements, or_elements, deserialize_vec, or_items,
  deserialize_array,
}

module _ {R : Type 0} ⦃rd : Read R⦄ {view : R → List ℕ} (law : IsRead rd view) where
  module _ {T : Type 0} (d : BorshDeserialize R T) {Valid : T → Type 0} {enc : T → List ℕ}
      (hd : Sound view d.deserialize_reader Valid enc) where
    -- `n` elements, in order.
    pub deserialize_items-Sound :
        (n : ℕ) → Sound view (deserialize_items d n) (ArrayValid Valid n) (encode_items enc)
    unfolding deserialize_items
    deserialize_items-Sound zero = record {
      consumed = λ s xs s' bytes h.
          let (p, q) = pure-ok h in
          let r : view s ≡ view s' = ap view q in (cc, subst (ArrayValid Valid zero) p (refl, tt));
    }
    deserialize_items-Sound (suc n) =
        pair-Sound law d.deserialize_reader (deserialize_items d n) (λ x xs. x ∷ xs)
          (ArrayValid Valid (suc n)) (encode_items enc) hd (deserialize_items-Sound n)
          (λ x xs v v'. (refl, (ap suc v'.0, (v, v'.1))))

    -- What a hook does: nothing, or it reads that many elements.
    abbrev pub HookValid : ℕ → Option (List T) → Type 0
    HookValid n none = ⊥
    HookValid n (some xs) = ArrayValid Valid n xs

    abbrev pub encode_hook : Option (List T) → List ℕ
    encode_hook none = []
    encode_hook (some xs) = encode_items enc xs

    abbrev pub SoundHook : (ℕ → M R (Option (List T))) → Type 0
    SoundHook from_reader =
        ((n : ℕ) (s : R) → from_reader n s ≡ (ok none, s))
        ⊎ ((n : ℕ) → Sound view (from_reader n) (HookValid n) encode_hook)

    -- A type of size 0 has no bytes.
    abbrev pub NoBytes : Type 0
    NoBytes = d.size_of ≡ 0 → (x : T) → Valid x → enc x ≡ []

    replicate-ArrayValid :
        (n : ℕ) (x : T)
        → Valid x
        → enc x ≡ []
        → ArrayValid Valid n (replicate n x) × (encode_items enc (replicate n x) ≡ [])
    replicate-ArrayValid zero x v e = ((refl, tt), refl)
    replicate-ArrayValid (suc n) x v e =
        let ((p, q), r) = replicate-ArrayValid n x v e in ((ap suc p, (v, q)), rw (e, r) refl)

    -- The copies of one value that has no bytes.
    copies-ok :
        (t : Target) (n : ℕ) (x : T) (s : R) {xs : List T} {s' : R}
        → Valid x
        → enc x ≡ []
        → (usize_of_u32 t n >>= (λ k. pure (replicate k x))) s ≡ (ok xs, s')
        → (encode_items enc xs ≡ []) × ArrayValid Valid n xs × (s ≡ s')
    copies-ok t n x s v e h = elim (Bool-cases (leb n t.usize_max)) [
      | inl fits ↦
          let (p, q) = pure-ok (rw fits at h) in
          let (valid, none_left) = replicate-ArrayValid n x v e in
          (subst (λ z. encode_items enc z ≡ []) p none_left, subst (ArrayValid Valid n) p valid, q)
      | inr big ↦ absurd (not_ok (rw big at h))
    ]

    deserialize_elements-Sound :
        NoBytes
        → (t : Target) (n : ℕ)
        → Sound view (deserialize_elements d t n) (ArrayValid Valid n) (encode_items enc)
    unfolding deserialize_elements
    deserialize_elements-Sound zst t n = elim (Bool-cases (d.size_of == 0)) [
      | inl e ↦ record {
        consumed = λ s xs s' bytes h.
            let (x, s₁, e₁, k) =
              bind-ok d.deserialize_reader _ s (rw (e, deserialize_elements) at h) in
            let (v, good) = hd.consumed s x s₁ bytes e₁ in
            let no_bytes = zst ((==_iff _ _).0 e) x good in
            let (p, valid, q) = copies-ok t n x s₁ good no_bytes k in
            let r : view s₁ ≡ view s' = ap view q in (v ∙ rw (no_bytes, p, r) refl, valid);
      }
      | inr e ↦ record {
        consumed = λ s xs s' bytes h.
            let by_items : deserialize_items d n s ≡ (ok xs, s') =
              rw (e, deserialize_elements) at h in
            (deserialize_items-Sound n).consumed s xs s' bytes by_items;
      }
    ]

    hooked-ok :
        (t : Target) (n : ℕ) (o : Option (List T)) (s : R) {xs : List T} {s' : R}
        → HookValid n o
        → or_elements d t n o s ≡ (ok xs, s')
        → (encode_hook o ≡ encode_items enc xs) × ArrayValid Valid n xs × (s ≡ s')
    hooked-ok t n none s v h = absurd v
    hooked-ok t n (some ys) s v h =
        let (p, q) = pure-ok h in (ap (encode_items enc) p, subst (ArrayValid Valid n) p v, q)

    vec_body-Sound :
        SoundHook d.vec_from_reader
        → NoBytes
        → (t : Target) (n : ℕ)
        → Sound view
            (d.vec_from_reader n >>= or_elements d t n)
            (ArrayValid Valid n)
            (encode_items enc)
    vec_body-Sound hook zst t n = elim hook [
      | inl off ↦ record {
        consumed = λ s xs s' bytes h.
            (deserialize_elements-Sound zst t n).consumed s xs s' bytes (rw off at h);
      }
      | inr on ↦ record {
        consumed = λ s xs s' bytes h.
            let (o, s₁, e, k) = bind-ok (d.vec_from_reader n) _ s h in
            let (v, good) = (on n).consumed s o s₁ bytes e in
            let (p, valid, q) = hooked-ok t n o s₁ good k in
            let r : view s₁ ≡ view s' = ap view q in (v ∙ rw (p, r) refl, valid);
      }
    ]

    array_hooked-ok :
        (n : ℕ) (o : Option (List T)) (s : R) {xs : List T} {s' : R}
        → HookValid n o
        → or_items d n o s ≡ (ok xs, s')
        → (encode_hook o ≡ encode_items enc xs) × ArrayValid Valid n xs × (s ≡ s')
    array_hooked-ok n none s v h = absurd v
    array_hooked-ok n (some ys) s v h =
        let (p, q) = pure-ok h in (ap (encode_items enc) p, subst (ArrayValid Valid n) p v, q)

    -- An array is read from the encodings of its elements only.
    pub deserialize_array-Sound :
        SoundHook d.array_from_reader
        → (n : ℕ) → Sound view (deserialize_array d n) (ArrayValid Valid n) (encode_items enc)
    unfolding deserialize_array
    deserialize_array-Sound hook n = elim hook [
      | inl off ↦ record {
        consumed =
            λ s xs s' bytes h. (deserialize_items-Sound n).consumed s xs s' bytes (rw off at h);
      }
      | inr on ↦ record {
        consumed = λ s xs s' bytes h.
            let (o, s₁, e, k) = bind-ok (d.array_from_reader n) _ s h in
            let (v, good) = (on n).consumed s o s₁ bytes e in
            let (p, valid, q) = array_hooked-ok n o s₁ good k in
            let r : view s₁ ≡ view s' = ap view q in (v ∙ rw (p, r) refl, valid);
      }
    ]

    -- A vector is read from its encoding only.
    pub deserialize_vec-Sound :
        SoundHook d.vec_from_reader
        → NoBytes
        → (t : Target) → Sound view (deserialize_vec d t) (SeqValid Valid) (encode_seq enc)
    unfolding deserialize_vec
    deserialize_vec-Sound hook zst t = record {
      consumed = λ s xs s' bytes h.
          let (n, s₁, e, k) = bind-ok (deserialize_uint 4) _ s h in
          let (v, small) = (deserialize_uint-Sound law 4).consumed s n s₁ bytes e in
          let bytes₁ =
            All-append_right IsByte (encode_uint 4 n) (view s₁) (subst (All IsByte) v bytes) in
          let (w, valid) = body n s₁ xs s' bytes₁ k in
          let len = valid.0 in
          (
            cc (append_assoc (encode_uint 4 n) (encode_items enc xs) (view s')),
            (omega arith, valid.1),
          );
    }
      where
        body :
            (n : ℕ) (s : R) (xs : List T) (s' : R)
            → All IsByte (view s)
            → (if n == 0 then pure [] else d.vec_from_reader n >>= or_elements d t n) s
              ≡ (ok xs, s')
            → (view s ≡ encode_items enc xs ++ view s') × ArrayValid Valid n xs
        body n s xs s' bytes h = elim (Bool-cases (n == 0)) [
          | inl empty ↦
              let (p, q) = pure-ok (rw empty at h) in
              let r : view s ≡ view s' = ap view q in
              let z : n ≡ 0 = (==_iff _ _).0 empty in
              (rw (← p, r) refl, subst (ArrayValid Valid n) p (sym z, tt))
          | inr some_items ↦
              (vec_body-Sound hook zst t n).consumed s xs s' bytes (rw some_items at h)
        ]
