-- ===== src/De/SoundBytes.antt =====
-- borsh/src/de/mod.rs: byte vectors and strings are read from their encodings only.
use borsh_rs.Prelude.{
  ℕ, ◌≤◌, ◌≡◌, refl, sym, ap, ◌∙◌, inl, inr, Bool, true, false, List, ◌++◌, Option, some, All,
  All-append_left, length, take, drop, length-take, take-append-drop, arith, leb, leb→le, ltb,
  Bool-cases, [], ◌∷◌, if◌then◌else◌, ltb→lt, ltb→le,
}
use mathlib.Core.Path.{subst}
use Prim.Native.String.{String}
use borsh_rs.Num.{is_utf8}
use borsh_rs.Io.{Read, ok, Error, fail, pure}
use borsh_rs.Io.Laws.{IsByte, IsRead, Sound, bind-ok, pure-ok}
use borsh_rs.Encoding.{encode_u8, encode_seq, encode_items, IsUint, SeqValid}
use package.borsh_rs.De.{Target, read_exact_or}
use package.borsh_rs.De.Laws.{not_ok, read_exact_or-ok}
use package.borsh_rs.De.FillVec.{vec_from_reader_u8-returns}
use package.borsh_rs.De.Ends.{vec_from_reader_u8-short}
use package.borsh_rs.De.SoundItems.{SoundHook, HookValid, encode_hook, deserialize_vec-Sound}
use package.borsh_rs.De.Sound.{deserialize_u8-Sound}
use package.borsh_rs.De.Bytes.{array_from_reader_u8, vec_from_reader_u8, u8_de}
use package.borsh_rs.De.Containers.{deserialize_vec, deserialize_string}

encode_u8_items : (xs : List ℕ) → encode_items encode_u8 xs ≡ xs
encode_u8_items [] = refl
encode_u8_items (x ∷ xs) = ap (λ z. x ∷ z) (encode_u8_items xs)

All-IsUint : (xs : List ℕ) → All IsByte xs → All (IsUint 1) xs
All-IsUint [] h = tt
All-IsUint (x ∷ xs) h = (omega arith, All-IsUint xs h.1)

module _ {R : Type 0} ⦃rd : Read R⦄ {view : R → List ℕ} (law : IsRead rd view) (t : Target) where
  -- What a successful `vec_from_reader` returned.
  bytes-ok :
      (n : ℕ) (s : R) (o : Option (List ℕ)) (s' : R)
      → n ≤ t.usize_max
      → vec_from_reader_u8 t n s ≡ (ok o, s')
      → (bytes : List ℕ) × (some bytes ≡ o) × (length bytes ≡ n) × (view s ≡ bytes ++ view s')
  bytes-ok n s o s' fits h = elim (Bool-cases (ltb (length (view s)) n)) [
    | inl short ↦
        let (s₁, e) = vec_from_reader_u8-short t law n s fits (ltb→lt _ _ short) in
        absurd (not_ok (sym e ∙ h))
    | inr enough ↦
        let bytes : List ℕ = take n (view s) in
        let len : length bytes ≡ n = omega (arith, length-take n (view s), ltb→le _ _ enough) in
        let rest : List ℕ = drop n (view s) in
        let v : view s ≡ bytes ++ rest = sym (take-append-drop n (view s)) in
        let (s₁, e, left) = vec_from_reader_u8-returns t law n bytes rest s fits len v in
        let (p, q) = pure-ok (sym e ∙ h) in
        let r : rest ≡ view s' = sym left ∙ ap view q in (bytes, p, len, v ∙ ap (λ z. bytes ++ z) r)
  ]

  fits-ok :
      (n : ℕ) (s : R) (o : Option (List ℕ)) (s' : R)
      → vec_from_reader_u8 t n s ≡ (ok o, s')
      → n ≤ t.usize_max
  unfolding vec_from_reader_u8
  fits-ok n s o s' h = elim (Bool-cases (leb n t.usize_max)) [
    | inl fits ↦ leb→le _ _ fits
    | inr big ↦ absurd (not_ok (rw big at h))
  ]

  pub vec_from_reader_u8-Sound :
      SoundHook law
        (u8_de t)
        {Valid = IsUint 1}
        {enc = encode_u8}
        (deserialize_u8-Sound law)
        (vec_from_reader_u8 t)
  vec_from_reader_u8-Sound = inr λ n. record {
    consumed = λ s o s' bytes h.
        let (xs, p, len, v) = bytes-ok n s o s' (fits-ok n s o s' h) h in
        let good = All-append_left IsByte xs (view s') (subst (All IsByte) v bytes) in
        let same : encode_items encode_u8 xs
            ≡ encode_hook law (u8_de t) (deserialize_u8-Sound law) o =
          ap (encode_hook law (u8_de t) (deserialize_u8-Sound law)) p in
        (
          cc (encode_u8_items xs),
          subst (HookValid law (u8_de t) (deserialize_u8-Sound law) n) p (len, All-IsUint xs good),
        );
  }

  -- The bytes of an array.
  pub array_from_reader_u8-Sound :
      SoundHook law
        (u8_de t)
        {Valid = IsUint 1}
        {enc = encode_u8}
        (deserialize_u8-Sound law)
        (array_from_reader_u8 t)
  unfolding array_from_reader_u8
  array_from_reader_u8-Sound = inr λ n. record {
    consumed = λ s o s' bytes h.
        let (xs, s₁, e, k) = bind-ok (read_exact_or n) _ s h in
        let (v, len) = read_exact_or-ok law n s e in
        let (p, q) = pure-ok k in
        let good = All-append_left IsByte xs (view s₁) (subst (All IsByte) v bytes) in
        let r : view s₁ ≡ view s' = ap view q in
        let same : encode_items encode_u8 xs
            ≡ encode_hook law (u8_de t) (deserialize_u8-Sound law) o =
          ap (encode_hook law (u8_de t) (deserialize_u8-Sound law)) p in
        (
          cc (encode_u8_items xs),
          subst (HookValid law (u8_de t) (deserialize_u8-Sound law) n) p (len, All-IsUint xs good),
        );
  }

  -- A vector of bytes.
  pub deserialize_bytes-Sound :
      Sound view (deserialize_vec (u8_de t) t) (SeqValid (IsUint 1)) (encode_seq encode_u8)
  deserialize_bytes-Sound =
      deserialize_vec-Sound law (u8_de t) (deserialize_u8-Sound law) vec_from_reader_u8-Sound
        (λ e. absurd (omega arith)) t

  -- A string.
  pub deserialize_string-Sound :
      (utf8_error : List ℕ → String)
      → Sound view
          (deserialize_string utf8_error t)
          (λ bytes. SeqValid (IsUint 1) bytes × (is_utf8 bytes ≡ true))
          (encode_seq encode_u8)
  unfolding deserialize_string
  deserialize_string-Sound utf8_error = record {
    consumed = λ s a s' bytes h.
        let (xs, s₁, e, k) = bind-ok (deserialize_vec (u8_de t) t) _ s h in
        let (v, good) = deserialize_bytes-Sound.consumed s xs s₁ bytes e in
        let (text, p, q) = text-ok (is_utf8 xs) _ xs k in
        let r : view s₁ ≡ view s' = ap view q in
        (
          cc (ap (encode_seq encode_u8) p),
          subst (λ z. SeqValid (IsUint 1) z × (is_utf8 z ≡ true)) p (good, text),
        );
  }
    where
      text-ok :
          (b : Bool) (x : Error) (n : List ℕ) {a : List ℕ} {s₁ s' : R}
          → (if b then pure n else fail x) s₁ ≡ (ok a, s')
          → (b ≡ true) × (n ≡ a) × (s₁ ≡ s')
      text-ok true x n h = let (p, q) = pure-ok h in (refl, p, q)
      text-ok false x n h = absurd (not_ok h)
