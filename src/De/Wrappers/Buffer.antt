-- ===== src/De/Wrappers/Buffer.antt =====
-- borsh/src/de/mod.rs: `BytesMut`, which is read byte by byte, against `Vec<u8>`.
use borsh_rs.Prelude.{
  ℕ, zero, suc, ◌+◌, ◌≤◌, ◌<◌, ◌^◌, ◌≡◌, refl, sym, ap, ◌∙◌, inl, inr, List, [], ◌∷◌, ◌++◌,
  append-nil, append_assoc, All, length, take, drop, length-take, take-append-drop, arith, ltb,
  ltb→lt, ltb→le, Bool-cases, false, Option, ◌==◌, if◌then◌else◌,
}
use borsh_rs.Io.{
  Read, Result, ok, err, panicked, out_of_fuel, custom, invalid_input, and_then, pure, ◌>>=◌,
}
use borsh_rs.Io.Laws.{IsByte, IsRead}
use package.borsh_rs.De.{Target, unexpected_length_of_input}
use package.borsh_rs.De.Laws.{read_exact_or-IsError}
use package.borsh_rs.De.Primitives.{deserialize_u8, deserialize_uint}
use package.borsh_rs.De.Bytes.{cautious, vec_from_reader_u8, u8_de}
use package.borsh_rs.De.Containers.{deserialize_vec, or_elements}
use package.borsh_rs.De.Reads.{deserialize_u8-Reads}
use package.borsh_rs.De.Sound.{deserialize_uint-Sound}
use package.borsh_rs.De.FillVec.{vec_from_reader_u8-returns}
use package.borsh_rs.De.Ends.{vec_from_reader_u8-short}
use package.borsh_rs.De.Wrappers.{BytesMut, put_bytes, deserialize_bytes_mut}

-- The documented behaviour of `BytesMut`.
pub record IsBytesMut {B : Type 0} (bytes : BytesMut B) : Type 0 where
  pub starts_empty : (n : ℕ) → bytes.as_ref (bytes.with_capacity n) ≡ []
  pub puts : (out : B) (b : ℕ) → bytes.as_ref (bytes.put_u8 out b) ≡ bytes.as_ref out ++ (b ∷ [])

abbrev pub map_ok : {A B : Type 0} → (A → B) → Result A → Result B
map_ok f (ok a) = ok (f a)
map_ok f (err e) = err e
map_ok f panicked = panicked
map_ok f out_of_fuel = out_of_fuel

module _ {R : Type 0} ⦃rd : Read R⦄ {view : R → List ℕ} (law : IsRead rd view) {B : Type 0}
    {bytes : BytesMut B} (buf : IsBytesMut bytes) where
  put_bytes-full :
      (xs rest : List ℕ) (out : B) (s : R)
      → view s ≡ xs ++ rest
      → (out' : B) × (s' : R) × (put_bytes bytes (length xs) out s ≡ (ok out', s'))
        × (bytes.as_ref out' ≡ bytes.as_ref out ++ xs)
  unfolding put_bytes
  put_bytes-full [] rest out s v = (out, s, refl, rw append-nil refl)
  put_bytes-full (x ∷ xs) rest out s v =
      let (s₁, e, v₁) = (deserialize_u8-Reads law x).takes s (xs ++ rest) v in
      let (out', s', e', same) = put_bytes-full xs rest (bytes.put_u8 out x) s₁ v₁ in
      (out', s', rw e e', same ∙ rw (buf.puts out x) (append_assoc (bytes.as_ref out) (x ∷ []) xs))

  put_bytes-short :
      (n : ℕ) (out : B) (xs : List ℕ) (s : R)
      → view s ≡ xs
      → length xs < n
      → (s' : R) × (put_bytes bytes n out s
          ≡ (err (custom invalid_input unexpected_length_of_input), s'))
  unfolding put_bytes deserialize_u8
  put_bytes-short zero out xs s v h = absurd (omega arith)
  put_bytes-short (suc n) out [] s v h =
      let (s', e) = read_exact_or-IsError law 1 s (rw v (omega arith)) in (s', rw e refl)
  put_bytes-short (suc n) out (x ∷ xs) s v h =
      let (s₁, e, v₁) = (deserialize_u8-Reads law x).takes s xs v in
      let (s', e') = put_bytes-short n (bytes.put_u8 out x) xs s₁ v₁ (omega arith) in (s', rw e e')

  module _ (t : Target) (wide : 2 ^ 32 ≤ t.usize_max + 1) where
    -- What the two do behind the length.
    abbrev rest_of_buffer : ℕ → ℕ → R → Result (List ℕ)
    rest_of_buffer capacity len s =
        map_ok bytes.as_ref (put_bytes bytes len (bytes.with_capacity capacity) s).0

    abbrev rest_of_vec : ℕ → R → Result (List ℕ)
    rest_of_vec len s =
        ((if len == 0 then pure [] else vec_from_reader_u8 t len >>= or_elements (u8_de t) t len)
          s).0

    vec_read :
        (n : ℕ) (s : R) (r : Result (Option (List ℕ)) × R)
        → vec_from_reader_u8 t (suc n) s ≡ r
        → rest_of_vec (suc n) s ≡ (and_then r (or_elements (u8_de t) t (suc n))).0
    vec_read n s r e =
        let some_bytes : (suc n == 0) ≡ false = ground arith in
        ap
          (λ b.
            ((if b
                then pure {S = R} []
                else vec_from_reader_u8 t (suc n) >>= or_elements (u8_de t) t (suc n))
              s).0)
          some_bytes
        ∙ ap (λ z. (and_then z (or_elements (u8_de t) t (suc n))).0) e

    same_bytes :
        (capacity n : ℕ) (xs rest : List ℕ) (s : R)
        → suc n ≤ t.usize_max
        → length xs ≡ suc n
        → view s ≡ xs ++ rest
        → rest_of_buffer capacity (suc n) s ≡ rest_of_vec (suc n) s
    same_bytes capacity n xs rest s fits len v =
        let (out, s₁, e, same) = put_bytes-full xs rest (bytes.with_capacity capacity) s v in
        let (s₂, e', v') = vec_from_reader_u8-returns t law (suc n) xs rest s fits len v in
        let e₁ = rw len at e in
        rw e₁ (ap ok (same ∙ rw (buf.starts_empty capacity) refl)) ∙ sym (vec_read n s _ e')

    same_error :
        (capacity n : ℕ) (s : R)
        → suc n ≤ t.usize_max
        → length (view s) < suc n
        → rest_of_buffer capacity (suc n) s ≡ rest_of_vec (suc n) s
    same_error capacity n s fits short =
        let (s₁, e) =
          put_bytes-short (suc n) (bytes.with_capacity capacity) (view s) s refl short in
        let (s₂, e') = vec_from_reader_u8-short t law (suc n) s fits short in
        ap (λ r. map_ok bytes.as_ref r.0) e ∙ sym (vec_read n s _ e')

    same_rest :
        (capacity len : ℕ) (s : R)
        → len ≤ t.usize_max
        → rest_of_buffer capacity len s ≡ rest_of_vec len s
    same_rest capacity zero s fits = unfold put_bytes in (ap ok (buf.starts_empty capacity))
    same_rest capacity (suc n) s fits = elim (Bool-cases (ltb (length (view s)) (suc n))) [
      | inl short ↦ same_error capacity n s fits (ltb→lt _ _ short)
      | inr enough ↦
          same_bytes capacity n (take (suc n) (view s)) (drop (suc n) (view s)) s fits
            (omega (arith, length-take (suc n) (view s), ltb→le _ _ enough))
            (sym (take-append-drop (suc n) (view s)))
    ]

    same_calls :
        (r : Result ℕ × R) (capacity : ℕ → ℕ)
        → ((len : ℕ) (s : R) → r ≡ (ok len, s) → len ≤ t.usize_max)
        → map_ok bytes.as_ref
            (and_then r (λ len. put_bytes bytes len (bytes.with_capacity (capacity len)))).0
          ≡ (and_then r (λ len.
              if len == 0
              then pure []
              else vec_from_reader_u8 t len >>= or_elements (u8_de t) t len)).0
    same_calls (ok len, s) capacity small = same_rest (capacity len) len s (small len s refl)
    same_calls (err e, s) capacity small = refl
    same_calls (panicked, s) capacity small = refl
    same_calls (out_of_fuel, s) capacity small = refl

    -- Over any reader that keeps its contract, on a platform of 32 bits or more, a
    -- `BytesMut`, which is filled byte by byte, is read as a `Vec<u8>` is, which is read at
    -- once: with the same bytes, or the same error. Its `put_u8` must append a byte and its
    -- `with_capacity` give an empty buffer.
    pub deserialize_bytes_mut-deserialize_vec :
        (s : R)
        → All IsByte (view s)
        → map_ok bytes.as_ref (deserialize_bytes_mut bytes s).0 ≡ (deserialize_vec (u8_de t) t s).0
    unfolding deserialize_bytes_mut deserialize_vec
    deserialize_bytes_mut-deserialize_vec s good =
        same_calls (deserialize_uint 4 s) (cautious 1) λ len s₁ e.
          let (v, small) = (deserialize_uint-Sound law 4).consumed s len s₁ good e in omega arith
