-- ===== src/De/Compose.antt =====
-- borsh/src/de/mod.rs: `Range`, `Option`, `Result`, vectors, arrays, tuples and strings read back
-- the encodings of their values if their components do.
use borsh_rs.Prelude.{
  ℕ, ◌+◌, ◌≤◌, ◌^◌, ◌≡◌, refl, inl, inr, false, List, [], ◌∷◌, Option, none, some, concat_map, All,
  length, replicate, arith, ◌==◌, le→leb, Bool-cases, ==_iff,
}
use borsh_rs.Io.{Read, pure, ◌>>=◌}
use borsh_rs.Io.Laws.{IsRead, Reads, Reads-map, Reads-bind, Reads-pure}
use borsh_rs.Ser.Containers.{Range, CoreResult, done, error}
use borsh_rs.Encoding.{
  encode_range, encode_option, encode_result, encode_items, encode_seq, encode_pair, RangeValid,
  OptionValid, ResultValid, SeqValid, ArrayValid, PairValid,
}
use package.borsh_rs.De.{BorshDeserialize, Target}
use package.borsh_rs.De.Laws.{IsDeserialize}
use package.borsh_rs.De.Reads.{deserialize_u8-Reads, deserialize_uint-Reads, plain-IsDeserialize}
use package.borsh_rs.De.Primitives.{deserialize_u8, deserialize_uint}
use package.borsh_rs.De.Bytes.{usize_of_u32}
use package.borsh_rs.De.Containers.{
  vec_de, deserialize_range, deserialize_option, option_of_tag, deserialize_result, result_of_tag,
  deserialize_items, deserialize_elements, or_elements, deserialize_vec, deserialize_array,
  deserialize_tuple,
}

module _ {R : Type 0} ⦃rd : Read R⦄ {view : R → List ℕ} (law : IsRead rd view) where
  module _ {T : Type 0} {d : BorshDeserialize R T} {Valid : T → Type 0} {enc : T → List ℕ}
      (h : IsDeserialize view d Valid enc) where
    pub deserialize_range-Reads :
        (r : Range T) → RangeValid Valid r → Reads view (deserialize_range d) r (encode_range enc r)
    unfolding deserialize_range
    deserialize_range-Reads r (v, v') =
        Reads-bind d.deserialize_reader _ (h.reads r.start v)
          (Reads-map d.deserialize_reader _ (h.reads r.stop v') (λ s. refl))

    pub deserialize_option-Reads :
        (x : Option T)
        → OptionValid Valid x
        → Reads view (deserialize_option d) x (encode_option enc x)
    unfolding deserialize_option
    deserialize_option-Reads none v =
        Reads-map deserialize_u8 (option_of_tag d) (deserialize_u8-Reads law 0) (λ s. refl)
    deserialize_option-Reads (some x) v =
        Reads-bind deserialize_u8 (option_of_tag d) (deserialize_u8-Reads law 1)
          (Reads-map d.deserialize_reader _ (h.reads x v) (λ s. refl))

    pub deserialize_result-Reads :
        {E : Type 0} {d' : BorshDeserialize R E} {Valid' : E → Type 0} {enc' : E → List ℕ}
        → IsDeserialize view d' Valid' enc'
        → (x : CoreResult T E) → ResultValid Valid Valid' x
        → Reads view (deserialize_result d d') x (encode_result enc enc' x)
    unfolding deserialize_result
    deserialize_result-Reads {d'} h' (error e) v =
        Reads-bind deserialize_u8 (result_of_tag d d') (deserialize_u8-Reads law 0)
          (Reads-map d'.deserialize_reader _ (h'.reads e v) (λ s. refl))
    deserialize_result-Reads {d'} h' (done x) v =
        Reads-bind deserialize_u8 (result_of_tag d d') (deserialize_u8-Reads law 1)
          (Reads-map d.deserialize_reader _ (h.reads x v) (λ s. refl))

    pub deserialize_items-Reads :
        (xs : List T)
        → All Valid xs
        → Reads view (deserialize_items d (length xs)) xs (encode_items enc xs)
    unfolding deserialize_items
    deserialize_items-Reads [] v = Reads-pure []
    deserialize_items-Reads (x ∷ xs) v =
        Reads-bind d.deserialize_reader _ (h.reads x v.0) (
          Reads-map (deserialize_items d (length xs)) _ (deserialize_items-Reads xs v.1)
            (λ s. refl))

    -- Of a type with one value and no bytes all lists of a length are the same.
    one_list :
        ((x y : T) → Valid x → Valid y → (enc x ≡ []) × (x ≡ y))
        → (x : T) (xs : List T) → Valid x
        → All Valid xs
        → (replicate (length xs) x ≡ xs) × (concat_map enc xs ≡ [])
    one_list one x [] v vs = (refl, refl)
    one_list one x (y ∷ ys) v vs =
        let (p, q) = one_list one x ys v vs.1 in
        let same : x ≡ y = (one x y v vs.0).1 in (cc, rw ((one y y vs.0 vs.0).0, q) refl)

    -- The value of a type of size 0, as often as the length says.
    copies-Reads :
        (t : Target) (x : T) (xs : List T)
        → length (x ∷ xs) ≤ t.usize_max
        → d.size_of ≡ 0
        → All Valid (x ∷ xs)
        → Reads view
            (usize_of_u32 t (length (x ∷ xs)) >>= (λ n. pure (replicate n x)))
            (x ∷ xs)
            (concat_map enc xs)
    copies-Reads t x xs fits zst v =
        let (p, q) = one_list (h.one_value zst) x xs v.0 v.1 in
        record {
          takes =
              λ s rest w. (s, rw (le→leb (length (x ∷ xs)) t.usize_max fits, p) refl, rw q at w);
        }

    pub deserialize_elements-Reads :
        (t : Target) (x : T) (xs : List T)
        → length (x ∷ xs) ≤ t.usize_max
        → All Valid (x ∷ xs)
        → Reads view
            (deserialize_elements d t (length (x ∷ xs)))
            (x ∷ xs)
            (encode_items enc (x ∷ xs))
    unfolding deserialize_elements
    deserialize_elements-Reads t x xs fits v = elim (Bool-cases (d.size_of == 0)) [
      | inl e ↦
          rw (e, deserialize_elements)
            (Reads-bind d.deserialize_reader _ (h.reads x v.0)
              (copies-Reads t x xs fits ((==_iff _ _).0 e) v))
      | inr e ↦ rw (e, deserialize_elements) (deserialize_items-Reads (x ∷ xs) v)
    ]

    -- The part of a vector behind the length: by the hook, or by the elements.
    vec_body-Reads :
        (t : Target) (x : T) (xs : List T)
        → length (x ∷ xs) ≤ t.usize_max
        → SeqValid Valid (x ∷ xs)
        → Reads view
            (d.vec_from_reader (length (x ∷ xs)) >>= or_elements d t (length (x ∷ xs)))
            (x ∷ xs)
            (encode_items enc (x ∷ xs))
    vec_body-Reads t x xs fits v = elim h.vec_hook [
      | inl off ↦ record {
        takes = λ s rest w. rw off ((deserialize_elements-Reads t x xs fits v.1).takes s rest w);
      }
      | inr on ↦ Reads-map (d.vec_from_reader (length (x ∷ xs))) _ (on (x ∷ xs) v.0 v.1) (λ s. refl)
    ]

    pub deserialize_vec-Reads :
        (t : Target) (xs : List T)
        → 2 ^ 32 ≤ t.usize_max + 1
        → SeqValid Valid xs
        → Reads view (deserialize_vec d t) xs (encode_seq enc xs)
    unfolding deserialize_vec
    deserialize_vec-Reads t [] w v =
        Reads-bind (deserialize_uint 4) _ (deserialize_uint-Reads law 4 0 (omega arith))
          (Reads-pure [])
    deserialize_vec-Reads t (x ∷ xs) w v =
        let some_length : (length (x ∷ xs) == 0) ≡ false = ground arith in
        Reads-bind (deserialize_uint 4) _
          (deserialize_uint-Reads law 4 (length (x ∷ xs)) (omega (arith, v.0)))
          (rw some_length (vec_body-Reads t x xs (omega (arith, v.0)) v))

    pub deserialize_array-Reads :
        (n : ℕ) (xs : List T)
        → ArrayValid Valid n xs
        → Reads view (deserialize_array d n) xs (encode_items enc xs)
    unfolding deserialize_array
    deserialize_array-Reads n xs v = elim h.array_hook [
      | inl off ↦ record {
        takes = λ s rest w. rw (off, ← v.0) ((deserialize_items-Reads xs v.1).takes s rest w);
      }
      | inr on ↦
          rw (← v.0) (Reads-map (d.array_from_reader (length xs)) _ (on xs tt v.1) (λ s. refl))
    ]

    pub deserialize_tuple-Reads :
        {U : Type 0} {d' : BorshDeserialize R U} {Valid' : U → Type 0} {enc' : U → List ℕ}
        → IsDeserialize view d' Valid' enc'
        → (p : T × U) → PairValid Valid Valid' p
        → Reads view (deserialize_tuple d d') p (encode_pair enc enc' p)
    unfolding deserialize_tuple
    deserialize_tuple-Reads {d'} h' (x, y) (v, v') =
        Reads-bind d.deserialize_reader _ (h.reads x v)
          (Reads-map d'.deserialize_reader _ (h'.reads y v') (λ s. refl))

    pub vec_de-IsDeserialize :
        (t : Target)
        → 2 ^ 32 ≤ t.usize_max + 1
        → IsDeserialize view (vec_de d t) (SeqValid Valid) (encode_seq enc)
    vec_de-IsDeserialize t wide =
        plain-IsDeserialize law _ 24 (omega arith) (λ xs v. deserialize_vec-Reads t xs wide v)
