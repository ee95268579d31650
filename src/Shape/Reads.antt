-- ===== src/Shape/Reads.antt =====
-- borsh/src/de/mod.rs: the implementation for each shape reads the encoding back.
use borsh_rs.Prelude.{
  ℕ, zero, suc, ◌*◌, ◌≡◌, ◌≢◌, ◌⊎◌, refl, sym, ◌∙◌, inl, inr, Bool, true, false, ◌&&◌, ◌||◌, List,
  [], ◌∷◌, All, length, arith, ◌==◌, Bool-cases, ==_iff,
}
use borsh_rs.Io.{Read}
use borsh_rs.Io.Laws.{IsRead, Reads}
use borsh_rs.Ser.Containers.{Range}
use borsh_rs.Ser.Primitives.{is_nan32, is_nan64}
use borsh_rs.Encoding.{encode_items}
use borsh_rs.De.Laws.{IsDeserialize}
use borsh_rs.De.Primitives.{plain_de}
use borsh_rs.De.Reads.{
  uint_de-IsDeserialize, int_de-IsDeserialize, bool_de-IsDeserialize, unit_de-IsDeserialize,
  deserialize_nonzero-Reads, deserialize_usize-Reads, deserialize_isize-Reads,
  deserialize_float-Reads, deserialize_uint-Reads,
}
use borsh_rs.De.Compose.{
  deserialize_range-Reads, deserialize_option-Reads, deserialize_result-Reads, vec_de-IsDeserialize,
  deserialize_array-Reads, deserialize_tuple-Reads,
}
use borsh_rs.De.ByteStrings.{u8_de-IsDeserialize, deserialize_string-Reads}
use package.borsh_rs.Shape.{
  Shape, u8, usize, isize, f32, f64, bool, unit, string, uint, int, nonzero, range, option, vec,
  array, result, pair, El, encode, IsValid, bytes, Platform, IsPlatform, de, zero_sized,
}

&&-true : (b c : Bool) → (b && c) ≡ true → (b ≡ true) × (c ≡ true)
&&-true true c h = (refl, h)
&&-true false c h = absurd (cc)

||-true : (b c : Bool) → (b || c) ≡ true → (b ≡ true) ⊎ (c ≡ true)
||-true true c h = inl refl
||-true false c h = inr h

no_product : (n k : ℕ) → n ≢ 0 → n * k ≡ 0 → k ≡ 0
no_product zero k n_more h = absurd (n_more refl)
no_product (suc n) zero n_more h = refl
no_product (suc n) (suc k) n_more h = absurd (omega arith)

module _ (R : Type 0) ⦃rd : Read R⦄ (p : Platform) (plat : IsPlatform p) where
  -- Only a type of size 0 has size 0.
  pub size_of-zero_sized : (a : Shape) → (de {R = R} p a).size_of ≡ 0 → zero_sized a ≡ true
  size_of-zero_sized u8 h = absurd (omega arith)
  size_of-zero_sized usize h = absurd (omega arith)
  size_of-zero_sized isize h = absurd (omega arith)
  size_of-zero_sized f32 h = absurd (omega arith)
  size_of-zero_sized f64 h = absurd (omega arith)
  size_of-zero_sized bool h = absurd (omega arith)
  size_of-zero_sized unit h = refl
  size_of-zero_sized string h = absurd (omega arith)
  size_of-zero_sized (uint w) h = absurd (omega arith)
  size_of-zero_sized (int w) h = absurd (omega arith)
  size_of-zero_sized (nonzero w) h = absurd (omega arith)
  size_of-zero_sized (range a) h = size_of-zero_sized a (omega arith)
  size_of-zero_sized (option a) h = plat.sized (option a) h
  size_of-zero_sized (vec a) h = absurd (omega arith)
  size_of-zero_sized (array n a) h = elim (Bool-cases (n == 0)) [
    | inl e ↦ rw e refl
    | inr e ↦
        let more : n ≢ 0 = λ z. cc ((==_iff n 0).1 z) in
        rw (e, size_of-zero_sized a (no_product n _ more h)) refl
  ]
  size_of-zero_sized (result a b) h = plat.sized (result a b) h
  size_of-zero_sized (pair a b) h = plat.sized (pair a b) h

-- Lists of one value that has no bytes, and of one length.
one_list :
    {T : Type 0} {Valid : T → Type 0} {enc : T → List ℕ}
    → ((x y : T) → Valid x → Valid y → (enc x ≡ []) × (x ≡ y))
    → (xs ys : List T) → All Valid xs
    → All Valid ys
    → length xs ≡ length ys
    → (encode_items enc xs ≡ []) × (xs ≡ ys)
one_list one [] [] v w h = (refl, refl)
one_list one [] (y ∷ ys) v w h = absurd (omega arith)
one_list one (x ∷ xs) [] v w h = absurd (omega arith)
one_list one (x ∷ xs) (y ∷ ys) v w h =
    let (p, q) = one_list one xs ys v.1 w.1 (omega arith) in
    let (e, same) = one x y v.0 w.0 in (rw (e, p) refl, cc)

no_items :
    {T : Type 0} (enc : T → List ℕ) (xs ys : List T)
    → length xs ≡ 0
    → length ys ≡ 0
    → (encode_items enc xs ≡ []) × (xs ≡ ys)
no_items enc [] [] v w = (refl, refl)
no_items enc (x ∷ xs) ys v w = absurd (omega arith)
no_items enc [] (y ∷ ys) v w = absurd (omega arith)

-- A type of size 0 has one value, and no bytes.
same_range : {T : Type 0} {r r' : Range T} → r.start ≡ r'.start → r.stop ≡ r'.stop → r ≡ r'
same_range p q = λ i. record { start = p i; stop = q i }

same_pair : {T U : Type 0} {x y : T × U} → x.0 ≡ y.0 → x.1 ≡ y.1 → x ≡ y
same_pair p q = λ i. (p i, q i)

pub zero_sized-one :
    (t : _) (a : Shape)
    → zero_sized a ≡ true
    → (x y : El a) → IsValid t a x
    → IsValid t a y
    → (encode a x ≡ []) × (x ≡ y)
zero_sized-one t unit h x y v w = (refl, refl)
zero_sized-one t (range a) h x y v w =
    let (e₁, p) = zero_sized-one t a h x.start y.start v.0 w.0 in
    let (e₂, q) = zero_sized-one t a h x.stop y.stop v.1 w.1 in (rw (e₁, e₂) refl, same_range p q)
zero_sized-one t (array n a) h x y v w = elim (||-true (n == 0) (zero_sized a) h) [
  | inl e ↦ no_items (encode a) x y (v.0 ∙ (==_iff n 0).0 e) (w.0 ∙ (==_iff n 0).0 e)
  | inr e ↦ one_list (zero_sized-one t a e) x y v.1 w.1 (v.0 ∙ sym w.0)
]
zero_sized-one t (pair a b) h x y v w =
    let (ha, hb) = &&-true (zero_sized a) (zero_sized b) h in
    let (e₁, p) = zero_sized-one t a ha x.0 y.0 v.0 w.0 in
    let (e₂, q) = zero_sized-one t b hb x.1 y.1 v.1 w.1 in (rw (e₁, e₂) refl, same_pair p q)
zero_sized-one t u8 h x y v w = absurd (cc)
zero_sized-one t usize h x y v w = absurd (cc)
zero_sized-one t isize h x y v w = absurd (cc)
zero_sized-one t f32 h x y v w = absurd (cc)
zero_sized-one t f64 h x y v w = absurd (cc)
zero_sized-one t bool h x y v w = absurd (cc)
zero_sized-one t string h x y v w = absurd (cc)
zero_sized-one t (uint z) h x y v w = absurd (cc)
zero_sized-one t (int z) h x y v w = absurd (cc)
zero_sized-one t (nonzero z) h x y v w = absurd (cc)
zero_sized-one t (option a) h x y v w = absurd (cc)
zero_sized-one t (vec a) h x y v w = absurd (cc)
zero_sized-one t (result a b) h x y v w = absurd (cc)

module _ {R : Type 0} ⦃rd : Read R⦄ {view : R → List ℕ} (law : IsRead rd view) (p : Platform)
    (plat : IsPlatform p) where
  -- An implementation that keeps the provided hooks, for a type that may have size 0.
  plain :
      (a : Shape) (m : _) (size : ℕ)
      → (size ≡ 0 → zero_sized a ≡ true)
      → ((x : El a) → IsValid p.target a x → Reads view m x (encode a x))
      → IsDeserialize view (plain_de m size) (IsValid p.target a) (encode a)
  plain a m size sized h = record {
    reads = h;
    vec_hook = inl (λ n s. refl);
    array_hook = inl (λ n s. refl);
    one_value = λ e. zero_sized-one p.target a (sized e);
  }

  pub de-IsDeserialize : (a : Shape) → IsDeserialize view (de p a) (IsValid p.target a) (encode a)
  de-IsDeserialize u8 = u8_de-IsDeserialize law p.target plat.wide
  de-IsDeserialize usize =
      plain usize _ 8 (λ e. absurd (omega arith))
        (λ x v. deserialize_usize-Reads law p.target x v.0 v.1)
  de-IsDeserialize isize =
      plain isize _ 8 (λ e. absurd (omega arith))
        (λ x v. deserialize_isize-Reads law p.target x v.0 v.1)
  de-IsDeserialize f32 =
      plain f32 _ 4 (λ e. absurd (omega arith))
        (λ x v. deserialize_float-Reads law is_nan32 4 x v.0 v.1)
  de-IsDeserialize f64 =
      plain f64 _ 8 (λ e. absurd (omega arith))
        (λ x v. deserialize_float-Reads law is_nan64 8 x v.0 v.1)
  de-IsDeserialize bool = bool_de-IsDeserialize law
  de-IsDeserialize unit = unit_de-IsDeserialize law
  de-IsDeserialize string =
      plain string _ 24 (λ e. absurd (omega arith))
        (λ x v. deserialize_string-Reads law p.target plat.wide p.utf8_error x v.0 v.1)
  de-IsDeserialize (uint w) = uint_de-IsDeserialize law (bytes w) (omega arith)
  de-IsDeserialize (int w) = int_de-IsDeserialize law (bytes w) (omega arith)
  de-IsDeserialize (nonzero w) =
      plain (nonzero w) _ (bytes w) (λ e. absurd (omega arith))
        (λ x v.
          deserialize_nonzero-Reads law _ (λ u. u == 0) x _
            (deserialize_uint-Reads law (bytes w) x v.0) v.1)
  de-IsDeserialize (range a) =
      plain (range a) _ _ (size_of-zero_sized R p plat (range a))
        (deserialize_range-Reads law (de-IsDeserialize a))
  de-IsDeserialize (option a) =
      plain (option a) _ _ (plat.sized (option a))
        (deserialize_option-Reads law (de-IsDeserialize a))
  de-IsDeserialize (vec a) = vec_de-IsDeserialize law (de-IsDeserialize a) p.target plat.wide
  de-IsDeserialize (array n a) =
      plain (array n a) _ _ (size_of-zero_sized R p plat (array n a))
        (deserialize_array-Reads law (de-IsDeserialize a) n)
  de-IsDeserialize (result a b) =
      plain (result a b) _ _ (plat.sized (result a b))
        (deserialize_result-Reads law (de-IsDeserialize a) (de-IsDeserialize b))
  de-IsDeserialize (pair a b) =
      plain (pair a b) _ _ (plat.sized (pair a b))
        (deserialize_tuple-Reads law (de-IsDeserialize a) (de-IsDeserialize b))
