-- ===== src/Schema/Trees.antt =====
-- borsh/src/schema.rs: a declaration as a tree of words. The text of a tree determines the tree.
use Prim.Native.String.{String, ◌++◌ as str_append}
use borsh_rs.Prelude.{
  ℕ, ◌≡◌, refl, sym, ap, ◌∙◌, inl, inr, true, false, List, [], ◌∷◌, ◌++◌, append-nil, append_assoc,
  arith,
}
use package.borsh_rs.Schema.{Declaration, applied, join}
use package.borsh_rs.Schema.Letters.{
  codes, codes-append, codes_inj, is_plain, IsWord, Stops, Breaks, Stops-Breaks, word_split, Starts,
  Starts-append,
}

mutual
  pub data Tree : Type 0 where
    bare : String → Tree
    node : String → Trees → Tree

  pub data Trees : Type 0 where
    nil : Trees
    cons : Tree → Trees → Trees

unfoldable mutual
  unfolding applied join

  pub name : Tree → Declaration
  name (bare s) = s
  name (node s ts) = applied s (join (names ts))

  pub names : Trees → List Declaration
  names nil = []
  names (cons t ts) = name t ∷ names ts

-- The letters of the name, of the arguments, and of those behind the first.
unfoldable mutual
  pub letters : Tree → List ℕ
  letters (bare s) = codes s
  letters (node s ts) = codes s ++ (b'<' ∷ (args ts ++ (b'>' ∷ [])))

  pub args : Trees → List ℕ
  args nil = []
  args (cons t ts) = letters t ++ more ts

  pub more : Trees → List ℕ
  more nil = []
  more (cons t ts) = b',' ∷ b' ' ∷ (letters t ++ more ts)

mutual
  unfolding name names letters args more

  codes-name : (t : Tree) → codes (name t) ≡ letters t
  codes-name (bare s) = refl
  codes-name (node s ts) =
      rw
        (
          codes-append s (str_append "<" (str_append (join (names ts)) ">")),
          codes-append "<" (str_append (join (names ts)) ">"),
          codes-append (join (names ts)) ">",
          codes-join ts,
        )
        refl

  codes-join : (ts : Trees) → codes (join (names ts)) ≡ args ts
  codes-join nil = refl
  codes-join (cons t ts) = codes-more ts (name t) ∙ ap (λ z. z ++ more ts) (codes-name t)

  codes-more : (ts : Trees) (x : Declaration) → codes (join (x ∷ names ts)) ≡ codes x ++ more ts
  codes-more nil x = sym (append-nil (codes x))
  codes-more (cons u us) x =
      rw
        (
          codes-append x (str_append ", " (join (name u ∷ names us))),
          codes-append ", " (join (name u ∷ names us)),
          codes-more us (name u),
          codes-name u,
        )
        refl

-- A word that is not empty.
abbrev pub IsName : String → Type 0
IsName s = Starts (codes s) × IsWord (codes s)

unfoldable mutual
  pub IsDeclaration : Tree → Type 0
  IsDeclaration (bare s) = IsName s
  IsDeclaration (node s ts) = IsName s × AreDeclarations ts

  pub AreDeclarations : Trees → Type 0
  AreDeclarations nil = Unit
  AreDeclarations (cons t ts) = IsDeclaration t × AreDeclarations ts

Starts-letters : (t : Tree) → IsDeclaration t → Starts (letters t)
unfolding letters IsDeclaration
Starts-letters (bare s) h = h.0
Starts-letters (node s ts) h = Starts-append (codes s) _ h.0.0

Stops-more : (ts : Trees) (xs : List ℕ) → Stops (more ts ++ (b'>' ∷ xs))
unfolding more
Stops-more nil xs = inl refl
Stops-more (cons t ts) xs = inr refl

not_less : (xs ys : List ℕ) → Stops xs → xs ≡ b'<' ∷ ys → ⊥
not_less [] ys h e = cc
not_less (x ∷ xs) ys (inl h) e = let same : x ≡ b'<' = cc in absurd (omega arith)
not_less (x ∷ xs) ys (inr h) e = let same : x ≡ b'<' = cc in absurd (omega arith)

not_started : (c : ℕ) (xs ys : List ℕ) → is_plain c ≡ false → Starts ys → c ∷ xs ≡ ys → ⊥
not_started c xs [] plain h e = h
not_started c xs (y ∷ ys) plain h e =
    let same : c ≡ y = cc in let plain' : is_plain c ≡ true = rw same h in cc

-- The word of a tree.
head_split :
    (s s' : String) (xs ys zs zs' : List ℕ)
    → IsName s
    → IsName s'
    → Breaks (xs ++ zs)
    → Breaks (ys ++ zs')
    → (codes s ++ xs) ++ zs ≡ (codes s' ++ ys) ++ zs'
    → (s ≡ s') × (xs ++ zs ≡ ys ++ zs')
head_split s s' xs ys zs zs' h h' b b' e =
    let e' = sym (append_assoc (codes s) xs zs) ∙ e ∙ append_assoc (codes s') ys zs' in
    let (p, q) = word_split (codes s) (codes s') (xs ++ zs) (ys ++ zs') h.1 h'.1 b b' e' in
    (codes_inj s s' p, q)

-- The arguments, if the first ones can be told apart and the others can.
items_split :
    (t u : Tree) (ts us : Trees) (xs ys : List ℕ)
    → ((zs zs' : List ℕ)
        → Stops zs
        → Stops zs'
        → letters t ++ zs ≡ letters u ++ zs'
        → (t ≡ u) × (zs ≡ zs'))
    → (more ts ++ (b'>' ∷ xs) ≡ more us ++ (b'>' ∷ ys) → (ts ≡ us) × (xs ≡ ys))
    → (letters t ++ more ts) ++ (b'>' ∷ xs) ≡ (letters u ++ more us) ++ (b'>' ∷ ys)
    → (cons t ts ≡ cons u us) × (xs ≡ ys)
items_split t u ts us xs ys first others e =
    let (p, q) =
      first (more ts ++ (b'>' ∷ xs)) (more us ++ (b'>' ∷ ys)) (Stops-more ts xs) (Stops-more us ys)
        (sym (append_assoc (letters t) (more ts) (b'>' ∷ xs))
          ∙ e
          ∙ append_assoc (letters u) (more us) (b'>' ∷ ys)) in
    let (p', q') = others q in (cc, q')

mutual
  unfolding letters args more IsDeclaration AreDeclarations

  letters_split :
      (a b : Tree) (xs ys : List ℕ)
      → IsDeclaration a
      → IsDeclaration b
      → Stops xs
      → Stops ys
      → letters a ++ xs ≡ letters b ++ ys
      → (a ≡ b) × (xs ≡ ys)
  letters_split (bare s) (bare s') xs ys h h' stop stop' e =
      let (p, q) =
        word_split (codes s) (codes s') xs ys h.1 h'.1 (Stops-Breaks xs stop)
          (Stops-Breaks ys stop') e in
      (ap bare (codes_inj s s' p), q)
  letters_split (bare s) (node s' us) xs ys h h' stop stop' e =
      let rest = b'<' ∷ (args us ++ (b'>' ∷ [])) in
      let e' = e ∙ append_assoc (codes s') rest ys in
      let (p, q) =
        word_split (codes s) (codes s') xs (rest ++ ys) h.1 h'.0.1 (Stops-Breaks xs stop) refl e' in
      absurd (not_less xs _ stop q)
  letters_split (node s ts) (bare s') xs ys h h' stop stop' e =
      let rest = b'<' ∷ (args ts ++ (b'>' ∷ [])) in
      let e' = sym (append_assoc (codes s) rest xs) ∙ e in
      let (p, q) =
        word_split (codes s) (codes s') (rest ++ xs) ys h.0.1 h'.1 refl (Stops-Breaks ys stop')
          e' in
      absurd (not_less ys _ stop' (sym q))
  letters_split (node s ts) (node s' us) xs ys h h' stop stop' e =
      let (p, q) =
        head_split s s' (b'<' ∷ (args ts ++ (b'>' ∷ []))) (b'<' ∷ (args us ++ (b'>' ∷ []))) xs ys
          h.0 h'.0 refl refl e in
      let inner : (args ts ++ (b'>' ∷ [])) ++ xs ≡ (args us ++ (b'>' ∷ [])) ++ ys = cc in
      let (same, left) = args_split ts us xs ys h.1 h'.1 (
        sym (append_assoc (args ts) (b'>' ∷ []) xs)
        ∙ inner
        ∙ append_assoc (args us) (b'>' ∷ []) ys) in
      (cc, left)

  args_split :
      (ts us : Trees) (xs ys : List ℕ)
      → AreDeclarations ts
      → AreDeclarations us
      → args ts ++ (b'>' ∷ xs) ≡ args us ++ (b'>' ∷ ys)
      → (ts ≡ us) × (xs ≡ ys)
  args_split nil nil xs ys h h' e = (refl, cc)
  args_split nil (cons u us) xs ys h h' e = absurd (
      not_started b'>' xs _ refl
        (Starts-append (letters u ++ more us) _
          (Starts-append (letters u) _ (Starts-letters u h'.0)))
        e)
  args_split (cons t ts) nil xs ys h h' e = absurd (
      not_started b'>' ys _ refl
        (Starts-append (letters t ++ more ts) _
          (Starts-append (letters t) _ (Starts-letters t h.0)))
        (sym e))
  args_split (cons t ts) (cons u us) xs ys h h' e =
      items_split t u ts us xs ys (λ zs zs' s s'. letters_split t u zs zs' h.0 h'.0 s s')
        (more_split ts us xs ys h.1 h'.1) e

  more_split :
      (ts us : Trees) (xs ys : List ℕ)
      → AreDeclarations ts
      → AreDeclarations us
      → more ts ++ (b'>' ∷ xs) ≡ more us ++ (b'>' ∷ ys)
      → (ts ≡ us) × (xs ≡ ys)
  more_split nil nil xs ys h h' e = (refl, cc)
  more_split nil (cons u us) xs ys h h' e =
      let no : ◌≡◌ {A = ℕ} b'>' b',' = cc in absurd (omega arith)
  more_split (cons t ts) nil xs ys h h' e =
      let no : ◌≡◌ {A = ℕ} b',' b'>' = cc in absurd (omega arith)
  more_split (cons t ts) (cons u us) xs ys h h' e =
      items_split t u ts us xs ys (λ zs zs' s s'. letters_split t u zs zs' h.0 h'.0 s s')
        (more_split ts us xs ys h.1 h'.1) cc

-- Trees with one name are one tree.
pub name_inj : (a b : Tree) → IsDeclaration a → IsDeclaration b → name a ≡ name b → a ≡ b
name_inj a b h h' e =
    let same = sym (codes-name a) ∙ ap codes e ∙ codes-name b in
    (letters_split a b [] [] h h' tt tt (ap (λ z. z ++ []) same)).0
