-- ===== src/Schema/Unambiguous.antt =====
-- borsh/src/schema.rs: no two built-in types with one name have different definitions.
use Prim.Native.String.{String}
use text.Mathlib.Text.{◌==◌ as str_eq}
use text.Mathlib.TextEquality.{eq_iff}
use text.Mathlib.TextPositions.{eq_refl}
use borsh_rs.Prelude.{
  ℕ, ◌%◌, ◌^◌, ◌<◌, ◌≡◌, refl, sym, ap, ◌∙◌, inl, inr, Bool-cases, All-append, List, [], ◌∷◌, All,
  arith, if◌then◌else◌,
}
use borsh_rs.Io.{ok}
use package.borsh_rs.Schema.{
  Declaration, Definition, Definitions, array, sequence, tuple, enum, applied, join, decimal_usize,
  schema_container,
}
use package.borsh_rs.Schema.Types.{
  SchemaType, SchemaTypes, primitive, unit, phantom_data, option, vec, slice, hash_set, btree_set,
  result, hash_map, btree_map, schema_of,
}
use package.borsh_rs.Schema.Needed.{name_of, needed, needed_by, pair_entry}
use package.borsh_rs.Schema.Steps.{Agrees}
use package.borsh_rs.Schema.Laws.{schema_container-ok_iff}
use package.borsh_rs.Schema.Letters.{codes, read_decimal, read_decimal-decimal_digits}
use package.borsh_rs.Schema.Trees.{
  Tree, bare, node, nil, cons, name, names, IsDeclaration, AreDeclarations, name_inj,
}
use package.borsh_rs.Schema.Declared.{
  tree_of, trees_of, IsSized, AreSized, name_of-tree_of, names_of-trees_of, tree_of-IsDeclaration,
}

-- The definition that a declaration has.
abbrev length_in : Declaration → ℕ
length_in s = read_decimal 0 (codes s)

definition_named : String → List Declaration → Definition
definition_named s (x ∷ y ∷ rest) =
    if str_eq s "Array"
    then array (length_in y % 2 ^ 32) x
    else if str_eq s "Result"
    then enum (("Ok", x) ∷ ("Err", y) ∷ [])
    else if str_eq s "Tuple"
    then tuple (x ∷ y ∷ rest)
    else sequence (applied "Tuple" (join (x ∷ y ∷ [])))
definition_named s (x ∷ []) =
    if str_eq s "Option"
    then enum (("None", "nil") ∷ ("Some", x) ∷ [])
    else if str_eq s "Tuple"
    then tuple (x ∷ [])
    else sequence x
definition_named s [] = tuple []

definition_of : Tree → Definition
unfolding definition_named
definition_of (bare s) = tuple []
definition_of (node s ts) = definition_named s (names ts)

length_in-decimal_usize : (n : ℕ) → n < 2 ^ 64 → length_in (decimal_usize n) ≡ n
unfolding decimal_usize
length_in-decimal_usize n h = read_decimal-decimal_digits 19 n (omega arith)

definition_named-tuple : (xs : List Declaration) → definition_named "Tuple" xs ≡ tuple xs
unfolding definition_named
definition_named-tuple [] = refl
definition_named-tuple (x ∷ []) = refl
definition_named-tuple (x ∷ y ∷ xs) = refl

-- An entry whose name is a tree's, with the definition that the tree has.
abbrev Told : Declaration × Definition → Type 0
Told entry = (t : Tree) × IsDeclaration t × (entry.0 ≡ name t) × (entry.1 ≡ definition_of t)

pair_entry-Told : (k v : SchemaType) → Told (pair_entry k v)
unfolding definition_of name names tree_of IsDeclaration AreDeclarations
pair_entry-Told k v = (
  node "Tuple" (cons (tree_of k) (cons (tree_of v) nil)),
  (ground arith, (tree_of-IsDeclaration k, (tree_of-IsDeclaration v, tt))),
  rw (name_of-tree_of k, name_of-tree_of v) refl,
  rw (name_of-tree_of k, name_of-tree_of v) refl,
)

-- That is so for a type's own entry, by its definition.
own-Told :
    (t : SchemaType) (definition : Definition)
    → definition ≡ definition_of (tree_of t)
    → Told (name_of t, definition)
own-Told t definition e = (tree_of t, tree_of-IsDeclaration t, name_of-tree_of t, e)

mutual
  unfolding needed needed_by definition_of tree_of name IsSized AreSized

  needed-Told : (t : SchemaType) → IsSized t → All Told (needed t)
  needed-Told (primitive p) h = tt
  needed-Told unit h = tt
  needed-Told phantom_data h = tt
  needed-Told (SchemaType.array n t) h = (
    own-Told (SchemaType.array n t) _ (rw (name_of-tree_of t, length_in-decimal_usize n h.0) refl),
    needed-Told t h.1,
  )
  needed-Told (option t) h = (own-Told (option t) _ (rw (name_of-tree_of t) refl), needed-Told t h)
  needed-Told (vec t) h = (own-Told (vec t) _ (rw (name_of-tree_of t) refl), needed-Told t h)
  needed-Told (slice t) h = (own-Told (slice t) _ (rw (name_of-tree_of t) refl), needed-Told t h)
  needed-Told (hash_set t) h =
      (own-Told (hash_set t) _ (rw (name_of-tree_of t) refl), needed-Told t h)
  needed-Told (btree_set t) h =
      (own-Told (btree_set t) _ (rw (name_of-tree_of t) refl), needed-Told t h)
  needed-Told (result t e) h =
      (own-Told (result t e) _ (rw (name_of-tree_of t, name_of-tree_of e) refl), needed-Told t h.0)
  needed-Told (hash_map k v) h = (
    own-Told (hash_map k v) _ (rw (name_of-tree_of k, name_of-tree_of v) refl),
    (
      pair_entry-Told k v,
      All-append _ (needed k) (needed v) (needed-Told k h.0) (needed-Told v h.1),
    ),
  )
  needed-Told (btree_map k v) h = (
    own-Told (btree_map k v) _ (rw (name_of-tree_of k, name_of-tree_of v) refl),
    (
      pair_entry-Told k v,
      All-append _ (needed k) (needed v) (needed-Told k h.0) (needed-Told v h.1),
    ),
  )
  needed-Told (SchemaType.tuple ts) h = (
    own-Told (SchemaType.tuple ts) _
        (rw (names_of-trees_of ts) (sym (definition_named-tuple (names (trees_of ts))))),
    needed_by-Told ts h,
  )

  needed_by-Told : (ts : SchemaTypes) → AreSized ts → All Told (needed_by ts)
  needed_by-Told SchemaTypes.nil h = tt
  needed_by-Told (SchemaTypes.cons t ts) h =
      All-append _ (needed t) (needed_by ts) (needed-Told t h.0) (needed_by-Told ts h.1)

-- Entries of one name have one definition.
Told-unique : (a b : Declaration × Definition) → Told a → Told b → a.0 ≡ b.0 → a.1 ≡ b.1
Told-unique a b (t, h, n, d) (u, h', n', d') e =
    let same = name_inj t u h h' (sym n ∙ e ∙ n') in d ∙ ap definition_of same ∙ sym d'

-- What the first entry of a name says.
abbrev meaning_in : Definitions → Declaration → Definition
meaning_in [] s = tuple []
meaning_in (entry ∷ entries) s = if str_eq s entry.0 then entry.1 else meaning_in entries s

Agrees-cons :
    (entry : Declaration × Definition) (entries others : Definitions)
    → Told entry
    → All Told others
    → Agrees (meaning_in entries) others
    → Agrees (meaning_in (entry ∷ entries)) others
Agrees-cons entry entries [] told tolds h = tt
Agrees-cons entry entries (other ∷ others) told tolds h = (
  elim (Bool-cases (str_eq other.0 entry.0)) [
    | inl e ↦ rw e (Told-unique entry other told tolds.0 (sym ((eq_iff other.0 entry.0).0 e)))
    | inr e ↦ rw e h.0
  ],
  Agrees-cons entry entries others told tolds.1 h.1,
)

Told-Agrees : (entries : Definitions) → All Told entries → Agrees (meaning_in entries) entries
Told-Agrees [] h = tt
Told-Agrees (entry ∷ entries) h =
    (rw (eq_refl entry.0) refl, Agrees-cons entry entries entries h.0 h.1 (Told-Agrees entries h.1))

-- For every type with an implementation of `BorshSchema` in the library, the schema types
-- themselves apart, whose arrays have lengths below 2 ^ 64, `schema_container` returns a
-- container with the name of the type: it does not panic.
pub schema_container-returns :
    (t : SchemaType)
    → IsSized t
    → (definitions : Definitions) × (schema_container (schema_of t)
        ≡ ok (record { declaration = name_of t; definitions = definitions }))
schema_container-returns t h =
    (schema_container-ok_iff t).1 (meaning_in (needed t), Told-Agrees (needed t) (needed-Told t h))
