-- ===== src/Schema/Declared.antt =====
-- borsh/src/schema.rs: the declarations of the built-in types as trees of names.
use borsh_rs.Prelude.{ℕ, ◌^◌, ◌<◌, ◌≡◌, refl, arith}
use package.borsh_rs.Schema.{applied, join, decimal_usize}
use package.borsh_rs.Schema.Types.{
  Primitive, SchemaType, SchemaTypes, primitive, unit, phantom_data, option, vec, slice, hash_set,
  btree_set, result, hash_map, btree_map, stringify,
}
use package.borsh_rs.Schema.Needed.{name_of, names_of}
use package.borsh_rs.Schema.Letters.{decimal_digits-IsWord, decimal_digits-Starts}
use package.borsh_rs.Schema.Trees.{
  Tree, Trees, bare, node, nil, cons, name, names, IsName, IsDeclaration, AreDeclarations,
}

-- The declarations of types.
unfoldable mutual
  pub tree_of : SchemaType → Tree
  tree_of (primitive p) = bare (stringify p)
  tree_of unit = bare "nil"
  tree_of phantom_data = bare "nil"
  tree_of (SchemaType.array n t) =
      node "Array" (cons (tree_of t) (cons (bare (decimal_usize n)) nil))
  tree_of (option t) = node "Option" (cons (tree_of t) nil)
  tree_of (vec t) = node "Vec" (cons (tree_of t) nil)
  tree_of (slice t) = node "Vec" (cons (tree_of t) nil)
  tree_of (hash_set t) = node "HashSet" (cons (tree_of t) nil)
  tree_of (btree_set t) = node "BTreeSet" (cons (tree_of t) nil)
  tree_of (result t e) = node "Result" (cons (tree_of t) (cons (tree_of e) nil))
  tree_of (hash_map k v) = node "HashMap" (cons (tree_of k) (cons (tree_of v) nil))
  tree_of (btree_map k v) = node "BTreeMap" (cons (tree_of k) (cons (tree_of v) nil))
  tree_of (SchemaType.tuple ts) = node "Tuple" (trees_of ts)

  pub trees_of : SchemaTypes → Trees
  trees_of SchemaTypes.nil = nil
  trees_of (SchemaTypes.cons t ts) = cons (tree_of t) (trees_of ts)

-- The lengths of arrays fit a `usize` of 64 bits.
unfoldable mutual
  pub IsSized : SchemaType → Type 0
  IsSized (primitive p) = Unit
  IsSized unit = Unit
  IsSized phantom_data = Unit
  IsSized (SchemaType.array n t) = (n < 2 ^ 64) × IsSized t
  IsSized (option t) = IsSized t
  IsSized (vec t) = IsSized t
  IsSized (slice t) = IsSized t
  IsSized (hash_set t) = IsSized t
  IsSized (btree_set t) = IsSized t
  IsSized (result t e) = IsSized t × IsSized e
  IsSized (hash_map k v) = IsSized k × IsSized v
  IsSized (btree_map k v) = IsSized k × IsSized v
  IsSized (SchemaType.tuple ts) = AreSized ts

  pub AreSized : SchemaTypes → Type 0
  AreSized SchemaTypes.nil = Unit
  AreSized (SchemaTypes.cons t ts) = IsSized t × AreSized ts

mutual
  unfolding name_of names_of name names tree_of trees_of applied join

  pub name_of-tree_of : (t : SchemaType) → name_of t ≡ name (tree_of t)
  name_of-tree_of (primitive p) = refl
  name_of-tree_of unit = refl
  name_of-tree_of phantom_data = refl
  name_of-tree_of (SchemaType.array n t) = rw (name_of-tree_of t) refl
  name_of-tree_of (option t) = rw (name_of-tree_of t) refl
  name_of-tree_of (vec t) = rw (name_of-tree_of t) refl
  name_of-tree_of (slice t) = rw (name_of-tree_of t) refl
  name_of-tree_of (hash_set t) = rw (name_of-tree_of t) refl
  name_of-tree_of (btree_set t) = rw (name_of-tree_of t) refl
  name_of-tree_of (result t e) = rw (name_of-tree_of t, name_of-tree_of e) refl
  name_of-tree_of (hash_map k v) = rw (name_of-tree_of k, name_of-tree_of v) refl
  name_of-tree_of (btree_map k v) = rw (name_of-tree_of k, name_of-tree_of v) refl
  name_of-tree_of (SchemaType.tuple ts) = rw (names_of-trees_of ts) refl

  pub names_of-trees_of : (ts : SchemaTypes) → names_of ts ≡ names (trees_of ts)
  names_of-trees_of SchemaTypes.nil = refl
  names_of-trees_of (SchemaTypes.cons t ts) = rw (name_of-tree_of t, names_of-trees_of ts) refl

-- A number is a word.
decimal_usize-IsName : (n : ℕ) → IsName (decimal_usize n)
unfolding decimal_usize
decimal_usize-IsName n = (decimal_digits-Starts 19 n, decimal_digits-IsWord 19 n)

stringify-IsName : (p : Primitive) → IsName (stringify p)
stringify-IsName Primitive.bool = ground arith
stringify-IsName Primitive.f32 = ground arith
stringify-IsName Primitive.f64 = ground arith
stringify-IsName Primitive.i8 = ground arith
stringify-IsName Primitive.i16 = ground arith
stringify-IsName Primitive.i32 = ground arith
stringify-IsName Primitive.i64 = ground arith
stringify-IsName Primitive.i128 = ground arith
stringify-IsName Primitive.u8 = ground arith
stringify-IsName Primitive.u16 = ground arith
stringify-IsName Primitive.u32 = ground arith
stringify-IsName Primitive.u64 = ground arith
stringify-IsName Primitive.u128 = ground arith
stringify-IsName Primitive.string = ground arith
stringify-IsName Primitive.str = ground arith
stringify-IsName Primitive.isize = ground arith
stringify-IsName Primitive.usize = ground arith

mutual
  unfolding tree_of trees_of IsDeclaration AreDeclarations

  pub tree_of-IsDeclaration : (t : SchemaType) → IsDeclaration (tree_of t)
  tree_of-IsDeclaration (primitive p) = stringify-IsName p
  tree_of-IsDeclaration unit = ground arith
  tree_of-IsDeclaration phantom_data = ground arith
  tree_of-IsDeclaration (SchemaType.array n t) =
      (ground arith, (tree_of-IsDeclaration t, (decimal_usize-IsName n, tt)))
  tree_of-IsDeclaration (option t) = (ground arith, (tree_of-IsDeclaration t, tt))
  tree_of-IsDeclaration (vec t) = (ground arith, (tree_of-IsDeclaration t, tt))
  tree_of-IsDeclaration (slice t) = (ground arith, (tree_of-IsDeclaration t, tt))
  tree_of-IsDeclaration (hash_set t) = (ground arith, (tree_of-IsDeclaration t, tt))
  tree_of-IsDeclaration (btree_set t) = (ground arith, (tree_of-IsDeclaration t, tt))
  tree_of-IsDeclaration (result t e) =
      (ground arith, (tree_of-IsDeclaration t, (tree_of-IsDeclaration e, tt)))
  tree_of-IsDeclaration (hash_map k v) =
      (ground arith, (tree_of-IsDeclaration k, (tree_of-IsDeclaration v, tt)))
  tree_of-IsDeclaration (btree_map k v) =
      (ground arith, (tree_of-IsDeclaration k, (tree_of-IsDeclaration v, tt)))
  tree_of-IsDeclaration (SchemaType.tuple ts) = (ground arith, trees_of-AreDeclarations ts)

  pub trees_of-AreDeclarations : (ts : SchemaTypes) → AreDeclarations (trees_of ts)
  trees_of-AreDeclarations SchemaTypes.nil = tt
  trees_of-AreDeclarations (SchemaTypes.cons t ts) =
      (tree_of-IsDeclaration t, trees_of-AreDeclarations ts)
