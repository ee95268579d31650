-- ===== src/Macros.antt =====
-- borsh-derive/src/lib.rs, with borsh-derive-internal/src/union_ser.rs and union_de.rs: the entry
-- points of the derive macros.
pub mod Panics
use Prim.Native.String.{String, ◌++◌ as str_append}
use borsh_rs.Prelude.{
  ◌≡◌, ◌↔◌, ◌⊎◌, inl, inr, refl, Bool, true, false, Bool-cases, List, [], ◌∷◌, Option, none, some,
}
use borsh_rs.Derive.{ItemStruct, Expansion, code, error, macro_panicked}
use borsh_rs.Derive.Struct.{StructSer, StructDe, struct_ser, struct_de}
use borsh_rs.Derive.Enum.{ItemEnum, EnumSer, EnumDe, enum_ser, enum_de}
use borsh_rs.Derive.Enum.Total.{
  Returned, IsCode-Returned, enum_ser-IsCode, struct_de-Returned, enum_de-Returned,
}
use borsh_rs.DeriveSchema.{SchemaStruct, StructSchema, process_struct}
use borsh_rs.DeriveSchema.Enum.{
  SchemaEnum, EnumSchema, anonymous_struct, anonymous_defs, process_enum,
}
use borsh_rs.Derive.Discriminants.{Variant}

-- What `syn::parse` makes of the tokens of an item: the parts that the macros look at.
pub record Syn (T Ty : Type 0) : Type 0 where
  pub parse_struct : T → Option (ItemStruct Ty)
  pub parse_enum : T → Option (ItemEnum Ty)
  pub parse_union : T → Bool
  pub schema_struct : ItemStruct Ty → SchemaStruct Ty
  pub schema_enum : ItemEnum Ty → SchemaEnum Ty

-- The tokens that come out: an implementation that names the crate, or `compile_error!`.
pub data TokenStream (A : Type 0) : Type 0 where
  implementation : String → A → TokenStream A
  compile_error : String → TokenStream A
  panic : TokenStream A

-- The implementations.
pub data ImplSerialize (Ty : Type 0) : Type 0 where
  struct_impl : StructSer Ty → ImplSerialize Ty
  enum_impl : EnumSer Ty → ImplSerialize Ty

pub data ImplDeserialize (Ty : Type 0) : Type 0 where
  struct_impl : StructDe Ty → ImplDeserialize Ty
  enum_impl : EnumDe Ty → ImplDeserialize Ty

pub data ImplSchema (Ty : Type 0) : Type 0 where
  struct_impl : StructSchema Ty → ImplSchema Ty
  enum_impl : EnumSchema Ty → ImplSchema Ty

-- `match res { Ok(res) => res, Err(err) => err.to_compile_error() }`
abbrev pub token_stream : {A B : Type 0} → String → (A → B) → Expansion A → TokenStream B
token_stream cratename wrap (code a) = implementation cratename (wrap a)
token_stream cratename wrap (error e) = compile_error e
token_stream cratename wrap macro_panicked = panic

-- `crate_name("borsh").unwrap_or_else(|_| "borsh".to_string())`. `proc_macro_crate` answers with an
-- identifier, which `Ident::new` takes.
abbrev pub cratename_or : Option String → String
cratename_or none = "borsh"
cratename_or (some found) = found

-- `unimplemented!()`
abbrev pub union_ser : {A : Type 0} → Expansion A
union_ser = macro_panicked

abbrev pub union_de : {A : Type 0} → Expansion A
union_de = macro_panicked

abbrev pub unions_unsupported : String
unions_unsupported = "Borsh schema does not support unions yet."

-- The chain of `if let Ok(input) = syn::parse::<...>(...)`, with `unreachable!()` at its end.
abbrev pub parsed :
    {Ty A : Type 0}
    → (ItemStruct Ty → TokenStream A)
    → (ItemEnum Ty → TokenStream A)
    → TokenStream A
    → Option (ItemStruct Ty)
    → Option (ItemEnum Ty)
    → Bool
    → TokenStream A
parsed on_struct on_enum on_union (some item) e is_union = on_struct item
parsed on_struct on_enum on_union none (some item) is_union = on_enum item
parsed on_struct on_enum on_union none none true = on_union
parsed on_struct on_enum on_union none none false = panic

module _ {T Ty : Type 0} (syn : Syn T Ty) (crate_name : Option String) where
  abbrev pub parse :
      {A : Type 0}
      → (ItemStruct Ty → TokenStream A)
      → (ItemEnum Ty → TokenStream A)
      → TokenStream A
      → T
      → TokenStream A
  parse on_struct on_enum on_union input =
      parsed on_struct on_enum on_union (syn.parse_struct input) (syn.parse_enum input)
        (syn.parse_union input)

  unfoldable pub borsh_serialize : T → TokenStream (ImplSerialize Ty)
  unfolding struct_ser enum_ser
  borsh_serialize input =
      let cratename = cratename_or crate_name in
      parse (λ item. token_stream cratename ImplSerialize.struct_impl (struct_ser item))
        (λ item. token_stream cratename ImplSerialize.enum_impl (enum_ser item))
        (token_stream cratename ImplSerialize.enum_impl union_ser) input

  unfoldable pub borsh_deserialize : T → TokenStream (ImplDeserialize Ty)
  unfolding struct_de enum_de
  borsh_deserialize input =
      let cratename = cratename_or crate_name in
      parse (λ item. token_stream cratename ImplDeserialize.struct_impl (struct_de item))
        (λ item. token_stream cratename ImplDeserialize.enum_impl (enum_de item))
        (token_stream cratename ImplDeserialize.enum_impl union_de) input

  -- `phantom` is the type of the field that `process_enum` adds, and `is_ident` the test of
  -- `proc_macro2` for identifiers.
  unfoldable pub borsh_schema : (String → Bool) → Ty → T → TokenStream (ImplSchema Ty)
  unfolding process_struct process_enum
  borsh_schema is_ident phantom input =
      let cratename = cratename_or crate_name in
      parse
        (λ item.
          implementation cratename
            (ImplSchema.struct_impl (process_struct (syn.schema_struct item))))
        (λ item.
          token_stream cratename ImplSchema.enum_impl
            (process_enum phantom is_ident (syn.schema_enum item)))
        (compile_error unions_unsupported) input
