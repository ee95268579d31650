-- ===== src/Lib.antt =====
-- Borsh: a canonical binary format. The crate `borsh` has an I/O layer of its own for builds
-- without the standard library, a trait with implementations that write values to a writer, and
-- one with implementations that read them from a reader.
--
-- The module Prelude: lists and Booleans over the native numbers.
-- The module Io (borsh/src/nostd_io.rs): errors, results, and the traits `Read` and `Write` as
--   records of their required and provided methods. A method is a function from the state of the
--   reader or writer to a result and the new state. Io/Slice has the implementations for `&[u8]`,
--   `Vec<u8>` and `&mut [u8]`; Io/Defaults the loops of `default_read_exact` and of `write_all`;
--   Io/Format `write_fmt`, with `fmt::write` as an argument, and the calls through references.
--   Io/Laws says what a reader and a writer promise, Io/SliceLaws, Io/MutLaws, Io/ReadExact and
--   Io/WriteAll prove it of the implementations.
-- The module Num: integers as bytes, two's complement, decimal digits, and well-formed UTF-8.
-- The module Ser (borsh/src/ser/mod.rs, borsh/src/ser/helpers.rs): `BorshSerialize` as a record,
--   Ser/Primitives, Ser/Containers, Ser/Collections, Ser/Net and Ser/Wrappers its implementations,
--   one definition for each `impl` or macro. Ser/CollectionLaws, Ser/Canonical and Ser/Sorting are
--   about the collections.
-- The module De (borsh/src/de/mod.rs, borsh/src/de/hint.rs): `BorshDeserialize` as a record with
--   its two hooks, De/Primitives, De/Containers, De/Collections, De/Net and De/Wrappers its
--   implementations, De/Bytes those of `u8` with the loop of `vec_from_reader`, and De/FillVec,
--   De/Ends and De/Bounded the proofs about it; De/Wrappers/Buffer compares it with `BytesMut`.
-- The module Encoding: the format, as functions from values to bytes and predicates for the valid
--   values. It is written from the format and not from the code; Ser/Laws, Ser/Compose, De/Reads
--   and De/Compose prove that the code keeps to it, De/MapReads, De/MapOrder and De/NetReads for
--   maps and addresses, De/Sound, De/SoundInts, De/SoundCompose, De/SoundItems and De/SoundBytes
--   that it accepts nothing else. Ser/Contract and De/Contract state this for single operations.
-- The module Shape: the types that the implementations build from the primitive ones, as data,
--   with the implementations that the compiler picks for each. Shape/Writes, Shape/Reads and
--   Shape/Consumes prove the laws for every shape, and Shape/RoundTrip states them. How the
--   compiler lays out options, results and tuples is a parameter, `Platform`.
-- The module Derive (borsh-derive-internal/src): what the derive macros are given, as data, with
--   attribute_helpers.rs; Derive/Code is the code that they generate, as data, with an interpreter
--   that does what Rust does with it. Derive/Struct (struct_ser.rs, struct_de.rs),
--   Derive/Discriminants (enum_discriminant_map.rs) and Derive/Enum (enum_ser.rs, enum_de.rs) are
--   the macros, with what the generated code for an enum does in Derive/Enum/Run. Derive/Kept,
--   Derive/Enum/Spec: what a value of the item is encoded as. Derive/Struct/Laws,
--   Derive/Discriminants/Laws, Derive/Enum/Laws, Derive/Enum/Patterns, Derive/Enum/Writes,
--   Derive/Enum/Reads, Derive/Enum/Total and Derive/Whole are proofs. Derive/Nested has the
--   derived implementations as implementations that others call, Derive/Nested/RoundTrip vectors
--   of derived types.
-- The module Schema (borsh/src/schema.rs): declarations and definitions as data, `add_definition`
--   as a step on the map of definitions, `BorshSchema` as a record, one definition for each `impl`
--   or macro of it. Schema/Types has the types with an implementation as data, Schema/Needed the
--   definitions that they need, apart from how the code adds them. Schema/Steps, Schema/Outcomes,
--   Schema/Adds, Schema/Laws and Schema/Closed are proofs. Schema/Letters, Schema/Trees and
--   Schema/Declared take the names of types apart, for Schema/Unambiguous.
-- The module SchemaHelpers (borsh/src/schema_helpers.rs): values with the schema in front; the
--   implementations for containers are arguments. SchemaHelpers/Laws has the proofs.
-- The module SchemaFormat (the derives in borsh/src/schema.rs): `Fields`, `Definition` and
--   `BorshSchemaContainer` as items for the derive macros, and the implementations that come out.
--   SchemaFormat/Lookup, SchemaFormat/Differ, SchemaFormat/Writes, SchemaFormat/Reads and
--   SchemaFormat/RoundTrip are proofs.
-- The module Macros (borsh-derive/src/lib.rs, with borsh-derive-internal/src/union_ser.rs and
--   borsh-derive-internal/src/union_de.rs): the entry points of the derive macros, for what
--   `syn::parse` makes of the tokens. Macros/Panics has the proofs.
-- The module DeriveSchema (borsh-schema-derive-internal/src/helpers.rs,
--   borsh-schema-derive-internal/src/struct_schema.rs, and in DeriveSchema/Enum
--   borsh-schema-derive-internal/src/enum_schema.rs): the implementations of `BorshSchema` that
--   the macro generates, as data, and what they do. DeriveSchema/Spec has the definitions that
--   they stand for, apart from how they are generated. DeriveSchema/Structs, DeriveSchema/Laws,
--   DeriveSchema/Agreement and DeriveSchema/Written are proofs.
-- The module RoundTrip: `try_to_vec`, `try_from_slice` and `try_from_reader` together;
--   RoundTrip/Wrappers for the types that are written as another one.
-- The modules Tests, IoTests, ShapeTests, CollectionTests, DeriveTests, NestedTests, SchemaTests,
--   SchemaFormatTests, DeriveSchemaTests, MacrosTests: the theorems at concrete inputs.
--
-- Integers are numbers below a power of 256; a float is its bits, and its NaNs are those of IEEE
-- 754. A string is its bytes. An array is a list with its length apart. For boxes, references,
-- `Cow`, `Rc` and `Arc`, going to what they hold and back is a pair of functions. The pointer
-- width is a parameter, `Target`. The result `panicked` stands for a panic, `out_of_fuel` for a
-- loop that did not end. The loop of `vec_from_reader` has a round for each byte and one more,
-- those of `default_read_exact` and `write_all` a round for each byte of the buffer; a round that
-- does not end a loop moves a byte at least, except for `ErrorKind::Interrupted`, after which they
-- try again.
--
-- A collection is what its iterator yields, in that order; a map is a list of entries, with keys
-- that can always be compared.
--
-- In the derived implementations, the type of types is a parameter, with implementations for each.
-- The interpreter answers `panicked` for generated code that does not compile. Of the expressions
-- for discriminants, literals, `+` and `<<` are modelled, and of the operator `<<` no more is said
-- than that it is no sum; generics are not. The loop of `vec_from_reader` is modelled for a `read`
-- that reports no more bytes than its buffer holds.
--
-- The map of definitions is a list of its entries, and of what order is not looked at;
-- `assert_eq!` is a panic. The length of an array is a `usize` of at most 64 bits.
--
-- Not modelled: `Debug` output, `flush`, the drop guard of a half-filled array, generics and
-- lifetimes in the derive macros, and the `BorshSchema` of the schema types themselves. Arguments
-- of the model: `fmt::write`, the buffers of the crates `bytes` and `bson`, `syn::parse`, the
-- identifiers that `proc_macro2` takes, the bytes of a text where a text is native, and the text
-- of `FromUtf8Error`.
pub mod Prelude
pub mod Io
pub mod Num
pub mod Ser
pub mod Encoding
pub mod De
pub mod RoundTrip
pub mod Shape
pub mod Derive
pub mod Schema
pub mod SchemaHelpers
pub mod Macros
pub mod SchemaFormat
pub mod DeriveSchema
pub mod DeriveTests
pub mod NestedTests
pub mod SchemaTests
pub mod DeriveSchemaTests
pub mod Tests
pub mod IoTests
pub mod ShapeTests
pub mod CollectionTests
pub mod SchemaFormatTests
pub mod MacrosTests
