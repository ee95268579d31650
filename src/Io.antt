-- ===== src/Io.antt =====
-- borsh/src/nostd_io.rs: errors, results, and the `Read` and `Write` traits as records.
-- A method that takes `&mut self` is a function from a state to a result and the next state.
pub mod Slice
pub mod Laws
pub mod SliceLaws
pub mod Defaults
pub mod MutLaws
pub mod ReadExact
pub mod WriteAll
pub mod Format
use borsh_rs.Prelude.{ℕ, List, Option, none, some}
use Prim.Native.String.{String}

-- `ErrorKind`.
pub data ErrorKind : Type 0 where
  not_found permission_denied connection_refused connection_reset connection_aborted : ErrorKind
  not_connected addr_in_use addr_not_available broken_pipe already_exists would_block : ErrorKind
  invalid_input invalid_data timed_out write_zero interrupted other unexpected_eof : ErrorKind

-- `Error` with its `Repr`: a bare kind, or a kind with a message.
pub data Error : Type 0 where
  simple : ErrorKind → Error
  custom : ErrorKind → String → Error

-- `ErrorKind::as_str`
unfoldable pub as_str : ErrorKind → String
as_str not_found = "entity not found"
as_str permission_denied = "permission denied"
as_str connection_refused = "connection refused"
as_str connection_reset = "connection reset"
as_str connection_aborted = "connection aborted"
as_str not_connected = "not connected"
as_str addr_in_use = "address in use"
as_str addr_not_available = "address not available"
as_str broken_pipe = "broken pipe"
as_str already_exists = "entity already exists"
as_str would_block = "operation would block"
as_str invalid_input = "invalid input parameter"
as_str invalid_data = "invalid data"
as_str timed_out = "timed out"
as_str write_zero = "write zero"
as_str interrupted = "operation interrupted"
as_str other = "other os error"
as_str unexpected_eof = "unexpected end of file"

-- `Error::kind`
abbrev pub kind : Error → ErrorKind
kind (simple k) = k
kind (custom k message) = k

-- `Error::get_ref`, and `Error::into_inner`, which differs from it only in ownership.
abbrev pub get_ref : Error → Option String
get_ref (simple k) = none
get_ref (custom k message) = some message

abbrev pub into_inner : Error → Option String
into_inner (simple k) = none
into_inner (custom k message) = some message

-- `impl fmt::Display for Error`
unfoldable pub display : Error → String
unfolding as_str
display (simple k) = as_str k
display (custom k message) = message

-- The outcome of a call. `panicked` is a Rust panic; `out_of_fuel` has no counterpart in the
-- program: a loop of the model was given too few rounds.
pub data Result {ℓ} (A : Type ℓ) : Type ℓ where
  ok : A → Result A
  err : Error → Result A
  panicked out_of_fuel : Result A

-- A call that may change a state of type `S`.
abbrev pub M : Type 0 → Type 0 → Type 0
M S A = S → Result A × S

abbrev pub pure : {S A : Type 0} → A → M S A
pure a s = (ok a, s)

abbrev pub fail : {S A : Type 0} → Error → M S A
fail e s = (err e, s)

-- What `?` does with the outcome of a call: go on with its value, or return.
abbrev pub and_then : {S A B : Type 0} → Result A × S → (A → M S B) → Result B × S
and_then (ok a, s) f = f a s
and_then (err e, s) f = (err e, s)
and_then (panicked, s) f = (panicked, s)
and_then (out_of_fuel, s) f = (out_of_fuel, s)

infixl 5 ◌>>=◌ ◌>>◌
abbrev pub ◌>>=◌ : {S A B : Type 0} → M S A → (A → M S B) → M S B
◌>>=◌ m f s = and_then (m s) f

abbrev pub ◌>>◌ : {S B : Type 0} → M S (Unit {0}) → M S B → M S B
◌>>◌ m k s = and_then (m s) (λ _. k)

-- `r.map_err(f)`
abbrev pub map_err : {S A : Type 0} → (Error → Error) → Result A × S → Result A × S
map_err f (err e, s) = (err (f e), s)
map_err f (ok a, s) = (ok a, s)
map_err f (panicked, s) = (panicked, s)
map_err f (out_of_fuel, s) = (out_of_fuel, s)

-- `trait Read`. `read n` is a call with a buffer of `n` bytes; its value is what it stored in the
-- front of the buffer, so the number that the Rust method returns is the length. `read_exact n`
-- fills a buffer of `n` bytes.
pub record Read (R : Type 0) : Type 0 where
  pub read : ℕ → M R (List ℕ)
  pub read_exact : ℕ → M R (List ℕ)

-- `trait Write`, without `flush` and `write_fmt`. `write` returns how many bytes it took.
pub record Write (W : Type 0) : Type 0 where
  pub write : List ℕ → M W ℕ
  pub write_all : List ℕ → M W (Unit {0})
