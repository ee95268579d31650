-- ===== src/Io/Format.antt =====
-- borsh/src/nostd_io.rs: `write_fmt` with its adaptor, and the implementations for `&mut R` and
-- `&mut W`. `fmt::write` of the core library is an argument.
use borsh_rs.Prelude.{
  List, [], ◌∷◌, Bool, true, false, ℕ, ◌≡◌, refl, sym, ap, ◌∙◌, concat_map, if◌then◌else◌,
}
use Prim.Native.String.{String}
use package.borsh_rs.Io.{
  M, Read, Write, Result, ok, err, panicked, out_of_fuel, Error, ErrorKind, simple, custom, other,
  pure, fail, and_then, ◌>>=◌,
}
use package.borsh_rs.Io.Laws.{IsWrite}

-- `impl From<ErrorKind> for Error`, and `Error::new`.
abbrev pub from : ErrorKind → Error
from k = simple k

abbrev pub new : ErrorKind → String → Error
new k message = custom k message

-- `core::fmt::Result`
pub data FmtResult : Type 0 where
  fmt_ok fmt_error : FmtResult

pub record Adaptor (W : Type 0) : Type 0 where
  pub inner : W
  pub error : Result (Unit {0})

abbrev pub is_err : {A : Type 0} → Result A → Bool
is_err (err e) = true
is_err _ = false

module _ {W : Type 0} where
  -- The match on what `write_all` returned, for the error that was saved before.
  abbrev pub after_write_all :
      Result (Unit {0}) → Result (Unit {0}) × W → Result FmtResult × Adaptor W
  after_write_all saved (ok u, w) = (ok fmt_ok, record { inner = w; error = saved })
  after_write_all saved (err e, w) = (ok fmt_error, record { inner = w; error = err e })
  after_write_all saved (panicked, w) = (panicked, record { inner = w; error = saved })
  after_write_all saved (out_of_fuel, w) = (out_of_fuel, record { inner = w; error = saved })

  -- The match on what `fmt::write` returned.
  abbrev pub after_fmt_write : Result FmtResult × Adaptor W → Result (Unit {0}) × W
  after_fmt_write (ok fmt_ok, output) = (ok tt, output.inner)
  after_fmt_write (ok fmt_error, output) =
      if is_err output.error
      then (output.error, output.inner)
      else (err (new other "formatter error"), output.inner)
  after_fmt_write (err e, output) = (err e, output.inner)
  after_fmt_write (panicked, output) = (panicked, output.inner)
  after_fmt_write (out_of_fuel, output) = (out_of_fuel, output.inner)

module _ {W : Type 0} ⦃wr : Write W⦄ where
  unfoldable pub write_str : List ℕ → M (Adaptor W) FmtResult
  write_str s output = after_write_all output.error (wr.write_all s output.inner)

  -- For `fmt::write` of the arguments, as a function of the `write_str` that it calls.
  unfoldable pub write_fmt :
      ((List ℕ → M (Adaptor W) FmtResult) → M (Adaptor W) FmtResult) → M W (Unit {0})
  unfolding write_str
  write_fmt fmt_write w =
      after_fmt_write (fmt_write write_str (record { inner = w; error = ok tt }))

-- The documented behaviour of `fmt::write`: the arguments hand over pieces of text, in order, until
-- `write_str` fails, and return `last` behind them.
abbrev pub or_stop : {S : Type 0} → M S FmtResult → FmtResult → M S FmtResult
or_stop next fmt_ok = next
or_stop next fmt_error = pure fmt_error

unfoldable pub write_pieces :
    {S : Type 0} → List (List ℕ) → FmtResult → (List ℕ → M S FmtResult) → M S FmtResult
write_pieces [] last write_one = pure last
write_pieces (piece ∷ pieces) last write_one =
    write_one piece >>= or_stop (write_pieces pieces last write_one)

-- What is left to do behind the last piece.
abbrev pub formatted : {W : Type 0} → FmtResult → M W (Unit {0})
formatted fmt_ok = pure tt
formatted fmt_error = fail (new other "formatter error")

module _ {W : Type 0} ⦃wr : Write W⦄ (law : IsWrite wr) where
  abbrev start : W → Adaptor W
  start w = record { inner = w; error = ok tt }

  piece_then :
      (r : Result (Unit {0}) × W) (next : M (Adaptor W) FmtResult) (k : M W (Unit {0}))
      → ((w : W) → after_fmt_write (next (start w)) ≡ k w)
      → after_fmt_write (and_then (after_write_all (ok tt) r) (or_stop next)) ≡ and_then r (λ _. k)
  piece_then (ok u, w) next k h = h w
  piece_then (err e, w) next k h = refl
  piece_then (panicked, w) next k h = refl
  piece_then (out_of_fuel, w) next k h = refl

  and_then_assoc :
      (r : Result (Unit {0}) × W) (m k : M W (Unit {0}))
      → and_then (and_then r (λ _. m)) (λ _. k) ≡ and_then r (λ _ w. and_then (m w) (λ _. k))
  and_then_assoc (ok u, w) m k = refl
  and_then_assoc (err e, w) m k = refl
  and_then_assoc (panicked, w) m k = refl
  and_then_assoc (out_of_fuel, w) m k = refl

  nothing_formatted :
      (last : FmtResult) (w : W) → after_fmt_write (ok last, start w) ≡ formatted last w
  nothing_formatted fmt_ok w = refl
  nothing_formatted fmt_error w = refl

  write_pieces-write_all :
      (pieces : List (List ℕ)) (last : FmtResult) (w : W)
      → after_fmt_write (write_pieces pieces last write_str (start w))
        ≡ and_then (wr.write_all (concat_map (λ p. p) pieces) w) (λ _. formatted last)
  unfolding write_pieces write_str
  write_pieces-write_all [] last w = rw (law.write_all-nil w) (nothing_formatted last w)
  write_pieces-write_all (piece ∷ pieces) last w =
      piece_then (wr.write_all piece w) (write_pieces pieces last write_str)
        (λ w'. and_then (wr.write_all (concat_map (λ p. p) pieces) w') (λ _. formatted last))
        (write_pieces-write_all pieces last)
      ∙ rw (law.write_all-append piece (concat_map (λ p. p) pieces) w)
          (sym (and_then_assoc (wr.write_all piece w) _ _))

  -- For a writer that takes a buffer as it takes its parts, and arguments that hand over
  -- pieces of text in order, up to an error of `write_str`: `write_fmt` does what one
  -- `write_all` of the pieces does, its errors included, and then answers `formatter error`
  -- if the formatting failed behind the pieces.
  pub write_fmt-write_all :
      (fmt_write : (List ℕ → M (Adaptor W) FmtResult) → M (Adaptor W) FmtResult)
      (pieces : List (List ℕ)) (last : FmtResult) (w : W)
      → ((s : Adaptor W) → fmt_write write_str s ≡ write_pieces pieces last write_str s)
      → write_fmt fmt_write w
        ≡ and_then (wr.write_all (concat_map (λ p. p) pieces) w) (λ _. formatted last)
  unfolding write_fmt
  write_fmt-write_all fmt_write pieces last w h =
      ap after_fmt_write (h (start w)) ∙ write_pieces-write_all pieces last w

-- `by_ref`, and the calls through `&mut R` and `&mut W`, which go to the borrowed value.
abbrev pub by_ref : {S : Type 0} → S → S
by_ref self = self

abbrev pub mut_write_ref : {W : Type 0} → Write W → Write W
mut_write_ref inner = record { write = inner.write; write_all = inner.write_all }

abbrev pub mut_read_ref : {R : Type 0} → Read R → Read R
mut_read_ref inner = record { read = inner.read; read_exact = inner.read_exact }
