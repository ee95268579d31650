-- ===== src/Io/Defaults.antt =====
-- borsh/src/nostd_io.rs: the provided methods `Read::read_exact` (`default_read_exact`) and
-- `Write::write_all`, as loops on fuel. `Interrupted` is retried; an index past the end of a buffer
-- panics.
use borsh_rs.Prelude.{
  ℕ, zero, suc, ◌-◌, Bool, true, false, List, [], ◌∷◌, ◌++◌, length, drop, ltb, if◌then◌else◌,
}
use borsh_rs.Io.{
  M, Result, ok, err, panicked, out_of_fuel, ErrorKind, custom, kind, interrupted, unexpected_eof,
  write_zero,
}

abbrev pub is_interrupted : ErrorKind → Bool
is_interrupted interrupted = true
is_interrupted _ = false

module _ {R : Type 0} where
  -- The match on what `read` returned, for a buffer with `n` bytes to fill: `loop` goes on with
  -- what is still to fill and with the bytes that were stored.
  abbrev pub after_read :
      (ℕ → List ℕ → M R (List ℕ)) → ℕ → Result (List ℕ) × R → Result (List ℕ) × R
  after_read loop n (ok [], s) = (err (custom unexpected_eof "failed to fill whole buffer"), s)
  after_read loop n (ok (b ∷ bs), s) =
      if ltb n (length (b ∷ bs)) then (panicked, s) else loop (n - length (b ∷ bs)) (b ∷ bs) s
  after_read loop n (err e, s) = if is_interrupted (kind e) then loop n [] s else (err e, s)
  after_read loop n (panicked, s) = (panicked, s)
  after_read loop n (out_of_fuel, s) = (out_of_fuel, s)

  -- `default_read_exact`: `n` bytes are still to fill, and `got` is what is filled.
  unfoldable pub default_read_exact : (ℕ → M R (List ℕ)) → ℕ → ℕ → List ℕ → M R (List ℕ)
  default_read_exact read fuel zero got s = (ok got, s)
  default_read_exact read zero (suc n) got s = (out_of_fuel, s)
  default_read_exact read (suc fuel) (suc n) got s =
      after_read (λ m more. default_read_exact read fuel m (got ++ more)) (suc n) (read (suc n) s)

module _ {W : Type 0} where
  -- The match on what `write` returned for the buffer `buf`.
  abbrev pub after_write : (List ℕ → M W (Unit {0})) → List ℕ → Result ℕ × W → Result (Unit {0}) × W
  after_write loop buf (ok zero, w) = (err (custom write_zero "failed to write whole buffer"), w)
  after_write loop buf (ok (suc n), w) =
      if ltb (length buf) (suc n) then (panicked, w) else loop (drop (suc n) buf) w
  after_write loop buf (err e, w) = if is_interrupted (kind e) then loop buf w else (err e, w)
  after_write loop buf (panicked, w) = (panicked, w)
  after_write loop buf (out_of_fuel, w) = (out_of_fuel, w)

  -- `Write::write_all`
  unfoldable pub default_write_all : (List ℕ → M W ℕ) → ℕ → List ℕ → M W (Unit {0})
  default_write_all write fuel [] w = (ok tt, w)
  default_write_all write zero (b ∷ bs) w = (out_of_fuel, w)
  default_write_all write (suc fuel) (b ∷ bs) w =
      after_write (default_write_all write fuel) (b ∷ bs) (write (b ∷ bs) w)
