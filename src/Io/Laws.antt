-- ===== src/Io/Laws.antt =====
-- The contracts of `Read` and `Write` that the documentation in borsh/src/nostd_io.rs states, and
-- what it is for a deserializer to read an encoding and for a serializer to write one.
use borsh_rs.Prelude.{
  ℕ, ◌≤◌, ◌<◌, ◌≡◌, refl, sym, ap, ◌∙◌, List, [], ◌++◌, append_assoc, length, All,
}
use mathlib.Core.Path.{fun_ext}
use borsh_rs.Io.{
  M, Read, Write, Result, ok, err, panicked, out_of_fuel, Error, kind, unexpected_eof, and_then,
  pure, ◌>>=◌, ◌>>◌,
}

abbrev pub IsByte : ℕ → Type 0
IsByte b = b < 256

-- The contract of a reader over a finite input without I/O errors. `view` is the input that a reader
-- in a given state has not yet handed out.
pub record IsRead {R : Type 0} (rd : Read R) (view : R → List ℕ) : Type 0 where
  -- `read` hands out a front part of the input that fits the buffer, and nothing only if the
  -- buffer or the input is empty.
  pub read_part :
      (n : ℕ) (s : R)
      → (bytes : List ℕ) × (s' : R) × (rd.read n s ≡ (ok bytes, s'))
        × (view s ≡ bytes ++ view s')
        × (length bytes ≤ n)
        × (0 < n → 0 < length (view s) → 0 < length bytes)
  -- `read_exact` fills the buffer from an input that is long enough,
  pub read_exact_full :
      (n : ℕ) (s : R)
      → n ≤ length (view s)
      → (bytes : List ℕ) × (s' : R) × (rd.read_exact n s ≡ (ok bytes, s'))
        × (view s ≡ bytes ++ view s')
        × (length bytes ≡ n)
  -- and answers `UnexpectedEof` on any other.
  pub read_exact_short :
      (n : ℕ) (s : R)
      → length (view s) < n
      → (e : Error) × (s' : R) × (rd.read_exact n s ≡ (err e, s')) × (kind e ≡ unexpected_eof)

-- A writer that takes a buffer as it takes its parts one after the other.
pub record IsWrite {W : Type 0} (wr : Write W) : Type 0 where
  pub write_all-nil : (w : W) → wr.write_all [] w ≡ (ok tt, w)
  pub write_all-append :
      (xs ys : List ℕ) (w : W)
      → wr.write_all (xs ++ ys) w ≡ and_then (wr.write_all xs w) (λ _. wr.write_all ys)

-- On any input that begins with `bytes` the call returns `a` and leaves the rest.
pub record Reads {R A : Type 0} (view : R → List ℕ) (m : M R A) (a : A) (bytes : List ℕ)
    : Type 0 where
  pub takes :
      (s : R) (rest : List ℕ)
      → view s ≡ bytes ++ rest
      → (s' : R) × (m s ≡ (ok a, s')) × (view s' ≡ rest)

-- A call that succeeds on bytes has consumed the encoding of a valid value, which it returns, and
-- nothing else.
pub record Sound {R A : Type 0} (view : R → List ℕ) (m : M R A) (Valid : A → Type 0)
    (enc : A → List ℕ) : Type 0 where
  pub consumed :
      (s : R) (a : A) (s' : R)
      → All IsByte (view s)
      → m s ≡ (ok a, s')
      → (view s ≡ enc a ++ view s') × Valid a

-- The call writes these bytes to the writer `wr`, and does nothing else.
pub record Emits {W : Type 0} (wr : Write W) (m : M W (Unit {0})) (bytes : List ℕ) : Type 0 where
  pub writes : (w : W) → m w ≡ wr.write_all bytes w

pub ok-path : {S A : Type 0} {a b : A} (s : S) → a ≡ b → ◌≡◌ {A = Result A × S} (ok a, s) (ok b, s)
ok-path s e = cc

-- How the contracts compose.
module _ {R : Type 0} {view : R → List ℕ} where
  pub Reads-pure : {A : Type 0} (a : A) → Reads view (pure a) a []
  Reads-pure a = record { takes = λ s rest h. (s, refl, h) }

  pub Reads-bind :
      {A B : Type 0} (m : M R A) (f : A → M R B) {a : A} {b : B} {xs : List ℕ} {ys : List ℕ}
      → Reads view m a xs
      → Reads view (f a) b ys
      → Reads view (m >>= f) b (xs ++ ys)
  Reads-bind m f {a} {b} {xs} {ys} hm hf = record {
    takes = λ s rest h.
        let (s₁, e₁, v₁) = hm.takes s (ys ++ rest) (h ∙ append_assoc xs ys rest) in
        let (s₂, e₂, v₂) = hf.takes s₁ rest v₁ in (s₂, rw e₁ e₂, v₂);
  }

  -- A last step that only computes.
  pub Reads-map :
      {A B : Type 0} (m : M R A) (f : A → M R B) {a : A} {b : B} {xs : List ℕ}
      → Reads view m a xs
      → ((s : R) → f a s ≡ (ok b, s))
      → Reads view (m >>= f) b xs
  Reads-map m f hm hf = record {
    takes = λ s rest h. let (s₁, e₁, v₁) = hm.takes s rest h in (s₁, rw e₁ (hf s₁), v₁);
  }

and_then-ok :
    {R A B : Type 0} (r : Result A × R) (f : A → M R B) {b : B} {s' : R}
    → and_then r f ≡ (ok b, s')
    → (a : A) × (s₁ : R) × (r ≡ (ok a, s₁)) × (f a s₁ ≡ (ok b, s'))
and_then-ok (ok a, s₁) f k = (a, s₁, refl, k)
and_then-ok (err x, s₁) f k = cc
and_then-ok (panicked, s₁) f k = cc
and_then-ok (out_of_fuel, s₁) f k = cc

-- Inversion of a successful bind.
pub bind-ok :
    {R A B : Type 0} (m : M R A) (f : A → M R B) (s : R) {b : B} {s' : R}
    → (m >>= f) s ≡ (ok b, s')
    → (a : A) × (s₁ : R) × (m s ≡ (ok a, s₁)) × (f a s₁ ≡ (ok b, s'))
bind-ok m f s h = and_then-ok (m s) f h

pub pure-ok : {R A : Type 0} {a b : A} {s s' : R} → pure a s ≡ (ok b, s') → (a ≡ b) × (s ≡ s')
pure-ok h = (cc, cc)

-- Writing one after the other.
module _ {W : Type 0} {wr : Write W} (law : IsWrite wr) where
  pub Emits-nil : Emits wr (pure tt) []
  Emits-nil = record { writes = λ w. sym (law.write_all-nil w) }

  pub Emits-then :
      (m k : M W (Unit {0})) {xs ys : List ℕ}
      → Emits wr m xs
      → Emits wr k ys
      → Emits wr (m >> k) (xs ++ ys)
  Emits-then m k {xs} {ys} hm hk = record {
    writes = λ w.
        rw (hm.writes w, law.write_all-append xs ys w)
          (ap (λ f. and_then (wr.write_all xs w) (λ _. f)) (fun_ext hk.writes));
  }
