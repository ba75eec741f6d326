-- ===== src/Go/Outcome.antt =====
-- How a Go call ends: with a value, or with a panic that carries an `interface{}`. What was written
-- before a panic stays written, so the state comes back beside the panic too.
use wasmtime_go.Base.{Option, none, some}
use wasmtime_go.Go.Value.{Any, nil, runtime_error, index_out_of_range, nil_dereference, unspecified}

pub data Outcome {ℓ} (A : Type ℓ) : Type ℓ where
  ok : A → Outcome A
  panic : Any → Outcome A

-- The value that `recover` finds after a call: nil if it did not panic.
abbrev pub panic_value : {A : Type 0} → Outcome A → Any
panic_value (ok a) = nil
panic_value (panic v) = v

abbrev pub Exec : Type 0 → Type 0 → Type 0
Exec S A = S → Outcome A × S

module _ {S : Type 0} where
  abbrev pub return : {A : Type 0} → A → Exec S A
  return a s = (ok a, s)

  abbrev pub throw : {A : Type 0} → Any → Exec S A
  throw v s = (panic v, s)

  abbrev pub lift : {A : Type 0} → Outcome A → Exec S A
  lift r s = (r, s)

  abbrev pub gets : {A : Type 0} → (S → A) → Exec S A
  gets f s = (ok (f s), s)

  abbrev pub modify : (S → S) → Exec S (Unit {0})
  modify f s = (ok tt, f s)

  abbrev pub and_then : {A B : Type 0} → Outcome A × S → (A → Exec S B) → Outcome B × S
  and_then (ok a, s) f = f a s
  and_then (panic v, s) f = (panic v, s)

  infixl 5 ◌>>=◌ ◌>>◌
  abbrev pub ◌>>=◌ : {A B : Type 0} → Exec S A → (A → Exec S B) → Exec S B
  ◌>>=◌ m f s = and_then (m s) f

  abbrev pub ◌>>◌ : {A B : Type 0} → Exec S A → Exec S B → Exec S B
  m >> k = m >>= λ _. k

  -- A read through a pointer or an index that may fail.
  abbrev pub or_nil : {A : Type 0} → Option A → Exec S A
  or_nil none s = (panic (runtime_error nil_dereference), s)
  or_nil (some a) s = (ok a, s)

  abbrev pub or_out_of_range : {A : Type 0} → Option A → Exec S A
  or_out_of_range none s = (panic (runtime_error index_out_of_range), s)
  or_out_of_range (some a) s = (ok a, s)

  abbrev pub or_unspecified : {A : Type 0} → Option A → Exec S A
  or_unspecified none s = (panic (runtime_error unspecified), s)
  or_unspecified (some a) s = (ok a, s)

  -- defer: `f` runs whether `m` returns or panics
  abbrev pub finally : {A : Type 0} → Exec S A → (S → S) → Exec S A
  finally m f s = let (r, t) = m s in (r, f t)

-- Code that changes a part of the state.
abbrev pub zoom : {A S W : Type 0} → (W → S) → (S → W → W) → Exec S A → Exec W A
zoom get put m w = let (r, s) = m (get w) in (r, put s w)
