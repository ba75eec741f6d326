-- ===== src/Native/Owned.antt =====
-- Every C object that the Go side has to delete has one Go object that owns it.
use wasmtime_go.Base.{
  zero, suc, ℕ, ◌+◌, ◌≤◌, ◌≡◌, refl, Bool, true, false, not, ◌&&◌, Option, none, some, List, [],
  ◌∷◌, ◌++◌, get_elem?, set, is_some, arith,
}
use wasmtime_go.Native.{Class, Object, State}
use wasmtime_go.Native.Trace.{one, count, live, is_safe}

abbrev pub holds_ptr : ℕ → Bool → Option ℕ → ℕ
holds_ptr p true (some q) = one p q
holds_ptr p _ _ = 0

-- How often a Go object would delete the C object at `p`: with a finalizer that is in force.
abbrev pub holds : ℕ → Option Object → ℕ
holds p none = 0
holds p (some o) = holds_ptr p o.finalizer o.ptr

abbrev pub owners : ℕ → List (Option Object) → ℕ
owners p [] = 0
owners p (x ∷ xs) = holds p x + owners p xs

-- An argument that a function takes over is a configuration.
abbrev pub is_argument : Class → Bool
is_argument Class.config = true
is_argument Class.wasi_config = true
is_argument _ = false

abbrev pub is_shaped_by : Class → Bool → Option ℕ → Bool
is_shaped_by class true p = is_some p
is_shaped_by class false p = not (is_some p) && is_argument class

-- The finalizer is in force exactly while there is a pointer, and only a configuration loses it.
abbrev pub is_shaped : Option Object → Bool
is_shaped none = true
is_shaped (some o) = is_shaped_by o.class o.finalizer o.ptr

abbrev pub are_shaped : List (Option Object) → Bool
are_shaped [] = true
are_shaped (x ∷ xs) = is_shaped x && are_shaped xs

module _ (p : ℕ) where
  pub owners-append :
      (xs : List (Option Object)) (x : Option Object)
      → owners p (xs ++ x ∷ []) ≡ owners p xs + holds p x
  owners-append [] x = omega arith
  owners-append (y ∷ ys) x = omega (arith, owners-append ys x)

  pub owners-set :
      (xs : List (Option Object)) (i : ℕ) (x y : Option Object)
      → get_elem? xs i ≡ some x
      → owners p (set xs i y) + holds p x ≡ owners p xs + holds p y
  owners-set [] i x y h = absurd (ground arith)
  owners-set (z ∷ zs) zero x y h = ground arith
  owners-set (z ∷ zs) (suc i) x y h = omega (arith, owners-set zs i x y h)

  pub holds_le_owners :
      (xs : List (Option Object)) (i : ℕ) (x : Option Object)
      → get_elem? xs i ≡ some x
      → holds p x ≤ owners p xs
  holds_le_owners [] i x h = absurd (ground arith)
  holds_le_owners (z ∷ zs) zero x h = ground arith
  holds_le_owners (z ∷ zs) (suc i) x h = omega (arith, holds_le_owners zs i x h)

pub are_shaped-append :
    (xs : List (Option Object)) (x : Option Object)
    → is_shaped x ≡ true
    → are_shaped xs ≡ true
    → are_shaped (xs ++ x ∷ []) ≡ true
are_shaped-append [] x s h = ground arith
are_shaped-append (y ∷ ys) x s h = ground (arith, are_shaped-append ys x s)

pub are_shaped-set :
    (xs : List (Option Object)) (i : ℕ) (x : Option Object)
    → is_shaped x ≡ true
    → are_shaped xs ≡ true
    → are_shaped (set xs i x) ≡ true
are_shaped-set [] i x s h = refl
are_shaped-set (y ∷ ys) zero x s h = ground arith
are_shaped-set (y ∷ ys) (suc i) x s h = ground (arith, are_shaped-set ys i x s)

pub is_shaped-get_elem? :
    (xs : List (Option Object)) (i : ℕ) (x : Option Object)
    → are_shaped xs ≡ true
    → get_elem? xs i ≡ some x
    → is_shaped x ≡ true
is_shaped-get_elem? [] i x h at = absurd (ground arith)
is_shaped-get_elem? (y ∷ ys) zero x h at = ground arith
is_shaped-get_elem? (y ∷ ys) (suc i) x h at = is_shaped-get_elem? ys i x (ground arith) at

-- The C objects and their owners. `debts` are objects that wasmtime has taken over or that are
-- deleted, and that a Go object still points to; `credits` are live objects without a Go object.
pub record Balanced (debts credits : List ℕ) (s : State) : Type 0 where
  pub safe : is_safe s.log ≡ true
  pub distinct : (p : ℕ) → count p (live s.log) ≤ 1
  pub balance :
      (p : ℕ) → count p (live s.log) + count p debts ≡ owners p s.objects + count p credits
  pub shaped : are_shaped s.objects ≡ true

abbrev pub Owned : State → Type 0
Owned s = Balanced [] [] s
