-- ===== src/Native/Trace.antt =====
-- What a sequence of calls of wasmtime asks of the pointers in it.
use wasmtime_go.Base.{
  ℕ, ◌+◌, ◌-◌, ◌≡◌, Bool, true, false, not, ◌&&◌, Option, none, some, List, [], ◌∷◌, ltb, ◌==◌,
  if◌then◌else◌, remove, arith,
}
use wasmtime_go.Native.{Class, Event}

abbrev pub one : ℕ → ℕ → ℕ
one p q = if p == q then 1 else 0

abbrev pub count : ℕ → List ℕ → ℕ
count p [] = 0
count p (q ∷ qs) = one p q + count p qs

abbrev pub held : ℕ → List ℕ → Bool
held p qs = ltb 0 (count p qs)

pub count-remove : (p q : ℕ) (xs : List ℕ) → count p (remove q xs) ≡ count p xs - one p q
count-remove p q [] = ground arith
count-remove p q (x ∷ xs) = ground (arith, count-remove p q xs)

abbrev pub without : Option ℕ → List ℕ → List ℕ
without none xs = xs
without (some p) xs = remove p xs

-- The C objects that the Go side has to delete: made, not deleted, and not taken over by wasmtime.
abbrev pub live : List Event → List ℕ
live [] = []
live (Event.created class p ∷ log) = p ∷ live log
live (Event.deleted class p ∷ log) = without p (live log)
live (Event.consumed class p ∷ log) = without p (live log)
live (Event.called class p request ∷ log) = live log

abbrev pub is_live : Option ℕ → List ℕ → Bool
is_live none xs = false
is_live (some p) xs = held p xs

-- The methods of `WasiConfig` do not test their pointer.
abbrev pub may_be_nil : Class → Bool
may_be_nil Class.wasi_config = true
may_be_nil _ = false

abbrev pub usable : Class → Option ℕ → List ℕ → Bool
usable class none xs = may_be_nil class
usable class (some p) xs = held p xs

-- A call is safe if it is handed a live object, and a new object is at an address of its own.
abbrev pub safe_at : Event → List ℕ → Bool
safe_at (Event.created class p) xs = not (held p xs)
safe_at (Event.deleted class p) xs = is_live p xs
safe_at (Event.consumed class p) xs = is_live p xs
safe_at (Event.called class p request) xs = usable class p xs

abbrev pub is_safe : List Event → Bool
is_safe [] = true
is_safe (e ∷ log) = safe_at e (live log) && is_safe log
