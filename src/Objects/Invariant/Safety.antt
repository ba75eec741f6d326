-- ===== src/Objects/Invariant/Safety.antt =====
-- What the balance means for C objects: none is used after it is freed, none is freed twice, and none
-- is left when the collector has taken every Go object.
use wasmtime_go.Base.{
  zero, suc, ℕ, ◌<◌, ◌≡◌, Bool, true, false, Option, none, some, arith, length, get_elem?, set, ◌⊎◌,
  if◌then◌else◌,
}
use wasmtime_go.Go.Outcome.{Exec, return}
use wasmtime_go.Native.{Object, State, Wasmtime, collect}
use wasmtime_go.Native.Trace.{held, live}
use wasmtime_go.Native.Owned.{owners, Owned}
use wasmtime_go.Native.Operations.{Fresh}
use wasmtime_go.Objects.{History}
use wasmtime_go.Objects.Invariant.{History-Owned}

module _ {api : Wasmtime} {s : State} (fresh : Fresh api) (h : History api s) where
  -- Under the same conditions, a C object that is live has one Go object with a finalizer that
  -- deletes it, and no Go object would delete one that is not live.
  pub owners-live : (p : ℕ) → owners p s.objects ≡ (if held p (live s.log) then 1 else 0)
  owners-live p = let b = History-Owned api fresh h in ground (arith, b.balance p, b.distinct p)

-- A cycle of the collector that takes every Go object.
abbrev take_at : ℕ → Option (Option Object) → Exec State (Unit {0})
take_at ref (some (some o)) = collect o.class ref
take_at ref _ = return tt

abbrev visit : ℕ → State → State
visit ref s = (take_at ref (get_elem? s.objects ref) s).1

pub sweep : ℕ → State → State
sweep zero s = s
sweep (suc n) s = visit n (sweep n s)

pub collect_all : State → State
collect_all s = sweep (length s.objects) s

abbrev is_gone : Option (Option Object) → Bool
is_gone (some (some o)) = false
is_gone _ = true

-- A visit of the collector leaves nothing at the reference, and every other object as it was.
abbrev Visits : ℕ → State → State → Type 0
Visits ref s t =
    ((is_gone (get_elem? s.objects ref) ≡ true) × (t.objects ≡ s.objects))
    ⊎ ((ref < length s.objects) × (t.objects ≡ set s.objects ref none))
