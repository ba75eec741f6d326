-- ===== src/Examples.antt =====
-- Concrete states, host functions and runs: the tests of the model, and the inputs at which the
-- theorems are applied. One store, with one function of `NewFunc` and one of `WrapFunc`.
mod Tests
mod Slabs
mod Stores
mod Values
mod NewCalls
mod WrapCalls
mod Calls
mod Linkers
mod Externs
mod Histories
mod Objects
mod Modules
mod Tables
mod HostCalls
mod Items
mod Goroutines
mod TypeCalls
use wasmtime_go.Base.{ℕ, ◌≡◌, refl, true, false, Option, none, some, List, [], ◌∷◌, arith}
use wasmtime_go.Go.Value.{Val, Any, nil, text}
use wasmtime_go.Go.Outcome.{Exec, ok, return, throw}
use wasmtime_go.Kind.{ValKind, i32, i64, FuncType}
use wasmtime_go.Registry
use wasmtime_go.Registry.{Registry}
use wasmtime_go.Registry.Laws.{IsValid, empty-IsValid}
use wasmtime_go.Slab.Spec.{pool}
use wasmtime_go.Slab.Chain.{stop}
use wasmtime_go.World
use wasmtime_go.World.{
  World, Host, GoType, Callback, FuncNewEntry, FuncWrapEntry, StoreData, initial,
}
use wasmtime_go.Store.{get_func_new, get_func_wrap}

abbrev new_entry : FuncNewEntry
new_entry = record { callback = 0; results = i32 ∷ [] }

abbrev callback : Callback
callback = record {
  signature = record {
    ins = GoType.caller ∷ GoType.int32 ∷ [];
    outs = GoType.int64 ∷ GoType.other 0 ∷ GoType.trap ∷ [];
  };
  code = 0;
}

abbrev wrap_entry : FuncWrapEntry
wrap_entry = record { callback = callback }

abbrev quiet_data : StoreData
quiet_data = record {
  engine = 0;
  func_new = new_entry ∷ [];
  func_wrap = wrap_entry ∷ [];
  last_panic = nil;
}

abbrev panicked_data : StoreData
panicked_data = record quiet_data { last_panic = text "boom" }

-- A table with one value.
abbrev one_entry : {V : Type 0} → V → Registry V
one_entry v = record {
  slab = record { list = 1 ∷ []; next = 1 };
  entries = Registry.update 0 (some v) (λ i. none);
}

one_entry-IsValid : {V : Type 0} (v : V) → IsValid (one_entry v)
one_entry-IsValid v = record {
  pool = pool 1 [];
  holds = record {
    represents = record { sized = refl; chain = stop refl };
    keys = λ i. ground arith;
  };
}

-- A table with two values.
abbrev two_entries : {V : Type 0} → V → V → Registry V
two_entries u v = record {
  slab = record { list = 1 ∷ 2 ∷ []; next = 2 };
  entries = Registry.update 1 (some v) (Registry.update 0 (some u) (λ i. none));
}

two_entries-IsValid : {V : Type 0} (u v : V) → IsValid (two_entries u v)
two_entries-IsValid u v = record {
  pool = pool 2 [];
  holds = record {
    represents = record { sized = refl; chain = stop refl };
    keys = λ i. ground arith;
  };
}

abbrev own_trap : World.Trap
own_trap = record { ptr = some 5; finalizer = true }

abbrev spent_trap : World.Trap
spent_trap = record { ptr = none; finalizer = false }

abbrev world_with : World.Trap → StoreData → World
world_with trap sd = record initial {
  stores = one_entry 0;
  store_data = sd ∷ [];
  traps = trap ∷ [];
}

abbrev world : World
world = world_with own_trap quiet_data

found_new : get_func_new (some 0) 1 world ≡ (ok (some new_entry), world)
unfolding get_func_new
found_new = refl

found_wrap : get_func_wrap (some 0) 1 world ≡ (ok (some wrap_entry), world)
unfolding get_func_wrap
found_wrap = refl

found_spent :
    get_func_new (some 0) 1 (world_with spent_trap quiet_data)
    ≡ (ok (some new_entry), world_with spent_trap quiet_data)
unfolding get_func_new
found_spent = refl

abbrev new_host : (List Val → Exec World (List Val × Option ℕ)) → Host
new_host f = record {
  call_new = λ code caller params. f params;
  call_wrap = λ code params. return [];
  trap_new = λ message w. 7;
  assignable = λ v n. true;
}

abbrev wrap_host : (List Any → Exec World (List Any)) → Host
wrap_host f = record {
  call_new = λ code caller params. return ([], none);
  call_wrap = λ code params. f params;
  trap_new = λ message w. 7;
  assignable = λ v n. true;
}
