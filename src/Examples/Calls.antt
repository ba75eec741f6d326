-- ===== src/Examples/Calls.antt =====
-- `Func.Call` at concrete arguments.
use wasmtime_go.Base.{none, ◌≡◌, refl, none, [], ◌∷◌, arith}
use wasmtime_go.Go.Value.{int, int32}
use wasmtime_go.Go.Outcome.{ok}
use wasmtime_go.Kind.{FuncType, i32, f32}
use wasmtime_go.Registry.Laws.{empty-IsValid}
use wasmtime_go.World.{World}
use wasmtime_go.Store.{Storelike, context}
use wasmtime_go.Call.{call}
use wasmtime_go.Call.Identity.{identity, call-identity}
use wasmtime_go.Examples.{world, quiet_data}

abbrev ty : FuncType
ty = record { params = i32 ∷ f32 ∷ []; results = [] }

in_context : context (Storelike.store 0) world ≡ (ok 0, world)
unfolding context
in_context = refl

-- 2 ^ 32 + 5 as an i32
call-identity_example :
    (u : World) × (call
        (Storelike.store 0)
        (record { params = i32 ∷ []; results = i32 ∷ [] })
        identity
        (int 4294967301 ∷ [])
        world
      ≡ (ok (record { value = int32 5; error = none }), u))
call-identity_example =
    call-identity 0 0 i32 (int 4294967301) (int32 5) world quiet_data refl refl refl refl
      empty-IsValid (omega arith)
