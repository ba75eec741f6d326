-- ===== src/Examples/HostCalls.antt =====
-- `Func.Call` of a host function at a concrete state.
use wasmtime_go.Base.{get_elem?, ◌≡◌, refl, some, none, List, [], ◌∷◌, arith, map, Option}
use wasmtime_go.Go.Outcome.{ok, panic, throw, return}
use wasmtime_go.Go.Value.{text}
use wasmtime_go.World.{World, Host}
use wasmtime_go.Store.{Storelike}
use wasmtime_go.Call.{Registered, new_func, wrap_func, call}
use wasmtime_go.Call.Numbers.{Number, any_of, vals_of, type_of, packed}
use wasmtime_go.Call.HostFunction.{host_run, registered, call-new_func}
use wasmtime_go.Call.HostFailure.{call-new_func_panicked}
use wasmtime_go.Call.Parameters.{numbers, function}
use wasmtime_go.Call.WrappedFailure.{call-wrap_func_panicked}
use wasmtime_go.Call.WrappedFunction.{wrap_run, call-wrap_func}
use wasmtime_go.Store.FuncWrap.{with_func_wrap}
use wasmtime_go.Trampoline.Caller.{opened}
use wasmtime_go.Examples.{world, quiet_data, new_host, wrap_host}

-- The host function takes an i32 and an i64, and returns an f64.
abbrev taken : List Number
taken = Number.i32 3 ∷ Number.i64 4 ∷ []

abbrev given : List Number
given = Number.f64 7 ∷ []

abbrev gives_f64 : Host
gives_f64 = new_host (λ params. return (vals_of given, none))

abbrev with_function : World
with_function = registered world 0 quiet_data (type_of taken given) 9

call-new_func_example :
    (r : Registered) × (u : World) × (new_func (Storelike.store 0) (type_of taken given) 9 world
      ≡ (ok r, with_function))
    × (call (Storelike.store 0) r.ty (host_run gives_f64 0 r.env) (map any_of taken) with_function
        ≡ (ok (record { value = packed given; error = none }), u))
    × (u.store_data ≡ (opened with_function 0).store_data)
call-new_func_example =
    call-new_func gives_f64 0 0 9 world quiet_data taken given refl refl (omega arith)
      (opened with_function 0) (record quiet_data { func_new = _ }) refl refl refl

abbrev gives_boom : Host
gives_boom = new_host (λ params. throw (text "boom"))

call-new_func_panicked_example :
    (r : Registered) × (u : World) × (new_func (Storelike.store 0) (type_of taken given) 9 world
      ≡ (ok r, with_function))
    × (call (Storelike.store 0) r.ty (host_run gives_boom 0 r.env) (map any_of taken) with_function
        ≡ (panic (text "boom"), u))
    × (get_elem? u.store_data 0 ≡ get_elem? with_function.store_data 0)
call-new_func_panicked_example =
    call-new_func_panicked gives_boom 0 0 9 world quiet_data taken given refl refl (omega arith)
      (opened with_function 0) (record quiet_data { func_new = _ }) refl (text "boom") refl refl

abbrev gives_trap : Host
gives_trap = new_host (λ params. return ([], some 0))

-- The Go function takes an int32, its caller and a float64, and returns an int64 and an int32.
abbrev expected : List (Option Number)
expected = some (Number.i32 3) ∷ none ∷ some (Number.f64 4) ∷ []

abbrev returned : List Number
returned = Number.i64 8 ∷ Number.i32 9 ∷ []

abbrev gives_two : Host
gives_two = wrap_host (λ params. return (map any_of returned))

abbrev with_wrapped : World
with_wrapped = with_func_wrap world 0 quiet_data (function expected returned 5)

call-wrap_func_example :
    (r : Registered) × (u : World) × (wrap_func
        (Storelike.store 0)
        (some (function expected returned 5))
        world
      ≡ (ok r, with_wrapped))
    × (r.ty ≡ type_of (numbers expected) returned)
    × (call
          (Storelike.store 0)
          r.ty
          (wrap_run gives_two 0 r.env)
          (map any_of (numbers expected))
          with_wrapped
        ≡ (ok (record { value = packed returned; error = none }), u))
    × (u.store_data ≡ (opened with_wrapped 0).store_data)
call-wrap_func_example =
    call-wrap_func gives_two 0 0 5 world quiet_data expected returned refl refl (omega arith)
      (opened with_wrapped 0) (record quiet_data { func_wrap = _ }) refl refl refl

abbrev wrapped_boom : Host
wrapped_boom = wrap_host (λ params. throw (text "boom"))

call-wrap_func_panicked_example :
    (r : Registered) × (u : World) × (wrap_func
        (Storelike.store 0)
        (some (function expected returned 5))
        world
      ≡ (ok r, with_wrapped))
    × (call
          (Storelike.store 0)
          r.ty
          (wrap_run wrapped_boom 0 r.env)
          (map any_of (numbers expected))
          with_wrapped
        ≡ (panic (text "boom"), u))
    × (get_elem? u.store_data 0 ≡ get_elem? with_wrapped.store_data 0)
call-wrap_func_panicked_example =
    call-wrap_func_panicked wrapped_boom 0 0 5 world quiet_data expected returned refl refl
      (omega arith) (opened with_wrapped 0) (record quiet_data { func_wrap = _ }) (text "boom") refl
      refl refl
