-- ===== src/Call.antt =====
-- func.go: `Func.Call`, and the functions that hand a Go function to a store.
pub mod Arguments
pub mod Conversion
pub mod HostFunction
pub mod HostFailure
pub mod Numbers
pub mod Parameters
pub mod WrappedFunction
pub mod WrappedFailure
pub mod Identity
pub mod Panics
use mathlib.Core.Option
use wasmtime_go.Base.{
  ℕ, ◌+◌, ◌%◌, ◌^◌, Option, none, some, List, [], ◌∷◌, ltb, if◌then◌else◌, length, get_elem?, map,
}
use wasmtime_go.Go.Value.{
  Tag, Payload, CVal, Any, nil, int, int32, int64, float32, float64, func, val, vals,
}
use wasmtime_go.Go.Outcome.{Exec, return, lift, or_nil, or_out_of_range, ◌>>=◌}
use wasmtime_go.Kind.{ValKind, FuncType, i32, i64}
use wasmtime_go.World.{World, Callback}
use wasmtime_go.Store.{Storelike, context, get_data_in_store, insert_func_new, insert_func_wrap}
use wasmtime_go.Val.{mk_val, val_externref, get}
use wasmtime_go.Infer.{infer_func_type}
use wasmtime_go.Enter.{GoError, message, Ran, enter_wasm}

-- What is handed to wasmtime_func_new: the type, the env, and whether it is `WrapFunc`.
pub record Registered : Type 0 where
  pub ty : FuncType
  pub env : ℕ

-- NewFunc
unfoldable pub new_func : Storelike → FuncType → ℕ → Exec World Registered
new_func s ty f = do
  ptr ← get_data_in_store s
  idx ← insert_func_new ptr ty f
  _ ← context s
  return (record { ty = ty; env = idx })

-- WrapFunc
unfoldable pub wrap_func : Storelike → Option Callback → Exec World Registered
wrap_func s f = do
  ty ← lift (infer_func_type (Option.map (λ c. c.signature) f))
  callback ← or_nil f
  ptr ← get_data_in_store s
  idx ← insert_func_wrap ptr callback
  _ ← context s
  return (record { ty = ty; env = idx })

abbrev c_val : Tag → Payload → CVal
c_val tag of = record { kind = tag; of = of }

-- An argument as a C value, or the message of the error that `Call` returns for it.
pub data Converted (A : Type 0) : Type 0 where
  ready : A → Converted A
  refused : Converted A

-- `case int`, by the kind of the parameter
convert_int : ℕ → ValKind → Converted CVal
convert_int n i32 = ready (c_val Tag.i32 (Payload.i32 (n % 2 ^ 32)))
convert_int n i64 = ready (c_val Tag.i64 (Payload.i64 n))
convert_int n _ = refused

-- The type switch on the argument with index `i`.
convert : List ValKind → ℕ → Any → Exec World (Converted CVal)
unfolding convert_int
convert params i (int n) = do k ← or_out_of_range (get_elem? params i); return (convert_int n k)
convert params i (int32 n) = return (ready (c_val Tag.i32 (Payload.i32 n)))
convert params i (int64 n) = return (ready (c_val Tag.i64 (Payload.i64 n)))
convert params i (float32 n) = return (ready (c_val Tag.f32 (Payload.f32 n)))
convert params i (float64 n) = return (ready (c_val Tag.f64 (Payload.f64 n)))
convert params i (func f) = do c ← or_nil f; return (ready (c_val Tag.funcref (Payload.funcref c)))
convert params i (val v) = do c ← or_nil v.raw; return (ready c)
convert params i v = do x ← val_externref v; c ← or_nil x.raw; return (ready c)

unfoldable pub convert_all : List ValKind → ℕ → List Any → Exec World (Converted (List CVal))
unfolding convert
convert_all params i [] = return (ready [])
convert_all params i (a ∷ as') = do
  first ← convert params i a
  elim first [
    | refused ↦ return refused
    | ready c ↦ do
      rest ← convert_all params (i + 1) as'
      elim rest [ refused ↦ return refused | ready cs ↦ return (ready (c ∷ cs)) ]
  ]

-- The value and the error of a call.
pub record Returned : Type 0 where
  pub value : Any
  pub error : Option GoError

pub collect : List CVal → Exec World Any
collect [] = return nil
collect (c ∷ []) = get (mk_val c)
collect (c ∷ d ∷ cs) = return (vals (map mk_val (c ∷ d ∷ cs)))

finish_call : Option GoError × List CVal → Exec World Returned
unfolding collect
finish_call (some e, results) = return (record { value = nil; error = some e })
finish_call (none, results) = do v ← collect results; return (record { value = v; error = none })

-- Func.Call. `ty` is the type that wasmtime gives for the function, and `run` is
-- wasmtime_func_call at the C arguments and the number of results.
unfoldable pub call :
    Storelike
    → FuncType
    → (List CVal → ℕ → Exec World (Ran (List CVal)))
    → List Any
    → Exec World Returned
unfolding convert_all finish_call
call s ty run args = do
  _ ← context s
  if ltb (length ty.params) (length args)
      then return (record { value = nil; error = some (message "too many arguments provided") })
      else do
        converted ← convert_all ty.params 0 args
        elim converted [
          | refused ↦ return (record {
            value = nil;
            error = some (message "integer provided for non-integer argument");
          })
          | ready params ↦ do
            result ← enter_wasm s (do _ ← context s; run params (length ty.results))
            finish_call result
        ]
