-- ===== src/Infer.antt =====
-- func.go: the wasm type that `WrapFunc` infers for a Go function.
pub mod Spec
use wasmtime_go.Base.{
  ℕ, ◌+◌, ◌-◌, Bool, true, false, ◌&&◌, Option, none, some, List, [], ◌∷◌, ◌==◌, if◌then◌else◌,
  length,
}
use wasmtime_go.Go.Value.{text}
use wasmtime_go.Go.Outcome.{Outcome, ok, panic}
use wasmtime_go.Kind.{ValKind, FuncType, i32, i64, f32, f64, externref, funcref}
use wasmtime_go.World.{GoType, int32, int64, float32, float64, func, trap, caller, Signature}

-- typeToValType
unfoldable pub type_to_val_type : GoType → ValKind
type_to_val_type int32 = i32
type_to_val_type int64 = i64
type_to_val_type float32 = f32
type_to_val_type float64 = f64
type_to_val_type func = funcref
type_to_val_type _ = externref

abbrev pub is_caller : GoType → Bool
is_caller caller = true
is_caller _ = false

abbrev pub is_trap : GoType → Bool
is_trap trap = true
is_trap _ = false

-- The loop over the parameters.
infer_params : List GoType → List ValKind
infer_params [] = []
infer_params (t ∷ ts) =
    let rest = infer_params ts in if is_caller t then rest else type_to_val_type t ∷ rest

-- The loop over the results, from the result with index `i` of `num_out`.
infer_results : ℕ → ℕ → List GoType → List ValKind
infer_results num_out i [] = []
infer_results num_out i (t ∷ ts) =
    let rest = infer_results num_out (i + 1) ts in
    if (i == num_out - 1) && is_trap t then rest else type_to_val_type t ∷ rest

-- inferFuncType; none stands for a value that is no function
unfoldable pub infer_func_type : Option Signature → Outcome FuncType
unfolding infer_params infer_results
infer_func_type none = panic (text "callback provided must be a `func`")
infer_func_type (some sig) =
    ok (record {
      params = infer_params sig.ins;
      results = infer_results (length sig.outs) 0 sig.outs;
    })
