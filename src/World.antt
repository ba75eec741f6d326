-- ===== src/World.antt =====
-- The state that the Go functions share: the global tables, and the Go objects that are written
-- through pointers. A pointer to such an object is its index in the list of objects of its type.
use wasmtime_go.Base.{ℕ, String, Bool, Option, List, []}
use wasmtime_go.Go.Value.{Any, Val}
use wasmtime_go.Go.Outcome.{Exec}
use wasmtime_go.Kind.{ValKind}
use wasmtime_go.Registry
use wasmtime_go.Registry.{Registry}

-- A `reflect.Type`: the types that func.go tells apart, and any further type.
pub data GoType : Type 0 where
  int32 int64 float32 float64 func trap caller : GoType
  other : ℕ → GoType

-- The type of a Go function.
pub record Signature : Type 0 where
  pub ins : List GoType
  pub outs : List GoType

-- The `reflect.Value` of a Go function: its type, and a number for its code.
pub record Callback : Type 0 where
  pub signature : Signature
  pub code : ℕ

-- funcNewEntry; the closure is a number for its code.
pub record FuncNewEntry : Type 0 where
  pub callback : ℕ
  pub results : List ValKind

-- funcWrapEntry
pub record FuncWrapEntry : Type 0 where
  pub callback : Callback

-- storeData; `nil` in `last_panic` is Go's nil interface.
pub record StoreData : Type 0 where
  pub engine : ℕ
  pub func_new : List FuncNewEntry
  pub func_wrap : List FuncWrapEntry
  pub last_panic : Any

-- trap.go's `Trap`: the C pointer, none for nil, and whether a finalizer is set.
pub record Trap : Type 0 where
  pub ptr : Option ℕ
  pub finalizer : Bool

pub record World : Type 0 where
  -- gStoreMap and gStoreSlab; the values are pointers to `storeData`
  pub stores : Registry ℕ
  -- gEngineFuncNew, gEngineFuncWrap and gExternrefMap, each with its slab
  pub engine_new : Registry FuncNewEntry
  pub engine_wrap : Registry FuncWrapEntry
  pub externrefs : Registry Any
  -- the objects
  pub store_data : List StoreData
  pub traps : List Trap
  -- func.go's `Caller`: its C pointer, none for nil, as the index that its context's data holds
  pub callers : List (Option ℕ)

-- What the Go code calls and does not implement: the embedder's closures by the number of their
-- code, `wasmtime_trap_new`, and which values reflection takes for a further type.
pub record Host : Type 0 where
  pub call_new : ℕ → ℕ → List Val → Exec World (List Val × Option ℕ)
  pub call_wrap : ℕ → List Any → Exec World (List Any)
  pub trap_new : String → World → ℕ
  pub assignable : Any → ℕ → Bool

abbrev pub initial : World
initial = record {
  stores = Registry.empty;
  engine_new = Registry.empty;
  engine_wrap = Registry.empty;
  externrefs = Registry.empty;
  store_data = [];
  traps = [];
  callers = [];
}
