-- ===== src/Go/Value.antt =====
-- Values that cross between Go and C: `wasmtime_func_t`, `wasmtime_val_t` (val.h), `Val` (val.go)
-- and what the code keeps in an `interface{}`.
use wasmtime_go.Base.{ℕ, String, Option, List}

-- wasmtime_func_t
pub record CFunc : Type 0 where
  pub store_id : ℕ
  pub index : ℕ

-- The constants WASMTIME_I32 and so on of `wasmtime_val_t.kind`. They label the cases of one Go
-- switch, so the Go compiler has checked that they differ.
pub data Tag : Type 0 where
  i32 i64 f32 f64 funcref externref : Tag
  other : ℕ → Tag

-- The union `wasmtime_val_t.of`, as the member that was written last. An `externref` points to an
-- object of wasmtime, which is told from the others by the `env` that it was made with.
pub data Payload : Type 0 where
  zeroed : Payload
  i32 i64 f32 f64 : ℕ → Payload
  funcref : CFunc → Payload
  externref : Option ℕ → Payload

-- wasmtime_val_t
pub record CVal : Type 0 where
  pub kind : Tag
  pub of : Payload

-- val.go's `Val`. The C value that `_raw` points to is not written after it is made, so its address
-- is not modelled; `none` is the nil pointer of `Val{}`.
pub record Val : Type 0 where
  pub raw : Option CVal

-- Run-time errors. `unspecified` is no panic of Go: it marks a read for which the model has no value,
-- of a union's member that is not the one written last.
pub data RuntimeError : Type 0 where
  index_out_of_range nil_dereference unspecified : RuntimeError

-- An `interface{}`. Integers and floats are bit patterns; a `*Trap` and a `*Caller` are references
-- to objects; `other` is a value of any further type, with a number for its type.
pub data Any : Type 0 where
  nil : Any
  int int32 int64 float32 float64 : ℕ → Any
  func : Option CFunc → Any
  trap : Option ℕ → Any
  caller : ℕ → Any
  val : Val → Any
  vals : List Val → Any
  text : String → Any
  runtime_error : RuntimeError → Any
  other : ℕ → ℕ → Any
