-- ===== src/Objects.antt =====
-- Any history of the operations on objects that own a C object, with the collector at any moment: those
-- of `Config`, `Engine`, `WasiConfig`, `Store`, `Module`, `Linker` and `Error`, and NewFunc, WrapFunc,
-- Func.Call and NewInstance. DefineFunc is WrapFunc and then Define.
pub mod Invariant
use wasmtime_go.Base.{ℕ, String, Bool, Option, List, []}
use wasmtime_go.Extern.{CExtern}
use wasmtime_go.Go.Outcome.{◌>>◌}
use wasmtime_go.Native.{Class, Request, State, Wasmtime, call, collect}
use wasmtime_go.Native.Operations.{Loaded}
use wasmtime_go.Bytes.{error_error, exit_status}
use wasmtime_go.Config.{new_config, new_engine, new_engine_with_config, increment_epoch}
use wasmtime_go.Config.Method
use wasmtime_go.Config.Method.{Method}
use wasmtime_go.Context.{
  gc, make_func, start_call, left_wasm, set_epoch_deadline, limiter, set_wasi_ctx, open_store,
  fuel_consumed, add_fuel, consume_fuel, get_wasi_ctx, store_insert_file, store_push_file,
}
use wasmtime_go.Linking.{
  allow_shadowing, new_linker, define, define_instance, define_module, define_wasi, get_default,
  define_func_env, start_instantiate, start_instance, get,
}
use wasmtime_go.Module.{
  Files, new_module, new_module_from_file, new_module_deserialize, new_module_deserialize_file,
  module_validate, read_imports, read_exports, serialize, wat2wasm,
}
use wasmtime_go.Wasi.{
  new_wasi_config, set_argv, set_env, inherit_argv, inherit_env, inherit_stdin, inherit_stdout,
  inherit_stderr, set_stdin_file, set_stdout_file, set_stderr_file, preopen_dir, set_wasi_config,
}

-- One call, on any references, whether it returns or panics. A reference that is not to an object of
-- the type at hand stands for nil. SetWasiConfig is called on a store that is not nil.
pub data Step (api : Wasmtime) (s : State) : State → Type 0 where
  collects : (class : Class) (ref : ℕ) → Step api s (collect class ref s).1
  -- config.go and engine.go
  makes_config : Step api s (new_config api s).1
  configures : (m : Method) (cfg : ℕ) → Step api s (Method.run api m cfg s).1
  makes_engine : Step api s (new_engine api s).1
  makes_engine_with_config : (cfg : ℕ) → Step api s (new_engine_with_config api cfg s).1
  increments_epoch : (engine : ℕ) → Step api s (increment_epoch engine s).1
  -- wasi.go
  makes_wasi_config : Step api s (new_wasi_config api s).1
  sets_argv : (c : ℕ) (argv : List String) → Step api s (set_argv c argv s).1
  sets_env : (c : ℕ) (keys values : List String) → Step api s (set_env c keys values s).1
  inherits_argv : (c : ℕ) → Step api s (inherit_argv c s).1
  inherits_env : (c : ℕ) → Step api s (inherit_env c s).1
  inherits_stdin : (c : ℕ) → Step api s (inherit_stdin c s).1
  inherits_stdout : (c : ℕ) → Step api s (inherit_stdout c s).1
  inherits_stderr : (c : ℕ) → Step api s (inherit_stderr c s).1
  sets_stdin_file : (c : ℕ) (path : String) → Step api s (set_stdin_file api c path s).1
  sets_stdout_file : (c : ℕ) (path : String) → Step api s (set_stdout_file api c path s).1
  sets_stderr_file : (c : ℕ) (path : String) → Step api s (set_stderr_file api c path s).1
  preopens_dir : (c : ℕ) (path guest : String) → Step api s (preopen_dir api c path guest s).1
  sets_wasi_config :
      (store wasi : ℕ) → Loaded Class.store store s → Step api s (set_wasi_config store wasi s).1
  -- store.go
  makes_store : (engine : ℕ) → Step api s (open_store api engine s).1
  collects_garbage : (store : ℕ) → Step api s (gc store s).1
  sets_epoch_deadline : (store n : ℕ) → Step api s (set_epoch_deadline store n s).1
  limits : (store a b c d e : ℕ) → Step api s (limiter store a b c d e s).1
  reads_fuel : (store : ℕ) → Step api s (fuel_consumed api store s).1
  adds_fuel : (store fuel : ℕ) → Step api s (add_fuel api store fuel s).1
  consumes_fuel : (store fuel : ℕ) → Step api s (consume_fuel api store fuel s).1
  -- func.go; a call that runs wasm is a step that starts it and one that leaves it, with the steps of
  -- the host functions in between
  makes_func : (store kind env : ℕ) → Step api s (make_func store kind env s).1
  starts_call : (store f : ℕ) → Step api s (start_call store f s).1
  leaves_wasm : Step api s (left_wasm api s).1
  sets_wasi_ctx : (store : ℕ) (ctx : Option ℕ) → Step api s (set_wasi_ctx store ctx s).1
  gets_wasi_ctx : (store : ℕ) → Step api s (get_wasi_ctx api store s).1
  inserts_file :
      (store fd file mode : ℕ) → Step api s (store_insert_file api store fd file mode s).1
  pushes_file : (store file mode : ℕ) → Step api s (store_push_file api store file mode s).1
  -- module.go and wat2wasm.go
  makes_module : (engine : ℕ) (wasm : List ℕ) → Step api s (new_module api engine wasm s).1
  reads_module :
      (files : Files) (engine : ℕ) (file : String)
      → Step api s (new_module_from_file api files engine file s).1
  deserializes :
      (engine : ℕ) (bytes : List ℕ) → Step api s (new_module_deserialize api engine bytes s).1
  deserializes_file :
      (engine : ℕ) (path : String) → Step api s (new_module_deserialize_file api engine path s).1
  validates : (engine : ℕ) (wasm : List ℕ) → Step api s (module_validate api engine wasm s).1
  reads_imports : (m : ℕ) → Step api s (read_imports api m s).1
  reads_exports : (m : ℕ) → Step api s (read_exports api m s).1
  serializes : (m : ℕ) → Step api s (serialize api m s).1
  parses : (files : Files) (wat : List ℕ) → Step api s (wat2wasm api files wat s).1
  -- linker.go
  makes_linker : (engine : ℕ) → Step api s (new_linker api engine s).1
  allows_shadowing : (l : ℕ) (allow : Bool) → Step api s (allow_shadowing l allow s).1
  defines :
      (l store : ℕ) (module' name : String) (item : CExtern)
      → Step api s (define api l store module' name item s).1
  defines_instance :
      (l store : ℕ) (name : String) (i : ℕ) → Step api s (define_instance api l store name i s).1
  defines_module :
      (l store : ℕ) (name : String) (m : ℕ) → Step api s (define_module api l store name m s).1
  defines_wasi : (l : ℕ) → Step api s (define_wasi api l s).1
  defines_func :
      (l : ℕ) (module' name : String) (kind env : ℕ)
      → Step api s (define_func_env api l module' name kind env s).1
  starts_instantiate : (l store m : ℕ) → Step api s (start_instantiate l store m s).1
  -- instance.go
  starts_instance :
      (store m : ℕ) (imports : List CExtern) → Step api s (start_instance store m imports s).1
  gets_default : (l store : ℕ) (name : String) → Step api s (get_default api l store name s).1
  gets_item : (l store : ℕ) (module' name : String) → Step api s (get api l store module' name s).1
  -- error.go
  reads_error : (e : ℕ) → Step api s (error_error api e s).1
  reads_exit_status : (e : ℕ) → Step api s (exit_status api e s).1

abbrev pub nothing : State
nothing = record { log = []; objects = [] }

pub data History (api : Wasmtime) : State → Type 0 where
  start : History api nothing
  step : (s t : State) → History api s → Step api s t → History api t
