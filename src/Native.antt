-- ===== src/Native.antt =====
-- The Go objects that own a C object: `Config`, `Engine`, `Store`, `Linker`, `Module`, `WasiConfig` and
-- `Error`, with the calls that the Go code makes of wasmtime. A reference is an index in the heap of
-- Go objects; an object that the collector took is gone.
pub mod Trace
pub mod Owned
pub mod Balance
pub mod Operations
use wasmtime_go.Base.{
  ℕ, String, Bool, true, false, Option, none, some, List, [], ◌∷◌, ◌++◌, length, get_elem?, set,
  ◌==◌, if◌then◌else◌,
}
use wasmtime_go.Extern.{CExtern}
use wasmtime_go.Go.Outcome.{Exec, return, gets, modify, or_nil, ◌>>=◌, ◌>>◌}

pub data Class : Type 0 where
  config engine store linker module' wasi_config error : Class

-- The fields `_ptr`, none for nil, and whether runtime.SetFinalizer is in force.
pub record Object : Type 0 where
  pub class : Class
  pub ptr : Option ℕ
  pub finalizer : Bool

-- The C functions that use an object, with the arguments beside it.
pub data Request : Type 0 where
  -- config.go
  debug_info wasm_threads wasm_reference_types wasm_simd wasm_bulk_memory wasm_multi_value :
      Bool → Request
  wasm_multi_memory wasm_memory64 consume_fuel cranelift_debug_verifier : Bool → Request
  epoch_interruption : Bool → Request
  max_wasm_stack strategy cranelift_opt_level profiler : ℕ → Request
  cache_config_load : Option String → Request
  target cranelift_flag_enable : String → Request
  cranelift_flag_set : String → String → Request
  -- engine.go, and what takes an engine
  increment_epoch store_new linker_new : Request
  module_new module_validate module_deserialize : List ℕ → Request
  module_deserialize_file : String → Request
  module_serialize module_imports module_exports : Request
  -- store.go
  context_gc fuel_consumed : Request
  set_epoch_deadline add_fuel context_consume_fuel : ℕ → Request
  limiter : ℕ → ℕ → ℕ → ℕ → ℕ → Request
  context_set_wasi set_default_wasi_if_not_exist get_wasi_ctx : Request
  context_set_wasi_ctx : ℕ → Request
  context_insert_file : ℕ → ℕ → ℕ → Request
  context_push_file : ℕ → ℕ → Request
  -- wasi.go; C strings in arrays come with the length that the code passes
  set_argv : ℕ → List String → Request
  set_env : ℕ → List String → List String → Request
  inherit_argv inherit_env inherit_stdin inherit_stdout inherit_stderr : Request
  set_stdin_file set_stdout_file set_stderr_file : String → Request
  preopen_dir : String → String → Request
  -- linker.go
  allow_shadowing : Bool → Request
  linker_define_wasi : Request
  linker_define linker_get : String → String → Request
  linker_define_instance linker_module linker_get_default : String → Request
  -- an object that such a call takes beside the first one, and an item
  argument : Request
  item : CExtern → Request
  instance' : ℕ → Request
  linker_instantiate : Request
  -- a function by its env and its kind, which is 1 for that of a wrapped function
  linker_define_func : String → String → ℕ → ℕ → Request
  -- func.go and instance.go
  func_new : ℕ → ℕ → Request
  func_call : ℕ → Request
  instance_new : List CExtern → Request
  -- error.go
  error_message error_exit_status : Request

-- A call of wasmtime: it makes a C object, deletes one, takes one over, or uses one.
pub data Event : Type 0 where
  created : Class → ℕ → Event
  deleted consumed : Class → Option ℕ → Event
  called : Class → Option ℕ → Request → Event

-- The calls so far, the last one first, and the Go objects.
pub record State : Type 0 where
  pub log : List Event
  pub objects : List (Option Object)

-- What wasmtime does at the end of the calls so far: where it puts a new object, whether the last call
-- reports a failure, and the number and the bytes that it writes.
pub record Wasmtime : Type 0 where
  pub address : List Event → ℕ
  pub fails : List Event → Bool
  pub number : List Event → ℕ
  pub bytes : List Event → List ℕ

abbrev pub code : Class → ℕ
code Class.config = 0
code Class.engine = 1
code Class.store = 2
code Class.linker = 3
code Class.module' = 4
code Class.wasi_config = 5
code Class.error = 6

abbrev pub if_class : Class → Object → Option Object
if_class class o = if code o.class == code class then some o else none

abbrev pub find : Class → Option (Option Object) → Option Object
find class none = none
find class (some none) = none
find class (some (some o)) = if_class class o

-- `*ref`, for a reference of the type that `class` stands for
abbrev pub load : Class → ℕ → Exec State Object
load class ref = do objects ← gets (λ s. s.objects); or_nil (find class (get_elem? objects ref))

abbrev pub emit : Event → Exec State (Unit {0})
emit e = modify (λ s. record s { log = e ∷ s.log })

abbrev pub write : ℕ → Option Object → Exec State (Unit {0})
write ref o = modify (λ s. record s { objects = set s.objects ref o })

-- The end of every constructor: `&Config{_ptr: ptr}` and its finalizer, and so for the others.
unfoldable pub mk_object : Class → ℕ → Exec State ℕ
mk_object class ptr s = return (length s.objects) (record s {
  objects = s.objects ++ some (record { class = class; ptr = some ptr; finalizer = true }) ∷ [];
})

-- The `ptr` methods, but for that of Config.
unfoldable pub ptr : Class → ℕ → Exec State (Option ℕ)
ptr class ref = do o ← load class ref; return o.ptr

-- A call that uses one object.
unfoldable pub call : Class → ℕ → Request → Exec State (Unit {0})
unfolding ptr
call class ref request = do p ← ptr class ref; emit (Event.called class p request)

-- _ptr = nil, and runtime.SetFinalizer(_, nil)
abbrev pub emptied : Object → Option Object
emptied o = some (record o { ptr = none; finalizer = false })

unfoldable pub clear : Class → ℕ → Exec State (Option ℕ)
clear class ref = do o ← load class ref; write ref (emptied o); return o.ptr

run_finalizer : Object → Exec State (Unit {0})
run_finalizer o = if o.finalizer then emit (Event.deleted o.class o.ptr) else return tt

-- The collector takes an object, and its finalizer, if it has one, deletes the C object.
unfoldable pub collect : Class → ℕ → Exec State (Unit {0})
unfolding run_finalizer
collect class ref = do o ← load class ref; write ref none; run_finalizer o

module _ (api : Wasmtime) where
  -- wasm_config_new and so on: where the new C object is
  unfoldable pub create : Class → Exec State ℕ
  create class = do p ← gets (λ s. api.address s.log); emit (Event.created class p); return p

  unfoldable pub construct : Class → Exec State ℕ
  construct class = do p ← create class; mk_object class p

  -- mkError, of the error that a call has made
  unfoldable pub mk_error : Exec State ℕ
  mk_error = construct Class.error

  abbrev pub error_if : Bool → Exec State (Option ℕ)
  error_if false = return none
  error_if true = do e ← mk_error; return (some e)

  -- if err != nil { return mkError(err) }; return nil
  unfoldable pub checked : Exec State (Option ℕ)
  checked = do failed ← gets (λ s. api.fails s.log); error_if failed
