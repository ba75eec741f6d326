-- ===== src/Objects/Invariant.antt =====
-- Every operation keeps the C objects and their owners in balance.
pub mod Safety
use wasmtime_go.Base.{ℕ, ◌≡◌, refl, List, [], String, Option, arith}
use wasmtime_go.Native.{Class, Request, State, Wasmtime}
use wasmtime_go.Native.Owned.{Owned, Balanced}
use wasmtime_go.Native.Operations.{
  Fresh, Preserves, call-Preserves, collect-Preserves, construct-Preserves, call-checked-Preserves,
  checked-Preserves,
}
use wasmtime_go.Bytes.Exact.{error_error-Preserves, exit_status-Preserves}
use wasmtime_go.Config.Ownership.{run-Preserves, new_engine_with_config-Preserves}
use wasmtime_go.Context.Ownership.{
  set_wasi_ctx-Preserves, fuel_consumed-Preserves, get_wasi_ctx-Preserves, open_store-Preserves,
  call_number-Preserves,
}
use wasmtime_go.Linking.Ownership.{
  start_instantiate-Preserves, start_instance-Preserves, new_linker-Preserves, define-Preserves,
  define_instance-Preserves, define_module-Preserves, get_default-Preserves, get-Preserves,
}
use wasmtime_go.Module.Ownership.{
  new_module-Preserves, new_module_deserialize-Preserves, new_module_deserialize_file-Preserves,
  serialize-Preserves, wat2wasm-Preserves, new_module_from_file-Preserves,
}
use wasmtime_go.Context.{open_store}
use wasmtime_go.Linking.{define_wasi}
use wasmtime_go.Module.{module_validate}
use wasmtime_go.Wasi.Ownership.{
  set_argv-Preserves, set_env-Preserves, or_message-Preserves, set_wasi_config-Owned,
}
use wasmtime_go.Objects.{
  Step, History, start, step, nothing, collects, makes_config, configures, makes_engine,
  makes_engine_with_config, increments_epoch, makes_wasi_config, sets_argv, sets_env, inherits_argv,
  inherits_env, inherits_stdin, inherits_stdout, inherits_stderr, sets_stdin_file, sets_stdout_file,
  sets_stderr_file, preopens_dir, sets_wasi_config, makes_store, collects_garbage,
  sets_epoch_deadline, limits, reads_fuel, adds_fuel, consumes_fuel, sets_wasi_ctx, gets_wasi_ctx,
  inserts_file, pushes_file, makes_module, reads_module, deserializes, deserializes_file, validates,
  makes_func, starts_call, leaves_wasm, reads_imports, reads_exports, defines_func,
  starts_instantiate, starts_instance, serializes, parses, makes_linker, allows_shadowing, defines,
  defines_instance, defines_module, defines_wasi, gets_default, gets_item, reads_error,
  reads_exit_status,
}

module _ (api : Wasmtime) (fresh : Fresh api) where
  Step-Owned : (s t : State) → Step api s t → Owned s → Owned t
  unfolding define_wasi module_validate
  Step-Owned s _ (collects class ref) h = collect-Preserves class ref s h
  Step-Owned s _ makes_config h = construct-Preserves api fresh Class.config s h
  Step-Owned s _ (configures m cfg) h = run-Preserves api fresh m cfg s h
  Step-Owned s _ makes_engine h = construct-Preserves api fresh Class.engine s h
  Step-Owned s _ (makes_engine_with_config cfg) h =
      new_engine_with_config-Preserves api fresh cfg s h
  Step-Owned s _ (increments_epoch engine) h = call-Preserves Class.engine engine _ refl s h
  Step-Owned s _ makes_wasi_config h = construct-Preserves api fresh Class.wasi_config s h
  Step-Owned s _ (sets_argv c argv) h = set_argv-Preserves c argv s h
  Step-Owned s _ (sets_env c keys values) h = set_env-Preserves c keys values s h
  Step-Owned s _ (inherits_argv c) h = call-Preserves Class.wasi_config c _ refl s h
  Step-Owned s _ (inherits_env c) h = call-Preserves Class.wasi_config c _ refl s h
  Step-Owned s _ (inherits_stdin c) h = call-Preserves Class.wasi_config c _ refl s h
  Step-Owned s _ (inherits_stdout c) h = call-Preserves Class.wasi_config c _ refl s h
  Step-Owned s _ (inherits_stderr c) h = call-Preserves Class.wasi_config c _ refl s h
  Step-Owned s _ (sets_stdin_file c path) h = or_message-Preserves api c _ _ s h
  Step-Owned s _ (sets_stdout_file c path) h = or_message-Preserves api c _ _ s h
  Step-Owned s _ (sets_stderr_file c path) h = or_message-Preserves api c _ _ s h
  Step-Owned s _ (preopens_dir c path guest) h = or_message-Preserves api c _ _ s h
  Step-Owned s _ (sets_wasi_config store wasi l) h = set_wasi_config-Owned store wasi s l h
  Step-Owned s _ (makes_store engine) h = open_store-Preserves api fresh engine s h
  Step-Owned s _ (collects_garbage store) h = call-Preserves Class.store store _ refl s h
  Step-Owned s _ (sets_epoch_deadline store n) h = call-Preserves Class.store store _ refl s h
  Step-Owned s _ (limits store a b c d e) h = call-Preserves Class.store store _ refl s h
  Step-Owned s _ (reads_fuel store) h = fuel_consumed-Preserves api store s h
  Step-Owned s _ (adds_fuel store fuel) h =
      call-checked-Preserves api fresh Class.store store _ refl s h
  Step-Owned s _ (consumes_fuel store fuel) h = call_number-Preserves api fresh store _ s h
  Step-Owned s _ (makes_func store kind env) h = call-Preserves Class.store store _ refl s h
  Step-Owned s _ (starts_call store f) h = call-Preserves Class.store store _ refl s h
  Step-Owned s _ leaves_wasm h = checked-Preserves api fresh s h
  Step-Owned s _ (sets_wasi_ctx store ctx) h = set_wasi_ctx-Preserves store ctx s h
  Step-Owned s _ (gets_wasi_ctx store) h = get_wasi_ctx-Preserves api store s h
  Step-Owned s _ (inserts_file store fd file mode) h =
      call-checked-Preserves api fresh Class.store store _ refl s h
  Step-Owned s _ (pushes_file store file mode) h = call_number-Preserves api fresh store _ s h
  Step-Owned s _ (makes_module engine wasm) h = new_module-Preserves api fresh engine wasm s h
  Step-Owned s _ (reads_module files engine file) h =
      new_module_from_file-Preserves api fresh files engine file s h
  Step-Owned s _ (deserializes engine bytes) h =
      new_module_deserialize-Preserves api fresh engine bytes s h
  Step-Owned s _ (deserializes_file engine path) h =
      new_module_deserialize_file-Preserves api fresh engine path s h
  Step-Owned s _ (validates engine wasm) h =
      call-checked-Preserves api fresh Class.engine engine _ refl s h
  Step-Owned s _ (reads_imports m) h = call-Preserves Class.module' m _ refl s h
  Step-Owned s _ (reads_exports m) h = call-Preserves Class.module' m _ refl s h
  Step-Owned s _ (serializes m) h = serialize-Preserves api fresh m s h
  Step-Owned s _ (parses files wat) h = wat2wasm-Preserves api fresh files wat s h
  Step-Owned s _ (makes_linker engine) h = new_linker-Preserves api fresh engine s h
  Step-Owned s _ (allows_shadowing l allow) h = call-Preserves Class.linker l _ refl s h
  Step-Owned s _ (defines l store module' name item) h =
      define-Preserves api fresh l store module' name item s h
  Step-Owned s _ (defines_instance l store name i) h =
      define_instance-Preserves api fresh l store name i s h
  Step-Owned s _ (defines_module l store name m) h =
      define_module-Preserves api fresh l store name m s h
  Step-Owned s _ (defines_wasi l) h = call-checked-Preserves api fresh Class.linker l _ refl s h
  Step-Owned s _ (defines_func l module' name kind env) h =
      call-checked-Preserves api fresh Class.linker l _ refl s h
  Step-Owned s _ (starts_instantiate l store m) h = start_instantiate-Preserves l store m s h
  Step-Owned s _ (starts_instance store m imports) h = start_instance-Preserves store m imports s h
  Step-Owned s _ (gets_default l store name) h = get_default-Preserves api fresh l store name s h
  Step-Owned s _ (gets_item l store module' name) h =
      get-Preserves api fresh l store module' name s h
  Step-Owned s _ (reads_error e) h = error_error-Preserves api e s h
  Step-Owned s _ (reads_exit_status e) h = exit_status-Preserves api e s h

  pub History-Owned : {s : State} → History api s → Owned s
  History-Owned start = record {
    safe = refl;
    distinct = λ p. ground arith;
    balance = λ p. refl;
    shaped = refl;
  }
  History-Owned (step s t h e) = Step-Owned s t e (History-Owned h)
