-- ===== src/Config/Method.antt =====
-- The methods of `Config`, as a client calls them.
use wasmtime_go.Base.{ℕ, String, Bool, Option, none, ◌≡◌, refl, ◌⊎◌, inl, inr}
use wasmtime_go.Go.Outcome.{Exec, return, ◌>>◌}
use wasmtime_go.Native.{State, Wasmtime, Request, checked}
use wasmtime_go.Config.{
  set_debug_info, set_wasm_threads, set_wasm_reference_types, set_wasm_simd, set_wasm_bulk_memory,
  set_wasm_multi_value, set_wasm_multi_memory, set_wasm_memory64, set_consume_fuel,
  set_cranelift_debug_verifier, set_epoch_interruption, set_max_wasm_stack, set_strategy,
  set_cranelift_opt_level, set_profiler, enable_cranelift_flag, set_cranelift_flag,
  cache_config_load_default, cache_config_load, set_target, config_call,
}

pub data Method : Type 0 where
  debug_info : Bool → Method
  wasm_threads : Bool → Method
  wasm_reference_types : Bool → Method
  wasm_simd : Bool → Method
  wasm_bulk_memory : Bool → Method
  wasm_multi_value : Bool → Method
  wasm_multi_memory : Bool → Method
  wasm_memory64 : Bool → Method
  consume_fuel : Bool → Method
  cranelift_debug_verifier : Bool → Method
  epoch_interruption : Bool → Method
  max_wasm_stack strategy cranelift_opt_level profiler : ℕ → Method
  cranelift_flag_enable cache_config target : String → Method
  cranelift_flag_set : String → String → Method
  cache_config_default : Method

abbrev no_error : Exec State (Unit {0}) → Exec State (Option ℕ)
no_error m = do m; return none

-- A call of a method, with the error that it returns, none for nil or no result.
unfoldable pub run : Wasmtime → Method → ℕ → Exec State (Option ℕ)
run api (Method.debug_info on) cfg = no_error (set_debug_info cfg on)
run api (Method.wasm_threads on) cfg = no_error (set_wasm_threads cfg on)
run api (Method.wasm_reference_types on) cfg = no_error (set_wasm_reference_types cfg on)
run api (Method.wasm_simd on) cfg = no_error (set_wasm_simd cfg on)
run api (Method.wasm_bulk_memory on) cfg = no_error (set_wasm_bulk_memory cfg on)
run api (Method.wasm_multi_value on) cfg = no_error (set_wasm_multi_value cfg on)
run api (Method.wasm_multi_memory on) cfg = no_error (set_wasm_multi_memory cfg on)
run api (Method.wasm_memory64 on) cfg = no_error (set_wasm_memory64 cfg on)
run api (Method.consume_fuel on) cfg = no_error (set_consume_fuel cfg on)
run api (Method.cranelift_debug_verifier on) cfg = no_error (set_cranelift_debug_verifier cfg on)
run api (Method.epoch_interruption on) cfg = no_error (set_epoch_interruption cfg on)
run api (Method.max_wasm_stack n) cfg = no_error (set_max_wasm_stack cfg n)
run api (Method.strategy n) cfg = no_error (set_strategy cfg n)
run api (Method.cranelift_opt_level n) cfg = no_error (set_cranelift_opt_level cfg n)
run api (Method.profiler n) cfg = no_error (set_profiler cfg n)
run api (Method.cranelift_flag_enable flag) cfg = no_error (enable_cranelift_flag cfg flag)
run api (Method.cranelift_flag_set name value) cfg = no_error (set_cranelift_flag cfg name value)
run api (Method.cache_config path) cfg = cache_config_load api cfg path
run api (Method.target triple) cfg = set_target api cfg triple
run api Method.cache_config_default cfg = cache_config_load_default api cfg

-- Every method is one call that the configuration's pointer is tested for, with or without an error.
pub run-config_call :
    (api : Wasmtime) (m : Method) (cfg : ℕ)
    → (r : Request) × ((run api m cfg ≡ (config_call cfg r >> return none))
        ⊎ (run api m cfg ≡ (config_call cfg r >> checked api)))
unfolding run
run-config_call api (Method.debug_info on) cfg = (_, inl refl)
run-config_call api (Method.wasm_threads on) cfg = (_, inl refl)
run-config_call api (Method.wasm_reference_types on) cfg = (_, inl refl)
run-config_call api (Method.wasm_simd on) cfg = (_, inl refl)
run-config_call api (Method.wasm_bulk_memory on) cfg = (_, inl refl)
run-config_call api (Method.wasm_multi_value on) cfg = (_, inl refl)
run-config_call api (Method.wasm_multi_memory on) cfg = (_, inl refl)
run-config_call api (Method.wasm_memory64 on) cfg = (_, inl refl)
run-config_call api (Method.consume_fuel on) cfg = (_, inl refl)
run-config_call api (Method.cranelift_debug_verifier on) cfg = (_, inl refl)
run-config_call api (Method.epoch_interruption on) cfg = (_, inl refl)
run-config_call api (Method.max_wasm_stack n) cfg = (_, inl refl)
run-config_call api (Method.strategy n) cfg = (_, inl refl)
run-config_call api (Method.cranelift_opt_level n) cfg = (_, inl refl)
run-config_call api (Method.profiler n) cfg = (_, inl refl)
run-config_call api (Method.cranelift_flag_enable flag) cfg = (_, inl refl)
run-config_call api (Method.cranelift_flag_set name value) cfg = (_, inl refl)
run-config_call api (Method.cache_config path) cfg = (_, inr refl)
run-config_call api (Method.target triple) cfg = (_, inr refl)
run-config_call api Method.cache_config_default cfg = (_, inr refl)
