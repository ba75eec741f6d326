-- ===== src/Config.antt =====
-- config.go and engine.go. The constants of `Strategy`, `OptLevel` and `ProfilingStrategy` are those of
-- wasmtime, so a value of these types is a number.
pub mod Method
pub mod Used
pub mod Ownership
use wasmtime_go.Base.{ℕ, String, Bool, Option, none, some, true}
use wasmtime_go.Go.Value.{text}
use wasmtime_go.Go.Outcome.{Exec, return, throw, ◌>>=◌, ◌>>◌}
use wasmtime_go.Native.{
  Class, Event, Request, State, Wasmtime, load, emit, mk_object, call, clear, create, construct,
  checked,
}

not_used : Option ℕ → Exec State (Option ℕ)
not_used none = throw (text "Config has already been used up")
not_used (some p) = return (some p)

-- Config.ptr
unfoldable pub config_ptr : ℕ → Exec State (Option ℕ)
unfolding not_used
config_ptr ref = do o ← load Class.config ref; not_used o.ptr

unfoldable pub config_call : ℕ → Request → Exec State (Unit {0})
config_call ref request = do p ← config_ptr ref; emit (Event.called Class.config p request)

-- Config.SetDebugInfo
abbrev pub set_debug_info : ℕ → Bool → Exec State (Unit {0})
set_debug_info cfg enabled = config_call cfg (Request.debug_info enabled)

-- Config.SetWasmThreads
abbrev pub set_wasm_threads : ℕ → Bool → Exec State (Unit {0})
set_wasm_threads cfg enabled = config_call cfg (Request.wasm_threads enabled)

-- Config.SetWasmReferenceTypes
abbrev pub set_wasm_reference_types : ℕ → Bool → Exec State (Unit {0})
set_wasm_reference_types cfg enabled = config_call cfg (Request.wasm_reference_types enabled)

-- Config.SetWasmSIMD
abbrev pub set_wasm_simd : ℕ → Bool → Exec State (Unit {0})
set_wasm_simd cfg enabled = config_call cfg (Request.wasm_simd enabled)

-- Config.SetWasmBulkMemory
abbrev pub set_wasm_bulk_memory : ℕ → Bool → Exec State (Unit {0})
set_wasm_bulk_memory cfg enabled = config_call cfg (Request.wasm_bulk_memory enabled)

-- Config.SetWasmMultiValue
abbrev pub set_wasm_multi_value : ℕ → Bool → Exec State (Unit {0})
set_wasm_multi_value cfg enabled = config_call cfg (Request.wasm_multi_value enabled)

-- Config.SetWasmMultiMemory
abbrev pub set_wasm_multi_memory : ℕ → Bool → Exec State (Unit {0})
set_wasm_multi_memory cfg enabled = config_call cfg (Request.wasm_multi_memory enabled)

-- Config.SetWasmMemory64
abbrev pub set_wasm_memory64 : ℕ → Bool → Exec State (Unit {0})
set_wasm_memory64 cfg enabled = config_call cfg (Request.wasm_memory64 enabled)

-- Config.SetConsumeFuel
abbrev pub set_consume_fuel : ℕ → Bool → Exec State (Unit {0})
set_consume_fuel cfg enabled = config_call cfg (Request.consume_fuel enabled)

-- Config.SetCraneliftDebugVerifier
abbrev pub set_cranelift_debug_verifier : ℕ → Bool → Exec State (Unit {0})
set_cranelift_debug_verifier cfg enabled =
    config_call cfg (Request.cranelift_debug_verifier enabled)

-- Config.SetEpochInterruption
abbrev pub set_epoch_interruption : ℕ → Bool → Exec State (Unit {0})
set_epoch_interruption cfg enabled = config_call cfg (Request.epoch_interruption enabled)

-- Config.SetMaxWasmStack
abbrev pub set_max_wasm_stack : ℕ → ℕ → Exec State (Unit {0})
set_max_wasm_stack cfg size = config_call cfg (Request.max_wasm_stack size)

-- Config.SetStrategy
abbrev pub set_strategy : ℕ → ℕ → Exec State (Unit {0})
set_strategy cfg strat = config_call cfg (Request.strategy strat)

-- Config.SetCraneliftOptLevel
abbrev pub set_cranelift_opt_level : ℕ → ℕ → Exec State (Unit {0})
set_cranelift_opt_level cfg level = config_call cfg (Request.cranelift_opt_level level)

-- Config.SetProfiler
abbrev pub set_profiler : ℕ → ℕ → Exec State (Unit {0})
set_profiler cfg profiler = config_call cfg (Request.profiler profiler)

-- Config.EnableCraneliftFlag
abbrev pub enable_cranelift_flag : ℕ → String → Exec State (Unit {0})
enable_cranelift_flag cfg flag = config_call cfg (Request.cranelift_flag_enable flag)

-- Config.SetCraneliftFlag
abbrev pub set_cranelift_flag : ℕ → String → String → Exec State (Unit {0})
set_cranelift_flag cfg name value = config_call cfg (Request.cranelift_flag_set name value)

-- Engine.IncrementEpoch
abbrev pub increment_epoch : ℕ → Exec State (Unit {0})
increment_epoch engine = call Class.engine engine Request.increment_epoch

-- if config.ptr() == nil { panic("config already used") }
refuse_nil : Option ℕ → Exec State (Unit {0})
refuse_nil none = throw (text "config already used")
refuse_nil (some p) = return tt

module _ (api : Wasmtime) where
  -- NewConfig
  abbrev pub new_config : Exec State ℕ
  new_config = construct api Class.config

  -- Config.CacheConfigLoadDefault
  abbrev pub cache_config_load_default : ℕ → Exec State (Option ℕ)
  cache_config_load_default cfg = do config_call cfg (Request.cache_config_load none); checked api

  -- Config.CacheConfigLoad
  abbrev pub cache_config_load : ℕ → String → Exec State (Option ℕ)
  cache_config_load cfg path = do
    config_call cfg (Request.cache_config_load (some path))
    checked api

  -- Config.SetTarget
  abbrev pub set_target : ℕ → String → Exec State (Option ℕ)
  set_target cfg target = do config_call cfg (Request.target target); checked api

  -- NewEngine
  abbrev pub new_engine : Exec State ℕ
  new_engine = construct api Class.engine

  -- NewEngineWithConfig; nothing reads the engine before its finalizer is set, which comes last
  unfoldable pub new_engine_with_config : ℕ → Exec State ℕ
  unfolding refuse_nil
  new_engine_with_config config = do
    first ← config_ptr config
    refuse_nil first
    p ← config_ptr config
    emit (Event.consumed Class.config p)
    engine ← create api Class.engine
    _ ← clear Class.config config
    mk_object Class.engine engine
