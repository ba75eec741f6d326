-- ===== src/Examples/Modules.antt =====
-- wasi.go, module.go, the byte vectors, and the exports of an instance at concrete states.
use wasmtime_go.Base.{
  zero, suc, ℕ, ◌^◌, ◌≡◌, ◌≤◌, ◌<◌, ◌%◌, refl, ap, true, none, some, List, [], ◌∷◌, ◌++◌, arith,
  length, get_elem?,
}
use wasmtime_go.Go.Value.{text, runtime_error, unspecified}
use wasmtime_go.Go.Outcome.{ok, panic}
use wasmtime_go.Native.{Class, Object, Event, Request, State, Wasmtime}
use wasmtime_go.Wasi.Method.{Method, run, accepted, request}
use wasmtime_go.Native.Balance.{log_event}
use wasmtime_go.Native.Operations.{Loaded}
use wasmtime_go.Bytes.{go_bytes, go_message}
use wasmtime_go.Bytes.Exact.{go_bytes-whole, go_bytes-long}
use wasmtime_go.Extern.{CExtern, global_as_extern, memory_as_extern, instance_exports}
use wasmtime_go.Extern.Exports.{instance_exports_all}
use wasmtime_go.Module.{Reply, done, Files, new_module_from_file}
use wasmtime_go.Module.File.{Reads, binary_of, new_module_from_file_lem}
use wasmtime_go.Wasi.{set_wasi_config}
use wasmtime_go.Wasi.Ownership.{wasi_set}
use wasmtime_go.Wasi.Used.{wasi_config_used_up}
use wasmtime_go.Store.{Storelike, context}
use wasmtime_go.Examples.{world}
use wasmtime_go.Examples.Objects.{past}

-- An engine, a store, and a WASI configuration.
abbrev engine_object : Object
engine_object = record { class = Class.engine; ptr = some 4; finalizer = true }

abbrev store_object : Object
store_object = record { class = Class.store; ptr = some 5; finalizer = true }

abbrev wasi_object : Object
wasi_object = record { class = Class.wasi_config; ptr = some 6; finalizer = true }

abbrev ready : State
ready = record {
  log =
      Event.created Class.wasi_config 6
      ∷ Event.created Class.store 5
      ∷ Event.created Class.engine 4
      ∷ [];
  objects = some engine_object ∷ some store_object ∷ some wasi_object ∷ [];
}

engine_loads : Loaded Class.engine 0 ready
engine_loads = record { object = engine_object; at = refl; of_class = refl; loads = refl }

store_loads : Loaded Class.store 1 ready
store_loads = record { object = store_object; at = refl; of_class = refl; loads = refl }

wasi_loads : Loaded Class.wasi_config 2 ready
wasi_loads = record { object = wasi_object; at = refl; of_class = refl; loads = refl }

abbrev wasi_given : State
wasi_given = wasi_set ready 2 wasi_object 6 5

wasi_config_used_up_example :
    (set_wasi_config 1 2 ready ≡ (ok tt, wasi_given))
    × (wasi_given.log ≡ (
        Event.consumed Class.wasi_config (some 6)
        ∷ Event.called Class.store (some 5) Request.context_set_wasi
        ∷ ready.log))
    × ((other : ℕ)
        → set_wasi_config other 2 wasi_given
          ≡ (panic (text "reuse of already-consumed WasiConfig"), wasi_given))
    × ((api : Wasmtime) (m : Method)
        → accepted m ≡ true
        → run api m 2 wasi_given
          ≡ (ok tt, log_event (Event.called Class.wasi_config none (request m)) wasi_given))
unfolding wasi_loads store_loads
wasi_config_used_up_example = wasi_config_used_up ready 1 2 6 5 wasi_loads store_loads refl refl

-- A file that holds the text "(", which parses to two bytes.
abbrev files : Files
files = record { read_file = λ file. done (40 ∷ []); wat2wasm = λ wat. some (0 ∷ 97 ∷ []) }

new_module_from_file_lem_example :
    (r : Reply ℕ) × (t : State) × (new_module_from_file past files 0 "m.wat" ready ≡ (ok r, t))
    × Reads past 4 ready (binary_of files (40 ∷ [])) r t
unfolding engine_loads
new_module_from_file_lem_example =
    new_module_from_file_lem past 0 4 ready engine_loads refl files "m.wat" (40 ∷ []) refl
      (λ wasm e. ground arith)

abbrev hi : List ℕ
hi = 104 ∷ 105 ∷ []

go_bytes-whole_example : (go_bytes hi (length hi) ≡ ok hi) × (go_message (hi ++ 0 ∷ []) ≡ ok hi)
go_bytes-whole_example = go_bytes-whole hi (omega arith)

zeros : ℕ → List ℕ
zeros zero = []
zeros (suc n) = 0 ∷ zeros n

length-zeros : (n : ℕ) → length (zeros n) ≡ n
unfolding zeros
length-zeros zero = refl
length-zeros (suc n) = ap suc (length-zeros n)

go_bytes-long_example :
    let data' = zeros (2 ^ 31) in
    let n = length data' % 2 ^ 32 in
    (2 ^ 31 ≤ n → go_bytes data' (length data') ≡ panic (runtime_error unspecified))
    × (n < 2 ^ 31
        → (xs : List ℕ) × (ys : List ℕ) × (go_bytes data' (length data') ≡ ok xs)
          × (data' ≡ xs ++ ys)
          × (length xs ≡ n)
          × (length xs < length data'))
go_bytes-long_example =
    go_bytes-long (zeros (2 ^ 31)) (omega (arith, length-zeros (2 ^ 31)))
      (omega (arith, length-zeros (2 ^ 31)))

abbrev exported : List CExtern
exported = memory_as_extern 3 ∷ global_as_extern 1 ∷ []

instance_exports_all_example :
    instance_exports (Storelike.store 0) (λ env. get_elem? exported) 3 world
    ≡ (ok (some exported), world)
unfolding context
instance_exports_all_example =
    instance_exports_all (Storelike.store 0) world 0 refl (λ env. get_elem? exported) exported 3
      (λ i. refl) (omega arith)
