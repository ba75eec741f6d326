-- ===== src/Module.antt =====
-- module.go and wat2wasm.go: how a module is compiled, read from a file, and serialized.
pub mod File
pub mod Ownership
use wasmtime_go.Base.{
  ℕ, String, Bool, true, false, Option, none, some, List, [], ◌∷◌, length, ◌==◌, if◌then◌else◌,
}
use wasmtime_go.Go.Outcome.{Exec, return, gets, lift, ◌>>=◌, ◌>>◌}
use wasmtime_go.Native.{Class, Request, State, Wasmtime, call, construct, mk_error, checked}
use wasmtime_go.Bytes.{go_bytes}

-- A result and an `error`: a value, an `*Error`, or an error of the package os by a number.
pub data Reply (A : Type 0) : Type 0 where
  done : A → Reply A
  failed os_error : ℕ → Reply A

-- os.ReadFile, and wasmtime_wat2wasm of a text: whether it fails, and the bytes
pub record Files : Type 0 where
  pub read_file : String → Reply (List ℕ)
  pub wat2wasm : List ℕ → Option (List ℕ)

-- len(wasm) > 0 && wasm[0] != 0
abbrev pub is_text : List ℕ → Bool
is_text [] = false
is_text (b ∷ rest) = if b == 0 then false else true

module _ (api : Wasmtime) where
  module_or : Bool → Exec State (Reply ℕ)
  module_or true = do e ← mk_error api; return (failed e)
  module_or false = do m ← construct api Class.module'; return (done m)

  -- if err != nil { return nil, mkError(err) }; return mkModule(ptr), nil
  unfoldable pub finish_module : Exec State (Reply ℕ)
  unfolding module_or
  finish_module = do fails ← gets (λ s. api.fails s.log); module_or fails

  -- NewModule
  unfoldable pub new_module : ℕ → List ℕ → Exec State (Reply ℕ)
  new_module engine wasm = do call Class.engine engine (Request.module_new wasm); finish_module

  -- NewModuleDeserialize and NewModuleDeserializeFile
  unfoldable pub new_module_deserialize : ℕ → List ℕ → Exec State (Reply ℕ)
  new_module_deserialize engine encoded = do
    call Class.engine engine (Request.module_deserialize encoded)
    finish_module

  unfoldable pub new_module_deserialize_file : ℕ → String → Exec State (Reply ℕ)
  new_module_deserialize_file engine path = do
    call Class.engine engine (Request.module_deserialize_file path)
    finish_module

  -- ModuleValidate
  unfoldable pub module_validate : ℕ → List ℕ → Exec State (Option ℕ)
  module_validate engine wasm = do
    call Class.engine engine (Request.module_validate wasm)
    checked api

  serialized : Bool → Exec State (Reply (List ℕ))
  serialized true = do e ← mk_error api; return (failed e)
  serialized false = do
    artifact ← gets (λ s. api.bytes s.log)
    ret ← lift (go_bytes artifact (length artifact))
    return (done ret)

  -- The call of wasmtime in Module.Imports and Module.Exports, which fills in a vector
  abbrev pub read_imports : ℕ → Exec State (Unit {0})
  read_imports m = call Class.module' m Request.module_imports

  abbrev pub read_exports : ℕ → Exec State (Unit {0})
  read_exports m = call Class.module' m Request.module_exports

  -- Module.Serialize
  unfoldable pub serialize : ℕ → Exec State (Reply (List ℕ))
  unfolding serialized
  serialize m = do
    call Class.module' m Request.module_serialize
    fails ← gets (λ s. api.fails s.log)
    serialized fails

  parsed : Option (List ℕ) → Exec State (Reply (List ℕ))
  parsed none = do e ← mk_error api; return (failed e)
  parsed (some binary) = do ret ← lift (go_bytes binary (length binary)); return (done ret)

  -- Wat2Wasm
  unfoldable pub wat2wasm : Files → List ℕ → Exec State (Reply (List ℕ))
  unfolding parsed
  wat2wasm files wat = parsed (files.wat2wasm wat)

  compile : ℕ → Reply (List ℕ) → Exec State (Reply ℕ)
  compile engine (done wasm) = new_module engine wasm
  compile engine (failed e) = return (failed e)
  compile engine (os_error e) = return (os_error e)

  compile_text : Files → ℕ → List ℕ → Exec State (Reply ℕ)
  compile_text files engine wat = do binary ← wat2wasm files wat; compile engine binary

  compile_file : Files → ℕ → Reply (List ℕ) → Exec State (Reply ℕ)
  compile_file files engine (done wasm) =
      if is_text wasm then compile_text files engine wasm else new_module engine wasm
  compile_file files engine (failed e) = return (failed e)
  compile_file files engine (os_error e) = return (os_error e)

  -- NewModuleFromFile
  unfoldable pub new_module_from_file : Files → ℕ → String → Exec State (Reply ℕ)
  unfolding compile_file compile_text compile
  new_module_from_file files engine file = compile_file files engine (files.read_file file)
