-- ===== src/Wasi.antt =====
-- wasi.go: `WasiConfig`, and SetWasiConfig of store.go, which uses it up.
pub mod Ownership
pub mod Method
pub mod Used
use wasmtime_go.Base.{
  ℕ, String, Bool, true, false, Option, none, some, List, ◌%◌, ◌^◌, length, ◌==◌, if◌then◌else◌,
}
use wasmtime_go.Go.Value.{text}
use wasmtime_go.Go.Outcome.{Exec, return, throw, gets, ◌>>=◌, ◌>>◌}
use wasmtime_go.Native.{Class, Event, Request, State, Wasmtime, emit, call, clear, construct}

-- C.int(len(_))
abbrev pub c_int : ℕ → ℕ
c_int n = n % 2 ^ 32

-- WasiConfig.SetArgv
unfoldable pub set_argv : ℕ → List String → Exec State (Unit {0})
set_argv c argv = call Class.wasi_config c (Request.set_argv (c_int (length argv)) argv)

-- WasiConfig.SetEnv
unfoldable pub set_env : ℕ → List String → List String → Exec State (Unit {0})
set_env c keys values =
    if length keys == length values
    then call Class.wasi_config c (Request.set_env (c_int (length keys)) keys values)
    else throw (text "mismatched numbers of keys and values")

-- WasiConfig.InheritArgv, and the methods like it
abbrev pub inherit_argv : ℕ → Exec State (Unit {0})
inherit_argv c = call Class.wasi_config c Request.inherit_argv

abbrev pub inherit_env : ℕ → Exec State (Unit {0})
inherit_env c = call Class.wasi_config c Request.inherit_env

abbrev pub inherit_stdin : ℕ → Exec State (Unit {0})
inherit_stdin c = call Class.wasi_config c Request.inherit_stdin

abbrev pub inherit_stdout : ℕ → Exec State (Unit {0})
inherit_stdout c = call Class.wasi_config c Request.inherit_stdout

abbrev pub inherit_stderr : ℕ → Exec State (Unit {0})
inherit_stderr c = call Class.wasi_config c Request.inherit_stderr

refuse_reuse : Option ℕ → Exec State (Unit {0})
refuse_reuse none = throw (text "reuse of already-consumed WasiConfig")
refuse_reuse (some p) = return tt

-- Store.SetWasiConfig; the call takes the store beside the configuration
unfoldable pub set_wasi_config : ℕ → ℕ → Exec State (Unit {0})
unfolding refuse_reuse
set_wasi_config store wasi = do
  p ← clear Class.wasi_config wasi
  refuse_reuse p
  call Class.store store Request.context_set_wasi
  emit (Event.consumed Class.wasi_config p)

module _ (api : Wasmtime) where
  -- NewWasiConfig
  abbrev pub new_wasi_config : Exec State ℕ
  new_wasi_config = construct api Class.wasi_config

  abbrev failure : Bool → String → Option String
  failure true message = some message
  failure false message = none

  -- if ok { return nil }; return errors.New(message)
  unfoldable pub or_message : String → Exec State (Option String)
  or_message message = do failed ← gets (λ s. api.fails s.log); return (failure failed message)

  -- WasiConfig.SetStdinFile, SetStdoutFile and SetStderrFile
  abbrev pub set_stdin_file : ℕ → String → Exec State (Option String)
  set_stdin_file c path = do
    call Class.wasi_config c (Request.set_stdin_file path)
    or_message "failed to open file"

  abbrev pub set_stdout_file : ℕ → String → Exec State (Option String)
  set_stdout_file c path = do
    call Class.wasi_config c (Request.set_stdout_file path)
    or_message "failed to open file"

  abbrev pub set_stderr_file : ℕ → String → Exec State (Option String)
  set_stderr_file c path = do
    call Class.wasi_config c (Request.set_stderr_file path)
    or_message "failed to open file"

  -- WasiConfig.PreopenDir
  abbrev pub preopen_dir : ℕ → String → String → Exec State (Option String)
  preopen_dir c path guest_path = do
    call Class.wasi_config c (Request.preopen_dir path guest_path)
    or_message "failed to preopen directory"
