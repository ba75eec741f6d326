-- ===== src/Wasi/Method.antt =====
-- The methods of `WasiConfig`, by name and arguments, with the calls of wasmtime that they make.
use wasmtime_go.Base.{String, Bool, true, List, ◌==◌, length, ℕ}
use wasmtime_go.Go.Outcome.{Exec, return, ◌>>=◌}
use wasmtime_go.Native.{Request, State, Wasmtime}
use wasmtime_go.Wasi
use wasmtime_go.Wasi.{c_int}

pub data Method : Type 0 where
  set_argv : List String → Method
  set_env : List String → List String → Method
  inherit_argv inherit_env inherit_stdin inherit_stdout inherit_stderr : Method
  set_stdin_file set_stdout_file set_stderr_file : String → Method
  preopen_dir : String → String → Method

-- A method on a configuration, without its result.
abbrev pub run : Wasmtime → Method → ℕ → Exec State (Unit {0})
run api (Method.set_argv argv) c = Wasi.set_argv c argv
run api (Method.set_env keys values) c = Wasi.set_env c keys values
run api Method.inherit_argv c = Wasi.inherit_argv c
run api Method.inherit_env c = Wasi.inherit_env c
run api Method.inherit_stdin c = Wasi.inherit_stdin c
run api Method.inherit_stdout c = Wasi.inherit_stdout c
run api Method.inherit_stderr c = Wasi.inherit_stderr c
run api (Method.set_stdin_file path) c = do e ← Wasi.set_stdin_file api c path; return tt
run api (Method.set_stdout_file path) c = do e ← Wasi.set_stdout_file api c path; return tt
run api (Method.set_stderr_file path) c = do e ← Wasi.set_stderr_file api c path; return tt
run api (Method.preopen_dir path guest) c = do e ← Wasi.preopen_dir api c path guest; return tt

-- What SetEnv tests; no other method tests anything.
abbrev pub accepted : Method → Bool
accepted (Method.set_env keys values) = length keys == length values
accepted m = true

abbrev pub request : Method → Request
request (Method.set_argv argv) = Request.set_argv (c_int (length argv)) argv
request (Method.set_env keys values) = Request.set_env (c_int (length keys)) keys values
request Method.inherit_argv = Request.inherit_argv
request Method.inherit_env = Request.inherit_env
request Method.inherit_stdin = Request.inherit_stdin
request Method.inherit_stdout = Request.inherit_stdout
request Method.inherit_stderr = Request.inherit_stderr
request (Method.set_stdin_file path) = Request.set_stdin_file path
request (Method.set_stdout_file path) = Request.set_stdout_file path
request (Method.set_stderr_file path) = Request.set_stderr_file path
request (Method.preopen_dir path guest) = Request.preopen_dir path guest
