-- ===== src/Linking.antt =====
-- The C side of linker.go: the linker and the names that it defines. A call that takes several objects
-- is a call of the linker, and a use of each of the others.
pub mod Ownership
use wasmtime_go.Base.{ℕ, String, Bool, true, false, Option, none, some, List}
use wasmtime_go.Extern.{CExtern}
use wasmtime_go.Go.Outcome.{Exec, return, gets, ◌>>=◌, ◌>>◌}
use wasmtime_go.Native.{
  Class, Event, Request, ptr, emit, State, Wasmtime, call, construct, mk_error, checked,
}

-- Linker.AllowShadowing
abbrev pub allow_shadowing : ℕ → Bool → Exec State (Unit {0})
allow_shadowing l allow = call Class.linker l (Request.allow_shadowing allow)

-- A call of the linker that takes a store too; the pointers are read before the call is made.
unfoldable pub call_with : ℕ → Request → ℕ → Request → Exec State (Unit {0})
unfolding ptr
call_with l request store beside = do
  p ← ptr Class.linker l
  q ← ptr Class.store store
  emit (Event.called Class.linker p request)
  emit (Event.called Class.store q beside)

unfoldable pub call_with_module : ℕ → Request → ℕ → ℕ → Exec State (Unit {0})
unfolding ptr
call_with_module l request store module' = do
  p ← ptr Class.linker l
  q ← ptr Class.store store
  r ← ptr Class.module' module'
  emit (Event.called Class.linker p request)
  emit (Event.called Class.store q Request.argument)
  emit (Event.called Class.module' r Request.argument)

-- The call of wasmtime in Linker.Instantiate; what it returns stands with `left_wasm` of Context
abbrev pub start_instantiate : ℕ → ℕ → ℕ → Exec State (Unit {0})
start_instantiate l store module' = call_with_module l Request.linker_instantiate store module'

-- The call of wasmtime in NewInstance
unfoldable pub start_instance : ℕ → ℕ → List CExtern → Exec State (Unit {0})
unfolding ptr
start_instance store module' imports = do
  p ← ptr Class.store store
  q ← ptr Class.module' module'
  emit (Event.called Class.store p (Request.instance_new imports))
  emit (Event.called Class.module' q Request.argument)

module _ (api : Wasmtime) where
  -- Linker.FuncNew and Linker.FuncWrap, after the function has its env
  abbrev pub define_func_env : ℕ → String → String → ℕ → ℕ → Exec State (Option ℕ)
  define_func_env l module' name kind env = do
    call Class.linker l (Request.linker_define_func module' name kind env)
    checked api

  -- NewLinker
  unfoldable pub new_linker : ℕ → Exec State ℕ
  new_linker engine = do call Class.engine engine Request.linker_new; construct api Class.linker

  -- Linker.Define
  unfoldable pub define : ℕ → ℕ → String → String → CExtern → Exec State (Option ℕ)
  define l store module' name item = do
    call_with l (Request.linker_define module' name) store ((Request.item item))
    checked api

  -- Linker.DefineInstance
  unfoldable pub define_instance : ℕ → ℕ → String → ℕ → Exec State (Option ℕ)
  define_instance l store name instance' = do
    call_with l (Request.linker_define_instance name) store ((Request.instance' instance'))
    checked api

  -- Linker.DefineModule
  unfoldable pub define_module : ℕ → ℕ → String → ℕ → Exec State (Option ℕ)
  define_module l store name module' = do
    call_with_module l (Request.linker_module name) store module'
    checked api

  -- Linker.DefineWasi
  unfoldable pub define_wasi : ℕ → Exec State (Option ℕ)
  define_wasi l = do call Class.linker l Request.linker_define_wasi; checked api

  default_or : Bool → Exec State (Option ℕ × Option ℕ)
  default_or true = do e ← mk_error api; return (none, some e)
  default_or false = do f ← gets (λ s. api.number s.log); return (some f, none)

  -- Linker.GetDefault; the function is a number here
  unfoldable pub get_default : ℕ → ℕ → String → Exec State (Option ℕ × Option ℕ)
  unfolding default_or
  get_default l store name = do
    call_with l (Request.linker_get_default name) store Request.argument
    failed ← gets (λ s. api.fails s.log)
    default_or failed

  abbrev found : Bool → ℕ → Option ℕ
  found true n = none
  found false n = some n

  -- Linker.Get; the item is a number here
  unfoldable pub get : ℕ → ℕ → String → String → Exec State (Option ℕ)
  get l store module' name = do
    call_with l (Request.linker_get module' name) store Request.argument
    missing ← gets (λ s. api.fails s.log)
    n ← gets (λ s. api.number s.log)
    return (found missing n)
