-- ===== src/Trampoline/Wrap.antt =====
-- func.go: `goTrampolineWrap`, for functions made by `WrapFunc` and `Linker.FuncWrap`.
pub mod Params
pub mod Replies
pub mod Results
pub mod Written
use wasmtime_go.Base.{
  ℕ, Bool, true, false, not, ◌&&◌, ◌||◌, Option, none, some, List, [], ◌∷◌, if◌then◌else◌,
}
use wasmtime_go.Go.Value.{
  CVal, Any, int32, int64, float32, float64, func, trap, caller, text, runtime_error, unspecified,
}
use wasmtime_go.Go.Outcome.{Outcome, ok, panic, Exec, return, throw, or_nil, finally, ◌>>=◌, ◌>>◌}
use wasmtime_go.World.{World, Host, GoType, FuncWrapEntry}
use wasmtime_go.Store.{Storelike, get_data_in_store, get_func_wrap, load_data, store_data_at}
use wasmtime_go.Val.{mk_val, val_i32, val_i64, val_f32, val_f64, val_funcref, val_externref, get}
use wasmtime_go.Enter.{is_nil}
use wasmtime_go.Infer.{is_caller}
use wasmtime_go.Trap.{take_ptr}
use wasmtime_go.Trampoline.{Reply, open_caller, close_caller, reply_panicked}

-- The loop that converts the parameters. Only parameters of other types than `*Caller` take a
-- wasm argument; to read past the arguments is unspecified.
pub wrap_params : ℕ → List GoType → List CVal → Exec World (List Any)
wrap_params c [] args = return []
wrap_params c (t ∷ ts) args = elim (is_caller t) [
  | true ↦ do rest ← wrap_params c ts args; return (caller c ∷ rest)
  | false ↦ elim args [
    | [] ↦ throw (runtime_error unspecified)
    | a ∷ as' ↦ do v ← get (mk_val a); rest ← wrap_params c ts as'; return (v ∷ rest)
  ]
]

-- Whether reflection takes a value for a parameter of a type.
abbrev pub fits_type : Host → GoType → Any → Bool
fits_type host GoType.int32 (int32 n) = true
fits_type host GoType.int64 (int64 n) = true
fits_type host GoType.float32 (float32 n) = true
fits_type host GoType.float64 (float64 n) = true
fits_type host GoType.func (func f) = true
fits_type host GoType.trap (trap t) = true
fits_type host GoType.caller (caller c) = true
fits_type host (GoType.other n) v = host.assignable v n
fits_type host _ _ = false

abbrev pub any_nil : List Any → Bool
any_nil [] = false
any_nil (v ∷ vs) = is_nil v || any_nil vs

abbrev pub all_fit : Host → List GoType → List Any → Bool
all_fit host (t ∷ ts) (v ∷ vs) = fits_type host t v && all_fit host ts vs
all_fit host _ _ = true

-- reflect.Value.Call, which panics for the zero Value, that reflect.ValueOf(nil) is, and for a
-- value of another type.
pub reflect_call : Host → FuncWrapEntry → List Any → Exec World (List Any)
reflect_call host entry params =
    if any_nil params
    then throw (text "reflect: Call using zero Value argument")
    else if not (all_fit host entry.callback.signature.ins params)
    then throw (text "reflect: Call using a value as another type")
    else host.call_wrap entry.callback.code params

-- The cases of the type switch, but for `*Trap`.
unfoldable pub write_result : Any → Exec World (Option CVal)
write_result (int32 n) = return (val_i32 n).raw
write_result (int64 n) = return (val_i64 n).raw
write_result (float32 n) = return (val_f32 n).raw
write_result (float64 n) = return (val_f64 n).raw
write_result (func f) = return (val_funcref f).raw
write_result v = do x ← val_externref v; return x.raw

unfoldable pub trap_of : Any → Option (Option ℕ)
trap_of (trap t) = some t
trap_of _ = none

-- ret := val._ptr after the trap gave it up
pub reply_trap : Option ℕ → Option ℕ → Exec World Reply
reply_trap ptr none = do
  data' ← load_data ptr
  store_data_at ptr (record data' { last_panic = text "cannot return trap twice" })
  return (record { trap = none; written = [] })
reply_trap ptr (some p) = return (record { trap = some p; written = [] })

-- One round of the loop over the results, before the rounds that follow it.
unfoldable pub write_next : Option ℕ → Any → Exec World Reply → Exec World Reply
write_next ptr r later = elim (trap_of r) [
  | some (some t) ↦ do p ← take_ptr t; reply_trap ptr p
  | some none ↦ do rest ← later; return (record rest { written = none ∷ rest.written })
  | none ↦ do
    slot ← write_result r
    rest ← later
    return (record rest { written = slot ∷ rest.written })
]

-- The loop over the results, with the slot that is written, or left, for each.
unfoldable pub write_results : Option ℕ → List Any → Exec World Reply
unfolding write_next
write_results ptr [] = return (record { trap = none; written = [] })
write_results ptr (r ∷ rs) = write_next ptr r (write_results ptr rs)

-- What follows the call with its deferred `recover`.
unfoldable pub after_reflect_call :
    Host → Option ℕ → Outcome (List Any) × World → Outcome Reply × World
unfolding write_results
after_reflect_call host ptr (ok results, w) = write_results ptr results w
after_reflect_call host ptr (panic v, w) =
    if is_nil v then write_results ptr [] w else reply_panicked host ptr v w

pub finish_wrap : Host → Option ℕ → FuncWrapEntry → List Any → Exec World Reply
unfolding reflect_call after_reflect_call
finish_wrap host ptr entry params w = after_reflect_call host ptr (reflect_call host entry params w)

trampoline_wrap_body : Host → ℕ → ℕ → List CVal → Exec World Reply
unfolding wrap_params finish_wrap
trampoline_wrap_body host c env args = do
  ptr ← get_data_in_store (Storelike.caller c)
  found ← get_func_wrap ptr env
  entry ← or_nil found
  params ← wrap_params c entry.callback.signature.ins args
  finish_wrap host ptr entry params

-- goTrampolineWrap
unfoldable pub go_trampoline_wrap : Host → ℕ → ℕ → List CVal → Exec World Reply
unfolding trampoline_wrap_body
go_trampoline_wrap host caller_env env args = do
  c ← open_caller caller_env
  finally (trampoline_wrap_body host c env args) (close_caller c)
