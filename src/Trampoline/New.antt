-- ===== src/Trampoline/New.antt =====
-- func.go: `goTrampolineNew`, for functions made by `NewFunc` and `Linker.FuncNew`.
pub mod Kinds
pub mod Propagation
pub mod Replies
pub mod Results
use wasmtime_go.Base.{ℕ, not, Option, none, some, List, [], ◌∷◌, map, ◌==◌, if◌then◌else◌, length}
use wasmtime_go.Go.Value.{CVal, Val, Any, text, runtime_error, nil_dereference, index_out_of_range}
use wasmtime_go.Go.Outcome.{
  Outcome, ok, panic, Exec, return, throw, panic_value, or_nil, finally, ◌>>=◌,
}
use wasmtime_go.Kind.{ValKind, same_kind}
use wasmtime_go.World.{World, Host, FuncNewEntry}
use wasmtime_go.Store.{Storelike, get_data_in_store, get_func_new}
use wasmtime_go.Val.{mk_val, kind}
use wasmtime_go.Enter.{is_nil}
use wasmtime_go.Trap.{load_trap, take_ptr}
use wasmtime_go.Trampoline.{Reply, open_caller, close_caller, reply_panicked}

-- for i, ty := range entry.results { if results[i].Kind() != ty.Kind() { panic(…) } }
pub check_kinds : List Val → List ValKind → Exec World (Unit {0})
check_kinds results [] = return tt
check_kinds [] (k ∷ ks) = throw (runtime_error index_out_of_range)
check_kinds (v ∷ vs) (k ∷ ks) = do
  found ← kind v
  if not (same_kind found k)
      then throw (text "callback produced wrong type of result")
      else check_kinds vs ks

-- What the inner function does once the callback has returned.
pub check_results : List ValKind → List Val → Option ℕ → Exec World (Unit {0})
unfolding check_kinds
check_results kinds results (some t) = do
  trap ← load_trap t
  elim trap.ptr [ none ↦ throw (text "returned an already-returned trap") | some p ↦ return tt ]
check_results kinds results none =
    if not (length results == length kinds)
    then throw (text "callback didn't produce the correct number of results")
    else check_kinds results kinds

-- The variables that the inner function assigns; a panic after the call leaves the first two.
pub record Called : Type 0 where
  pub results : List Val
  pub trap : Option ℕ
  pub last_panic : Any

checked_call : List Val → Option ℕ → Outcome (Unit {0}) × World → Outcome Called × World
checked_call results trap (checked, w) =
    return (record { results = results; trap = trap; last_panic = panic_value checked }) w

-- The rest of the inner function, after the callback.
after_callback : FuncNewEntry → Outcome (List Val × Option ℕ) × World → Outcome Called × World
unfolding check_results checked_call
after_callback entry (panic v, w) = return (record { results = []; trap = none; last_panic = v }) w
after_callback entry (ok (results, trap), w) =
    checked_call results trap (check_results entry.results results trap w)

-- The inner function, with its deferred `recover`.
pub call_entry : Host → Option FuncNewEntry → ℕ → List Val → Exec World Called
unfolding after_callback
call_entry host none caller params w =
    return (record { results = []; trap = none; last_panic = runtime_error nil_dereference }) w
call_entry host (some entry) caller params w =
    after_callback entry (host.call_new entry.callback caller params w)

-- C.wasmtime_val_copy(ptr, results[i].ptr()), for each i
pub copy_results : List Val → Exec World (List (Option CVal))
copy_results [] = return []
copy_results (v ∷ vs) = do c ← or_nil v.raw; rest ← copy_results vs; return (some c ∷ rest)

pub reply_new : Host → Option ℕ → Called → Exec World Reply
unfolding copy_results
reply_new host ptr called = elim called.trap [
  | none ↦
      if not (is_nil called.last_panic)
      then reply_panicked host ptr called.last_panic
      else do slots ← copy_results called.results; return (record { trap = none; written = slots })
  | some t ↦ do p ← take_ptr t; return (record { trap = p; written = [] })
]

trampoline_new_body : Host → ℕ → ℕ → List CVal → Exec World Reply
unfolding call_entry reply_new
trampoline_new_body host c env args = do
  ptr ← get_data_in_store (Storelike.caller c)
  entry ← get_func_new ptr env
  called ← call_entry host entry c (map mk_val args)
  reply_new host ptr called

-- goTrampolineNew
unfoldable pub go_trampoline_new : Host → ℕ → ℕ → List CVal → Exec World Reply
unfolding trampoline_new_body
go_trampoline_new host caller_env env args = do
  c ← open_caller caller_env
  finally (trampoline_new_body host c env args) (close_caller c)
