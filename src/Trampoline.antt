-- ===== src/Trampoline.antt =====
-- func.go: `goTrampolineNew` and `goTrampolineWrap`, through which wasm calls the embedder.
pub mod Caller
pub mod Closing
pub mod Panicked
pub mod New
pub mod Wrap
use wasmtime_go.Base.{ℕ, Bool, true, false, Option, none, some, List, [], ◌∷◌, ◌++◌, length, set}
use wasmtime_go.Go.Value.{CVal, Any, nil}
use wasmtime_go.Go.Outcome.{Exec, return, gets, finally, ◌>>=◌, ◌>>◌}
use wasmtime_go.World.{World, Host}
use wasmtime_go.Store.{load_data, store_data_at}
use wasmtime_go.Trap.{new_trap, release_ptr}

-- What a trampoline gives to C: the trap, none for nil, and the slots of the results that it
-- reached, none for a slot that it left as it was.
pub record Reply : Type 0 where
  pub trap : Option ℕ
  pub written : List (Option CVal)

-- caller := &Caller{ptr: callerPtr}; its C pointer stands for the env of its store
unfoldable pub open_caller : ℕ → Exec World ℕ
open_caller env w = return (length w.callers) (record w { callers = w.callers ++ some env ∷ [] })

-- caller.ptr = nil
abbrev pub close_caller : ℕ → World → World
close_caller c w = record w { callers = set w.callers c none }

-- data.lastPanic = lastPanic; a trap that tells wasm to unwind
unfoldable pub reply_panicked : Host → Option ℕ → Any → Exec World Reply
reply_panicked host ptr v = do
  data' ← load_data ptr
  store_data_at ptr (record data' { last_panic = v })
  t ← new_trap host "go panicked"
  p ← release_ptr t
  return (record { trap = p; written = [] })
