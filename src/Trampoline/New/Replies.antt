-- ===== src/Trampoline/New/Replies.antt =====
-- What `goTrampolineNew` answers to wasm for each way in which a callback can end.
use wasmtime_go.Base.{
  ℕ, ◌≡◌, refl, ◌∙◌, false, Bool, Option, none, some, List, [], map, length, get_elem?, set,
  get_elem?-set_self, lt_of_get_elem?,
}
use wasmtime_go.Go.Value.{CVal, Val, Any, nil, text}
use wasmtime_go.Go.Outcome.{Outcome, ok, panic}
use wasmtime_go.World
use wasmtime_go.World.{World, Host, FuncNewEntry, StoreData}
use wasmtime_go.Store.{get_func_new}
use wasmtime_go.Val.{mk_val}
use wasmtime_go.Enter.{is_nil}
use wasmtime_go.Trap.{take_ptr}
use wasmtime_go.Trampoline.{close_caller}
use wasmtime_go.Trampoline.Panicked.{reply_panicked_lem}
use wasmtime_go.Trampoline.Caller.{
  opened, open_caller_lem, get_data_in_store-opened, get_func_new-opened,
}
use wasmtime_go.Trampoline.New.{
  trampoline_new_body, Called, call_entry, reply_new, check_results, go_trampoline_new,
}

-- Every run ends with the deferred write to the `Caller`.
pub go_trampoline_new_closes :
    (host : Host) (caller_env env : ℕ) (args : List CVal) (w : World)
    → (v : World) × ((go_trampoline_new host caller_env env args w).1
        ≡ close_caller (length w.callers) v)
unfolding go_trampoline_new
go_trampoline_new_closes host caller_env env args w = (
  (trampoline_new_body host (length w.callers) env args (opened w caller_env)).1,
  rw (open_caller_lem caller_env w) refl,
)

module _ (host : Host) (w : World) (caller_env env d : ℕ) (args : List CVal) (entry : FuncNewEntry)
    (attached : w.stores.entries caller_env ≡ some d)
    (found : get_func_new (some d) env w ≡ (ok (some entry), w)) where
  pub go_trampoline_new-reply :
      (called : Called) (t : World)
      → call_entry host (some entry) (length w.callers) (map mk_val args) (opened w caller_env)
        ≡ (ok called, t)
      → let answer = reply_new host (some d) called t in
        go_trampoline_new host caller_env env args w
        ≡ (answer.0, close_caller (length w.callers) answer.1)
  unfolding go_trampoline_new
  go_trampoline_new-reply called t e = rw (open_caller_lem caller_env w) (
      rw (get_data_in_store-opened caller_env w)
        (rw attached (rw (get_func_new-opened caller_env env (some d) entry w found) (rw e refl))))

  -- The callback, with the arguments that wasm gave it, ends in this way and leaves this state.
  abbrev pub Calls : World → Outcome (List Val × Option ℕ) → Type 0
  Calls t outcome =
      host.call_new entry.callback (length w.callers) (map mk_val args) (opened w caller_env)
      ≡ (outcome, t)

  module _ (t : World) (sd : StoreData) (here : get_elem? t.store_data d ≡ some sd) where
    -- If the callback panics, with anything but nil, wasm gets a trap and the store keeps the panic.
    pub go_trampoline_new_panicked :
        (v : Any)
        → is_nil v ≡ false
        → Calls t (panic v)
        → (p : ℕ) × (u : World) × (go_trampoline_new host caller_env env args w
            ≡ (ok (record { trap = some p; written = [] }), u))
          × (get_elem? u.store_data d ≡ some (record sd { last_panic = v }))
    unfolding call_entry reply_new
    go_trampoline_new_panicked v real e =
        let called : Called = record { results = []; trap = none; last_panic = v } in
        let (p, u, done, panicked) = reply_panicked_lem host d v t sd here in
        (
          p,
          close_caller (length w.callers) u,
          go_trampoline_new-reply called t (rw e refl) ∙ (rw (real, reply_new) (rw done refl)),
          panicked.kept,
        )

    -- If wasm calls a function of `NewFunc` or `Linker.FuncNew` whose env leads to its entry, in a
    -- store that is in the table, and the callback returns a trap that is still its own, then wasm
    -- gets this trap, the Go object lets go of it and will not free it, and the stores' data is as
    -- the callback left it.
    pub go_trampoline_new_trapped :
        (results : List Val) (trap p : ℕ) (finalizer : Bool)
        → Calls t (ok (results, some trap))
        → get_elem? t.traps trap ≡ some (record { ptr = some p; finalizer = finalizer })
        → (u : World) × (go_trampoline_new host caller_env env args w
            ≡ (ok (record { trap = some p; written = [] }), u))
          × (u.store_data ≡ t.store_data)
          × (get_elem? u.traps trap ≡ some (record { ptr = none; finalizer = false }))
    unfolding call_entry reply_new check_results take_ptr
    go_trampoline_new_trapped results trap p finalizer e own =
        let called : Called = record { results = results; trap = some trap; last_panic = nil } in
        let spent : World.Trap = record { ptr = none; finalizer = false } in
        let u = record t { traps = set t.traps trap spent } in
        (
          close_caller (length w.callers) u,
          go_trampoline_new-reply called t (rw e (rw own refl)) ∙ (rw (own, reply_new) refl),
          refl,
          get_elem?-set_self t.traps trap spent (lt_of_get_elem? t.traps trap _ own),
        )

    -- If wasm calls a function of `NewFunc` or `Linker.FuncNew` whose env leads to its entry, in a
    -- store that is in the table, and the callback returns a trap that was already returned, then
    -- wasm is told that the call succeeded: no trap, no result written, and no panic is left with
    -- any store.
    pub go_trampoline_new_reused_trap :
        (results : List Val) (trap : ℕ) (finalizer : Bool)
        → Calls t (ok (results, some trap))
        → get_elem? t.traps trap ≡ some (record { ptr = none; finalizer = finalizer })
        → (u : World) × (go_trampoline_new host caller_env env args w
            ≡ (ok (record { trap = none; written = [] }), u))
          × (u.store_data ≡ t.store_data)
    unfolding call_entry reply_new check_results take_ptr
    go_trampoline_new_reused_trap results trap finalizer e spent =
        let called : Called = record {
          results = results;
          trap = some trap;
          last_panic = text "returned an already-returned trap";
        } in
        let u = record t { traps = set t.traps trap (record { ptr = none; finalizer = false }) } in
        (
          close_caller (length w.callers) u,
          go_trampoline_new-reply called t (rw e (rw spent refl)) ∙ (rw (spent, reply_new) refl),
          refl,
        )
