-- ===== src/Trampoline/New/Results.antt =====
-- What `goTrampolineNew` does with the results that a callback returns.
use wasmtime_go.Base.{
  ℕ, String, ◌≡◌, ◌≢◌, refl, ◌∙◌, inl, inr, true, none, some, List, [], map, arith, length,
  get_elem?, Bool-cases, ◌==◌, if◌then◌else◌,
}
use wasmtime_go.Go.Value.{CVal, Any, nil, text}
use wasmtime_go.Go.Outcome.{ok, panic}
use wasmtime_go.Kind.{ValKind}
use wasmtime_go.World.{World, Host, FuncNewEntry, StoreData}
use wasmtime_go.Store.{get_func_new}
use wasmtime_go.Val.{mk_val}
use wasmtime_go.Trampoline.{close_caller}
use wasmtime_go.Trampoline.Panicked.{reply_panicked_lem}
use wasmtime_go.Trampoline.New.{Called, call_entry, reply_new, check_results, go_trampoline_new}
use wasmtime_go.Trampoline.New.Kinds.{
  all_known, kinds_of, check_results_right, check_results_wrong_kinds, check_results_wrong_count,
  copy_results-mk_val,
}
use wasmtime_go.Trampoline.New.Replies.{Calls, go_trampoline_new-reply}

-- What is wrong with results of these values where these kinds are wanted.
abbrev pub complaint : List CVal → List ValKind → String
complaint cs ks =
    if length cs == length ks
    then "callback produced wrong type of result"
    else "callback didn't produce the correct number of results"

check_results_wrong :
    (cs : List CVal) (ks : List ValKind) (w : World)
    → all_known cs ≡ true
    → kinds_of cs ≢ ks
    → check_results ks (map mk_val cs) none w ≡ (panic (text (complaint cs ks)), w)
check_results_wrong cs ks w h ne = elim (Bool-cases (length cs == length ks)) [
  | inl same ↦ rw same (check_results_wrong_kinds cs ks w h (ground arith) ne)
  | inr differ ↦ rw differ (check_results_wrong_count cs ks w (ground arith))
]

module _ (host : Host) (w : World) (caller_env env d : ℕ) (args : List CVal) (entry : FuncNewEntry)
    (attached : w.stores.entries caller_env ≡ some d)
    (found : get_func_new (some d) env w ≡ (ok (some entry), w)) (t : World) (cs : List CVal)
    (known : all_known cs ≡ true)
    (returns : Calls host w caller_env env d args entry attached found t
      (ok (map mk_val cs, none))) where
  -- If wasm calls a function of `NewFunc` or `Linker.FuncNew` whose env leads to its entry, in a
  -- store that is in the table, and the callback returns values of the kinds that its type lists,
  -- then each of them is written to its slot, wasm gets no trap, and the stores' data is as the
  -- callback left it.
  pub go_trampoline_new_results :
      kinds_of cs ≡ entry.results
      → (u : World) × (go_trampoline_new host caller_env env args w
          ≡ (ok (record { trap = none; written = map some cs }), u))
        × (u.store_data ≡ t.store_data)
  unfolding call_entry reply_new
  go_trampoline_new_results kinds =
      let called : Called = record { results = map mk_val cs; trap = none; last_panic = nil } in
      (
        close_caller (length w.callers) t,
        go_trampoline_new-reply host w caller_env env d args entry attached found called t
              (rw returns (rw (← kinds) (rw (check_results_right cs t known) refl)))
            ∙ (rw (copy_results-mk_val cs t) refl),
        refl,
      )

  -- If wasm calls a function of `NewFunc` or `Linker.FuncNew` whose env leads to its entry, in a
  -- store that is in the table, and the kinds of the values that the callback returns, each of a
  -- kind that Go knows, are not those that its type lists, in number or in kind, then nothing is
  -- written, wasm gets a trap, and the store keeps a panic that says so.
  pub go_trampoline_new_wrong_results :
      (sd : StoreData)
      → get_elem? t.store_data d ≡ some sd
      → kinds_of cs ≢ entry.results
      → (p : ℕ) × (u : World) × (go_trampoline_new host caller_env env args w
          ≡ (ok (record { trap = some p; written = [] }), u))
        × (get_elem? u.store_data d
            ≡ some (record sd { last_panic = text (complaint cs entry.results) }))
  unfolding call_entry reply_new
  go_trampoline_new_wrong_results sd here ne =
      let v : Any = text (complaint cs entry.results) in
      let called : Called = record { results = map mk_val cs; trap = none; last_panic = v } in
      let (p, u, done, panicked) = reply_panicked_lem host d v t sd here in
      (
        p,
        close_caller (length w.callers) u,
        go_trampoline_new-reply host w caller_env env d args entry attached found called t
              (rw returns (rw (check_results_wrong cs entry.results t known ne) refl))
            ∙ (rw done refl),
        panicked.kept,
      )
