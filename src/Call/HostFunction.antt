-- ===== src/Call/HostFunction.antt =====
-- `Func.Call` of a function made by `NewFunc`, with wasmtime calling `goTrampolineNew` in between.
use wasmtime_go.Base.{
  ℕ, ◌<◌, ◌^◌, ◌≡◌, refl, sym, ap, ◌∙◌, true, false, none, some, List, arith, length, get_elem?,
  map, ltb,
}
use mathlib.Core.Path.{subst}
use wasmtime_go.Go.Value.{CVal}
use wasmtime_go.Go.Outcome.{Exec, ok, return, ◌>>=◌}
use wasmtime_go.Kind.{FuncType}
use wasmtime_go.World.{World, StoreData, Host}
use wasmtime_go.Store.{Storelike, context, get_func_new}
use wasmtime_go.Store.Finds.{
  entry_of, with_func_new, with_data, insert_func_new_local, get_data_in_store_store,
}
use wasmtime_go.Store.FuncNew.{get-insert_func_new_local}
use wasmtime_go.Enter.{Ran, is_nil}
use wasmtime_go.Enter.Propagation.{enter_wasm_untrapped}
use wasmtime_go.Trampoline.Caller.{opened}
use wasmtime_go.Trampoline.New.{go_trampoline_new}
use wasmtime_go.Trampoline.New.Results.{go_trampoline_new_results}
use wasmtime_go.Call.{Registered, finish_call, new_func, call}
use wasmtime_go.Call.Numbers.{
  Number, any_of, c_of, kind_of, vals_of, type_of, packed, slot, slot-some, all_known-c_of,
  kinds_of-c_of, length-any_of, convert_all-any_of, collect-c_of,
}

-- wasmtime_func_call of a host function: the trampoline is called with the arguments. The trap of a host
-- function comes back as an error, which is named by the pointer of the trap that it was made of.
abbrev pub host_run : Host → ℕ → ℕ → List CVal → ℕ → Exec World (Ran (List CVal))
host_run host store env params n = do
  reply ← go_trampoline_new host store env params
  return (record { trap = none; error = reply.trap; output = map slot reply.written })

-- The store keeps the function beside those that it has.
abbrev pub registered : World → ℕ → StoreData → FuncType → ℕ → World
registered w d sd ty f = with_data w d (with_func_new sd (entry_of ty f))

module _ (host : Host) (env d f : ℕ) (w : World) (sd : StoreData) (xs ys : List Number)
    (attached : w.stores.entries env ≡ some d) (here : get_elem? w.store_data d ≡ some sd)
    (room : length sd.func_new < 2 ^ 62) where
  abbrev there : World
  there = registered w d sd (type_of xs ys) f

  pub new_func-registered :
      (idx : ℕ) × (new_func (Storelike.store env) (type_of xs ys) f w
        ≡ (ok (record { ty = type_of xs ys; env = idx }), there))
      × (get_func_new (some d) idx there ≡ (ok (some (entry_of (type_of xs ys) f)), there))
  unfolding new_func context
  new_func-registered =
      let (idx, t, done, odd, found) =
        get-insert_func_new_local w d sd (type_of xs ys) f here room in
      let same : t ≡ there =
        ap (λ r. r.1) (sym done ∙ insert_func_new_local w d sd (type_of xs ys) f here) in
      (
        idx,
        rw (get_data_in_store_store env d w attached)
            (rw done (ap (λ u. (ok (record { ty = type_of xs ys; env = idx }), u)) same)),
        subst (λ u. get_func_new (some d) idx u ≡ (ok (some (entry_of (type_of xs ys) f)), u)) same
            found,
      )

  module _ (t : World) (sd' : StoreData)
      (returns : host.call_new f (length there.callers) (vals_of xs) (opened there env)
        ≡ (ok (vals_of ys, none), t))
      (here' : get_elem? t.store_data d ≡ some sd') (quiet : is_nil sd'.last_panic ≡ true) where
    host_run-returns :
        (idx n : ℕ)
        → get_func_new (some d) idx there ≡ (ok (some (entry_of (type_of xs ys) f)), there)
        → (u : World) × (host_run host env idx (map c_of xs) n there
            ≡ (ok (record { trap = none; error = none; output = map c_of ys }), u))
          × (u.store_data ≡ t.store_data)
    host_run-returns idx n found =
        let (u, replies, same) =
          go_trampoline_new_results host there env idx d (map c_of xs) (entry_of (type_of xs ys) f)
            attached found t (map c_of ys) (all_known-c_of ys) returns (kinds_of-c_of ys) in
        (u, rw replies (rw (slot-some (map c_of ys)) refl), same)

    -- A store that is in the table is given a host function by NewFunc, with fewer than 2 ^ 62 before
    -- it, of a type that takes and returns numbers. Where wasmtime runs such a function by calling its
    -- trampoline, Func.Call with numbers of these types hands the host function exactly these
    -- numbers; and if the host function returns numbers of these types, and leaves no panic with the
    -- store, Call returns them and no error: nothing, the number itself, or the list.
    pub call-new_func :
        (r : Registered) × (u : World) × (new_func (Storelike.store env) (type_of xs ys) f w
          ≡ (ok r, there))
        × (call (Storelike.store env) r.ty (host_run host env r.env) (map any_of xs) there
            ≡ (ok (record { value = packed ys; error = none }), u))
        × (u.store_data ≡ t.store_data)
    unfolding call finish_call context
    call-new_func =
        let (idx, made, found) = new_func-registered in
        let r : Registered = record { ty = type_of xs ys; env = idx } in
        let n = length (map kind_of ys) in
        let (u, runs, same) = host_run-returns idx n found in
        let wasm : Exec World (Ran (List CVal)) = host_run host env idx (map c_of xs) n in
        let fits : ltb (length (map kind_of xs)) (length (map any_of xs)) ≡ false =
          ground (arith, length-any_of xs) in
        let entered =
          enter_wasm_untrapped (Storelike.store env) wasm there u d
            (record { trap = none; error = none; output = map c_of ys }) sd'
            (get_data_in_store_store env d there attached) runs
            (ap (λ l. get_elem? l d) same ∙ here') quiet refl in
        (
          r,
          u,
          made,
          rw (fits, convert_all-any_of (map kind_of xs) 0 xs there)
              (rw entered (rw (collect-c_of ys u) refl)),
          same,
        )
