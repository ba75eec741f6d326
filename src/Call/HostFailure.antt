-- ===== src/Call/HostFailure.antt =====
-- `Func.Call` of a function made by `NewFunc` that panics, or returns a trap.
use wasmtime_go.Base.{
  ℕ, ◌≤◌, ◌<◌, ◌^◌, ◌≡◌, refl, false, none, some, [], List, arith, length, get_elem?, map,
}
use wasmtime_go.Go.Value.{CVal, Any, nil}
use wasmtime_go.Go.Outcome.{ok, panic}
use wasmtime_go.World.{World, StoreData, Host}
use wasmtime_go.Store.{Storelike}
use wasmtime_go.Store.Finds.{entry_of}
use wasmtime_go.Enter.{Ran, is_nil}
use wasmtime_go.Trampoline.Caller.{opened}
use wasmtime_go.Trampoline.New.Replies.{go_trampoline_new_panicked}
use wasmtime_go.Call.{Registered, new_func, call}
use wasmtime_go.Call.Numbers.{
  Number, any_of, c_of, kind_of, vals_of, type_of, length-any_of, convert_all-any_of,
}
use wasmtime_go.Call.HostFunction.{host_run, registered, new_func-registered}
use wasmtime_go.Call.Panics.{call_panicked}

module _ (host : Host) (env d f : ℕ) (w : World) (sd : StoreData) (xs ys : List Number)
    (attached : w.stores.entries env ≡ some d) (here : get_elem? w.store_data d ≡ some sd)
    (room : length sd.func_new < 2 ^ 62) (t : World) (sd' : StoreData)
    (here' : get_elem? t.store_data d ≡ some sd') where
  abbrev there : World
  there = registered w d sd (type_of xs ys) f

  -- A store that is in the table is given a host function by NewFunc, with fewer than 2 ^ 62 before
  -- it, of a type that takes and returns numbers. Where wasmtime runs such a function by calling its
  -- trampoline, and the host function panics for the numbers that Func.Call is given, with anything
  -- but nil, Call panics with the same value, and the store, whose data the host function left in
  -- place, holds no panic afterwards.
  pub call-new_func_panicked :
      (v : Any)
      → is_nil v ≡ false
      → host.call_new f (length there.callers) (vals_of xs) (opened there env) ≡ (panic v, t)
      → (r : Registered) × (u : World) × (new_func (Storelike.store env) (type_of xs ys) f w
          ≡ (ok r, there))
        × (call (Storelike.store env) r.ty (host_run host env r.env) (map any_of xs) there
            ≡ (panic v, u))
        × (get_elem? u.store_data d ≡ some (record sd' { last_panic = nil }))
  call-new_func_panicked v real panics =
      let (idx, made, found) = new_func-registered host env d f w sd xs ys attached here room in
      let (p, u, replies, kept) =
        go_trampoline_new_panicked host there env idx d (map c_of xs) (entry_of (type_of xs ys) f)
          attached found t sd' here' v real panics in
      let ran : Ran (List CVal) = record { trap = none; error = some p; output = [] } in
      let few : length (map any_of xs) ≤ length (map kind_of xs) =
        omega (arith, length-any_of xs) in
      let (after, raised, cleared) =
        call_panicked env d (type_of xs ys) (host_run host env idx) (map any_of xs) (map c_of xs)
          ran there there u (record sd' { last_panic = v }) few
          (convert_all-any_of (map kind_of xs) 0 xs there) attached (rw replies refl) kept real in
      (record { ty = type_of xs ys; env = idx }, after, made, raised, cleared)
