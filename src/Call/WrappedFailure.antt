-- ===== src/Call/WrappedFailure.antt =====
-- `Func.Call` of a function made by `WrapFunc` that panics.
use wasmtime_go.Base.{
  ℕ, ◌≤◌, ◌<◌, ◌^◌, ◌≡◌, refl, false, Option, none, some, [], List, arith, length, get_elem?, map,
}
use wasmtime_go.Go.Value.{CVal, Any, nil}
use wasmtime_go.Go.Outcome.{panic, ok}
use wasmtime_go.World.{World, StoreData, Host}
use wasmtime_go.Store.{Storelike}
use wasmtime_go.Store.FuncWrap.{wrapped, with_func_wrap}
use wasmtime_go.Enter.{Ran, is_nil}
use wasmtime_go.Trampoline.Caller.{opened}
use wasmtime_go.Trampoline.Wrap.Replies.{go_trampoline_wrap_panicked}
use wasmtime_go.Call.{Registered, wrap_func, call}
use wasmtime_go.Call.Numbers.{
  Number, any_of, c_of, kind_of, type_of, length-any_of, convert_all-any_of,
}
use wasmtime_go.Call.Panics.{call_panicked}
use wasmtime_go.Call.Parameters.{
  param, numbers, function, Passes-param, any_nil-param, all_fit-param,
}
use wasmtime_go.Call.WrappedFunction.{wrap_run, wrap_func-registered}

module _ (host : Host) (env d code : ℕ) (w : World) (sd : StoreData) (ps : List (Option Number))
    (ys : List Number) (attached : w.stores.entries env ≡ some d)
    (here : get_elem? w.store_data d ≡ some sd) (room : length sd.func_wrap < 2 ^ 62) where
  abbrev there : World
  there = with_func_wrap w d sd (function ps ys code)

  -- A store that is in the table is given a Go function by WrapFunc, with fewer than 2 ^ 62 before it,
  -- whose parameters are numbers and `*Caller`s and whose results are numbers. Where wasmtime runs
  -- such a function by calling its trampoline, and the Go function panics for the numbers that
  -- Func.Call is given, with anything but nil, Call panics with the same value, and the store, whose
  -- data the Go function left in place, holds no panic afterwards.
  pub call-wrap_func_panicked :
      (t : World) (sd' : StoreData) (v : Any)
      → get_elem? t.store_data d ≡ some sd'
      → is_nil v ≡ false
      → host.call_wrap code (map (param (length there.callers)) ps) (opened there env)
        ≡ (panic v, t)
      → (r : Registered) × (u : World) × (wrap_func
            (Storelike.store env)
            (some (function ps ys code))
            w
          ≡ (ok r, there))
        × (call (Storelike.store env) r.ty (wrap_run host env r.env) (map any_of (numbers ps)) there
            ≡ (panic v, u))
        × (get_elem? u.store_data d ≡ some (record sd' { last_panic = nil }))
  call-wrap_func_panicked t sd' v here' real panics =
      let (idx, registers, found) =
        wrap_func-registered host env d code w sd ps ys attached here room in
      let xs = numbers ps in
      let c = length there.callers in
      let (p, u, replies, kept) =
        go_trampoline_wrap_panicked host there env idx d (map c_of xs)
          (wrapped (function ps ys code)) (map (param c) ps) attached found
          (Passes-param c (opened there env) ps) (any_nil-param c ps) (all_fit-param host c ps) t
          sd' here' v real panics in
      let ran : Ran (List CVal) = record { trap = none; error = some p; output = [] } in
      let few : length (map any_of xs) ≤ length (map kind_of xs) =
        omega (arith, length-any_of xs) in
      let (after, raised, cleared) =
        call_panicked env d (type_of xs ys) (wrap_run host env idx) (map any_of xs) (map c_of xs)
          ran there there u (record sd' { last_panic = v }) few
          (convert_all-any_of (map kind_of xs) 0 xs there) attached (rw replies refl) kept real in
      (record { ty = type_of xs ys; env = idx }, after, registers, raised, cleared)
