-- ===== src/Call/WrappedFunction.antt =====
-- `Func.Call` of a function made by `WrapFunc`, with wasmtime calling `goTrampolineWrap` in between.
use mathlib.Core.Path.{subst}
use wasmtime_go.Base.{
  ℕ, ◌<◌, ◌^◌, ◌≡◌, refl, sym, ap, ◌∙◌, true, false, Option, none, some, List, arith, length,
  get_elem?, map, ltb,
}
use wasmtime_go.Go.Value.{CVal}
use wasmtime_go.Go.Outcome.{Exec, ok, return, ◌>>=◌}
use wasmtime_go.World.{World, StoreData, Host}
use wasmtime_go.Store.{Storelike, context, get_func_wrap}
use wasmtime_go.Store.Finds.{get_data_in_store_store}
use wasmtime_go.Store.FuncWrap.{
  wrapped, with_func_wrap, insert_func_wrap_local, get-insert_func_wrap_local,
}
use wasmtime_go.Enter.{Ran, is_nil}
use wasmtime_go.Enter.Propagation.{enter_wasm_untrapped}
use wasmtime_go.Trampoline.{close_caller}
use wasmtime_go.Trampoline.Caller.{opened}
use wasmtime_go.Trampoline.Wrap.{go_trampoline_wrap}
use wasmtime_go.Trampoline.Wrap.Replies.{go_trampoline_wrap-reply}
use wasmtime_go.Call.{Registered, call, wrap_func, finish_call}
use wasmtime_go.Call.Numbers.{
  Number, any_of, c_of, kind_of, type_of, packed, slot, slot-some, length-any_of,
  convert_all-any_of, collect-c_of,
}
use wasmtime_go.Call.Parameters.{
  param, numbers, function, infer-function, Passes-param, any_nil-param, all_fit-param,
  after_reflect_call-any_of,
}

-- wasmtime_func_call of a wrapped function: the trampoline is called with the arguments. The trap of a
-- host function comes back as an error, which is named by the pointer of the trap that it was made of.
abbrev pub wrap_run : Host → ℕ → ℕ → List CVal → ℕ → Exec World (Ran (List CVal))
wrap_run host store env params n = do
  reply ← go_trampoline_wrap host store env params
  return (record { trap = none; error = reply.trap; output = map slot reply.written })

module _ (host : Host) (env d code : ℕ) (w : World) (sd : StoreData) (ps : List (Option Number))
    (ys : List Number) (attached : w.stores.entries env ≡ some d)
    (here : get_elem? w.store_data d ≡ some sd) (room : length sd.func_wrap < 2 ^ 62) where
  abbrev there : World
  there = with_func_wrap w d sd (function ps ys code)

  abbrev made : ℕ → Registered
  made idx = record { ty = type_of (numbers ps) ys; env = idx }

  pub wrap_func-registered :
      (idx : ℕ) × (wrap_func (Storelike.store env) (some (function ps ys code)) w
        ≡ (ok (made idx), there))
      × (get_func_wrap (some d) idx there ≡ (ok (some (wrapped (function ps ys code))), there))
  unfolding wrap_func context
  wrap_func-registered =
      let f = function ps ys code in
      let (idx, t, inserts, odd, found) = get-insert_func_wrap_local w d sd f here room in
      let same : t ≡ there = ap (λ r. r.1) (sym inserts ∙ insert_func_wrap_local w d sd f here) in
      (
        idx,
        rw (infer-function ps ys code) (
            rw (get_data_in_store_store env d w attached)
              (rw inserts (ap (λ u. (ok (made idx), u)) same))),
        subst (λ u. get_func_wrap (some d) idx u ≡ (ok (some (wrapped f)), u)) same found,
      )

  module _ (t : World) (sd' : StoreData)
      (returns : host.call_wrap code (map (param (length there.callers)) ps) (opened there env)
        ≡ (ok (map any_of ys), t))
      (here' : get_elem? t.store_data d ≡ some sd') (quiet : is_nil sd'.last_panic ≡ true) where
    wrap_run-returns :
        (idx n : ℕ)
        → get_func_wrap (some d) idx there ≡ (ok (some (wrapped (function ps ys code))), there)
        → (u : World) × (wrap_run host env idx (map c_of (numbers ps)) n there
            ≡ (ok (record { trap = none; error = none; output = map c_of ys }), u))
          × (u.store_data ≡ t.store_data)
    wrap_run-returns idx n found =
        let c = length there.callers in
        let replies =
          go_trampoline_wrap-reply host there env idx d (map c_of (numbers ps))
            (wrapped (function ps ys code)) (map (param c) ps) attached found
            (Passes-param c (opened there env) ps) (any_nil-param c ps) (all_fit-param host c ps) t
            (ok (map any_of ys)) returns in
        (
          close_caller c t,
          rw replies (
              rw (after_reflect_call-any_of host (some d) ys t)
                (rw (slot-some (map c_of ys)) refl)),
          refl,
        )

    -- A store that is in the table is given a Go function by WrapFunc, with fewer than 2 ^ 62 before it,
    -- whose parameters are numbers and `*Caller`s and whose results are numbers. Where wasmtime runs
    -- such a function by calling its trampoline, the function gets the type of its numbers, and
    -- Func.Call with such numbers hands the Go function exactly these, with the caller in each place
    -- that asks for it; and if it returns numbers of its types, and leaves no panic with the store, Call
    -- returns them and no error.
    pub call-wrap_func :
        (r : Registered) × (u : World) × (wrap_func
            (Storelike.store env)
            (some (function ps ys code))
            w
          ≡ (ok r, there))
        × (r.ty ≡ type_of (numbers ps) ys)
        × (call (Storelike.store env) r.ty (wrap_run host env r.env) (map any_of (numbers ps)) there
            ≡ (ok (record { value = packed ys; error = none }), u))
        × (u.store_data ≡ t.store_data)
    unfolding call finish_call context
    call-wrap_func =
        let (idx, registers, found) = wrap_func-registered in
        let xs = numbers ps in
        let n = length (map kind_of ys) in
        let (u, runs, same) = wrap_run-returns idx n found in
        let wasm : Exec World (Ran (List CVal)) = wrap_run host env idx (map c_of xs) n in
        let fits : ltb (length (map kind_of xs)) (length (map any_of xs)) ≡ false =
          ground (arith, length-any_of xs) in
        let entered =
          enter_wasm_untrapped (Storelike.store env) wasm there u d
            (record { trap = none; error = none; output = map c_of ys }) sd'
            (get_data_in_store_store env d there attached) runs
            (ap (λ l. get_elem? l d) same ∙ here') quiet refl in
        (
          made idx,
          u,
          registers,
          refl,
          rw (fits, convert_all-any_of (map kind_of xs) 0 xs there)
              (rw entered (rw (collect-c_of ys u) refl)),
          same,
        )
