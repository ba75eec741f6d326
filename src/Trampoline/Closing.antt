-- ===== src/Trampoline/Closing.antt =====
-- The `Caller` of a trampoline that has ended, in whatever way.
use wasmtime_go.Base.{
  ℕ, ◌<◌, ◌≡◌, refl, sym, none, List, length, get_elem?-set_self, length-set, arith,
}
use wasmtime_go.Go.Value.{CVal, text}
use wasmtime_go.Go.Outcome.{panic}
use wasmtime_go.World.{World, Host}
use wasmtime_go.Store.{Storelike, context}
use wasmtime_go.Trampoline.{close_caller}
use wasmtime_go.Trampoline.New.{go_trampoline_new}
use wasmtime_go.Trampoline.Wrap.{go_trampoline_wrap}
use wasmtime_go.Trampoline.New.Replies.{go_trampoline_new_closes}
use wasmtime_go.Trampoline.Wrap.Replies.{go_trampoline_wrap_closes}
use mathlib.Core.Path.{subst}

context-close_caller :
    (c : ℕ) (v : World)
    → c < length (close_caller c v).callers
    → context (Storelike.caller c) (close_caller c v)
      ≡ (panic (text "cannot use caller after host function returns"), close_caller c v)
unfolding context
context-close_caller c v h =
    let within : c < length v.callers = omega (arith, length-set v.callers c none) in
    rw (get_elem?-set_self v.callers c none within) refl

closed-context :
    (c : ℕ) (u v : World)
    → u ≡ close_caller c v
    → c < length u.callers
    → context (Storelike.caller c) u
      ≡ (panic (text "cannot use caller after host function returns"), u)
closed-context c u v e h =
    subst
      (λ x.
        c < length x.callers
        → context (Storelike.caller c) x
          ≡ (panic (text "cannot use caller after host function returns"), x))
      (sym e) (context-close_caller c v) h

module _ (host : Host) (env idx : ℕ) (args : List CVal) (w : World) where
  -- Once `goTrampolineNew` has ended, by a return or by a panic, a read of the context of the `Caller`
  -- that it made panics, as long as no code took the object away.
  pub context-go_trampoline_new :
      let u = (go_trampoline_new host env idx args w).1 in
      length w.callers < length u.callers
      → context (Storelike.caller (length w.callers)) u
        ≡ (panic (text "cannot use caller after host function returns"), u)
  context-go_trampoline_new h =
      let (v, e) = go_trampoline_new_closes host env idx args w in
      closed-context (length w.callers) (go_trampoline_new host env idx args w).1 v e h

  -- Once `goTrampolineWrap` has ended, by a return or by a panic, a read of the context of the `Caller`
  -- that it made panics, as long as no code took the object away.
  pub context-go_trampoline_wrap :
      let u = (go_trampoline_wrap host env idx args w).1 in
      length w.callers < length u.callers
      → context (Storelike.caller (length w.callers)) u
        ≡ (panic (text "cannot use caller after host function returns"), u)
  context-go_trampoline_wrap h =
      let (v, e) = go_trampoline_wrap_closes host env idx args w in
      closed-context (length w.callers) (go_trampoline_wrap host env idx args w).1 v e h
