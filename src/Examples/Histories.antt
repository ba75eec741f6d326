-- ===== src/Examples/Histories.antt =====
-- A reachable state, and the `Caller` of a trampoline that has ended.
use wasmtime_go.Base.{◌≡◌, refl, [], ◌∷◌, length, arith}
use wasmtime_go.Go.Value.{CVal, Tag, Payload, text}
use wasmtime_go.Go.Outcome.{panic, throw}
use wasmtime_go.World.{World, Host, initial}
use wasmtime_go.Store.{
  Storelike, context, get_data_in_store, get_func_new, get_func_wrap, new_store,
}
use wasmtime_go.Val.{val_externref, get}
use wasmtime_go.Trap.{new_trap, release_ptr}
use wasmtime_go.Trampoline.{open_caller, reply_panicked}
use wasmtime_go.Lifetime.{History, start, step, makes_store, makes_externref, IsWellFormed}
use wasmtime_go.Lifetime.Invariant.{History-IsWellFormed}
use wasmtime_go.Trampoline.New.{go_trampoline_new}
use wasmtime_go.Trampoline.Wrap.{go_trampoline_wrap}
use wasmtime_go.Trampoline.Closing.{context-go_trampoline_new, context-go_trampoline_wrap}
use wasmtime_go.Examples.{world, new_host, wrap_host}

abbrev one_store : World
one_store = (new_store 7 initial).1

abbrev reached : World
reached = (val_externref (text "a") one_store).1

history : History reached
history =
    step one_store reached (step initial one_store start (makes_store 7))
      (makes_externref (text "a"))

History-IsWellFormed_example : IsWellFormed reached
History-IsWellFormed_example = History-IsWellFormed history

-- A callback that panics, in a run of each trampoline.
abbrev new_booms : Host
new_booms = new_host (λ params. throw (text "boom"))

abbrev wrap_booms : Host
wrap_booms = wrap_host (λ params. throw (text "boom"))

abbrev arg : CVal
arg = record { kind = Tag.i32; of = Payload.i32 3 }

abbrev new_end : World
new_end = (go_trampoline_new new_booms 0 1 (arg ∷ []) world).1

abbrev wrap_end : World
wrap_end = (go_trampoline_wrap wrap_booms 0 1 (arg ∷ []) world).1

new_callers : length new_end.callers ≡ 1
unfolding go_trampoline_new open_caller get_data_in_store get_func_new reply_panicked new_trap
    release_ptr
new_callers = refl

wrap_callers : length wrap_end.callers ≡ 1
unfolding go_trampoline_wrap open_caller get_data_in_store get_func_wrap reply_panicked new_trap
    release_ptr get
wrap_callers = refl

context-go_trampoline_new_example :
    context (Storelike.caller 0) new_end
    ≡ (panic (text "cannot use caller after host function returns"), new_end)
context-go_trampoline_new_example =
    context-go_trampoline_new new_booms 0 1 (arg ∷ []) world (omega (arith, new_callers))

context-go_trampoline_wrap_example :
    context (Storelike.caller 0) wrap_end
    ≡ (panic (text "cannot use caller after host function returns"), wrap_end)
context-go_trampoline_wrap_example =
    context-go_trampoline_wrap wrap_booms 0 1 (arg ∷ []) world (omega (arith, wrap_callers))
