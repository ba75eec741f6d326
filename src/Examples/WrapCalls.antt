-- ===== src/Examples/WrapCalls.antt =====
-- `goTrampolineWrap` at concrete Go functions.
use wasmtime_go.Base.{◌≡◌, ◌≢◌, refl, true, Option, none, some, List, [], ◌∷◌, get_elem?}
use wasmtime_go.Go.Value.{Tag, Payload, CVal, Any, int32, int64, trap, caller, text}
use wasmtime_go.Go.Outcome.{ok, return, throw}
use wasmtime_go.Kind.{externref}
use wasmtime_go.Registry.Laws.{empty-IsValid}
use wasmtime_go.World.{World, Host, GoType}
use wasmtime_go.Val.{mk_val, get}
use wasmtime_go.Val.Access.{named}
use wasmtime_go.Infer.{infer_func_type}
use wasmtime_go.Trampoline.Caller.{opened}
use wasmtime_go.Trampoline.Wrap.{write_results, go_trampoline_wrap}
use wasmtime_go.Trampoline.Wrap.Params.{Passes, done, the_caller, value}
use wasmtime_go.Trampoline.Wrap.Results.{kinds_written}
use wasmtime_go.Trampoline.Wrap.Replies.{
  go_trampoline_wrap_results, go_trampoline_wrap_trap, write_results_interface,
}
use wasmtime_go.Examples.{
  world, quiet_data, callback, wrap_entry, found_wrap, wrap_host, spent_trap,
}

abbrev arg : CVal
arg = record { kind = Tag.i32; of = Payload.i32 3 }

abbrev during : World
during = opened world 0

read_arg : get (mk_val arg) during ≡ (ok (int32 3), during)
unfolding get
read_arg = refl

-- The Go function takes a `*Caller` and an `int32`.
passed : Passes 0 during callback.signature.ins (arg ∷ []) (caller 0 ∷ int32 3 ∷ [])
passed = the_caller (value GoType.int32 arg (int32 3) refl read_arg done)

abbrev results : List Any
results = int64 8 ∷ text "b" ∷ trap none ∷ []

abbrev answers : Host
answers = wrap_host (λ params. return results)

abbrev booms : Host
booms = wrap_host (λ params. throw (text "boom"))

abbrev traps : Host
traps = wrap_host (λ params. return (trap (some 0) ∷ []))

go_trampoline_wrap_results_example :
    (slots : List (Option CVal)) × (u : World) × (go_trampoline_wrap answers 0 1 (arg ∷ []) world
      ≡ (ok (record { trap = none; written = slots }), u))
    × (infer_func_type (some (record { ins = []; outs = callback.signature.outs }))
        ≡ ok (record { params = []; results = kinds_written slots }))
    × (u.store_data ≡ quiet_data ∷ [])
go_trampoline_wrap_results_example =
    go_trampoline_wrap_results answers world 0 1 0 (arg ∷ []) wrap_entry (caller 0 ∷ int32 3 ∷ [])
      refl found_wrap passed refl refl during results refl refl empty-IsValid

go_trampoline_wrap_trap_example :
    (u : World) × (go_trampoline_wrap traps 0 1 (arg ∷ []) world
      ≡ (ok (record { trap = some 5; written = [] }), u))
    × (get_elem? u.traps 0 ≡ some spent_trap)
    × (get_elem? u.store_data 0 ≡ some quiet_data)
go_trampoline_wrap_trap_example =
    go_trampoline_wrap_trap traps world 0 1 0 (arg ∷ []) wrap_entry (caller 0 ∷ int32 3 ∷ []) refl
      found_wrap passed refl refl during quiet_data refl 0 (some 5) true refl refl

write_results_interface_example :
    (infer_func_type (some (record { ins = []; outs = GoType.other 0 ∷ [] }))
      ≡ ok (record { params = []; results = externref ∷ [] }))
    × ((slot : CVal) × (write_results (some 0) (int32 4 ∷ []) world
          ≡ (ok (record { trap = none; written = some slot ∷ [] }), world))
        × (named slot.kind ≢ externref))
write_results_interface_example = write_results_interface 0 (int32 4) (some 0) world refl
