-- ===== src/Examples/Objects.antt =====
-- config.go, engine.go, wasi.go, store.go, module.go and error.go at concrete states.
use wasmtime_go.Base.{
  suc, ℕ, ◌+◌, ◌<◌, ◌≡◌, refl, true, false, some, List, [], ◌∷◌, arith, length, get_elem?,
  if◌then◌else◌,
}
use wasmtime_go.Go.Value.{text}
use wasmtime_go.Go.Outcome.{ok, panic}
use wasmtime_go.Native.{
  Class, Event, State, Wasmtime, call, collect, mk_object, create, construct, clear, ptr,
}
use wasmtime_go.Native.Trace.{count, held, live}
use wasmtime_go.Native.Owned.{owners}
use wasmtime_go.Native.Operations.{Fresh}
use wasmtime_go.Config.{config_ptr, config_call, new_config, new_engine_with_config}
use wasmtime_go.Config.Method
use wasmtime_go.Config.Method.{Method}
use wasmtime_go.Config.Used.{Points, config_used_up}
use wasmtime_go.Context.{open_store}
use wasmtime_go.Objects.{
  History, nothing, start, step, makes_config, configures, makes_engine_with_config, makes_store,
  collects,
}
use wasmtime_go.Objects.Invariant.Safety.{owners-live}

abbrev pub sum : List ℕ → ℕ
sum [] = 0
sum (x ∷ xs) = x + sum xs

-- An allocator that puts a new object past all live ones.
abbrev pub past : Wasmtime
past = record {
  address = λ log. suc (sum (live log));
  fails = λ log. false;
  number = λ log. 7;
  bytes = λ log. [];
}

not_past : (p : ℕ) (xs : List ℕ) → sum xs < p → count p xs ≡ 0
not_past p [] h = refl
not_past p (x ∷ xs) h = ground (arith, not_past p xs (omega arith))

past-Fresh : Fresh past
past-Fresh log =
    let absent = not_past (suc (sum (live log))) (live log) (omega arith) in ground (arith, absent)

-- A configuration is made, set, and used up by an engine; the engine makes a store, and the collector
-- takes the configuration.
abbrev s1 : State
s1 = (new_config past nothing).1

abbrev s2 : State
s2 = (Method.run past (Method.consume_fuel true) 0 s1).1

abbrev s3 : State
s3 = (new_engine_with_config past 0 s2).1

abbrev s4 : State
s4 = (open_store past 1 s3).1

abbrev s5 : State
s5 = (collect Class.config 0 s4).1

engine-History : History past s5
engine-History =
    step _ _
      (step _ _
        (step _ _ (step _ _ (step _ _ start makes_config) (configures (Method.consume_fuel true) 0))
          (makes_engine_with_config 0))
        (makes_store 1))
      (collects Class.config 0)

owners-live_example : owners 1 s5.objects ≡ (if held 1 (live s5.log) then 1 else 0)
owners-live_example = owners-live past-Fresh engine-History 1

s5_live : live s5.log ≡ 2 ∷ 1 ∷ []
unfolding Method.run new_engine_with_config open_store collect mk_object create construct clear call
    ptr config_ptr config_call
s5_live = refl

config_at : Points s2 0 (some 1)
unfolding Method.run config_call config_ptr construct create mk_object
config_at = record {
  object = record { class = Class.config; ptr = some 1; finalizer = true };
  at = refl;
  of_class = refl;
  points = refl;
}

config_used_up_example :
    let made = past.address (Event.consumed Class.config (some 1) ∷ s2.log) in
    (t : State) × (new_engine_with_config past 0 s2 ≡ (ok (length s2.objects), t))
    × (get_elem? t.objects (length s2.objects)
        ≡ some (some (record { class = Class.engine; ptr = some made; finalizer = true })))
    × (t.log ≡ (Event.created Class.engine made ∷ Event.consumed Class.config (some 1) ∷ s2.log))
    × ((m : Method) → Method.run past m 0 t ≡ (panic (text "Config has already been used up"), t))
    × (new_engine_with_config past 0 t ≡ (panic (text "Config has already been used up"), t))
config_used_up_example = config_used_up past 1 config_at
