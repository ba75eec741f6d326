-- ===== src/Wasi/Used.antt =====
-- A `WasiConfig` is used up by the store that it is set for.
use wasmtime_go.Base.{
  true, zero, suc, ℕ, ◌≡◌, ◌∙◌, refl, ap, false, none, some, List, [], ◌∷◌, set, get_elem?-set_self,
  lt_of_get_elem?,
}
use wasmtime_go.Go.Value.{text}
use wasmtime_go.Go.Outcome.{ok, panic}
use wasmtime_go.Native.{Class, Object, Event, Request, State, Wasmtime, load, emptied, call, ptr}
use wasmtime_go.Native.Balance.{log_event}
use wasmtime_go.Native.Operations.{Loaded}
use wasmtime_go.Wasi.{set_argv, set_env, or_message, set_wasi_config}
use wasmtime_go.Wasi.Method.{Method, run, accepted, request}
use wasmtime_go.Wasi.Ownership.{wasi_set, set_wasi_config-set, set_wasi_config-reused}

set-set : {A : Type 0} (xs : List A) (i : ℕ) (v w : A) → set (set xs i v) i w ≡ set xs i w
set-set [] i v w = refl
set-set (x ∷ xs) zero v w = refl
set-set (x ∷ xs) (suc i) v w = ap (λ ys. x ∷ ys) (set-set xs i v w)

module _ (s : State) (store wasi p q : ℕ) (l : Loaded Class.wasi_config wasi s)
    (k : Loaded Class.store store s) (has_p : l.object.ptr ≡ some p)
    (has_q : k.object.ptr ≡ some q) where
  abbrev after : State
  after = wasi_set s wasi l.object p q

  abbrev left_over : Object
  left_over = record l.object { ptr = none; finalizer = false }

  after-load : load Class.wasi_config wasi after ≡ (ok left_over, after)
  after-load =
      let bound = lt_of_get_elem? s.objects wasi _ l.at in
      rw (get_elem?-set_self s.objects wasi (emptied l.object) bound, l.of_class) refl

  after-Loaded : Loaded Class.wasi_config wasi after
  after-Loaded = record {
    object = left_over;
    at =
        get_elem?-set_self s.objects wasi (emptied l.object)
          (lt_of_get_elem? s.objects wasi _ l.at);
    of_class = l.of_class;
    loads = after-load;
  }

  call_left_over :
      (r : Request)
      → call Class.wasi_config wasi r after
        ≡ (ok tt, log_event (Event.called Class.wasi_config none r) after)
  unfolding call ptr
  call_left_over r = rw after-load refl

  run_left_over :
      (api : Wasmtime) (m : Method)
      → accepted m ≡ true
      → run api m wasi after
        ≡ (ok tt, log_event (Event.called Class.wasi_config none (request m)) after)
  unfolding set_argv set_env or_message
  run_left_over api (Method.set_env keys values) h = rw h (call_left_over _)
  run_left_over api (Method.set_stdin_file path) h = rw (call_left_over _) refl
  run_left_over api (Method.set_stdout_file path) h = rw (call_left_over _) refl
  run_left_over api (Method.set_stderr_file path) h = rw (call_left_over _) refl
  run_left_over api (Method.preopen_dir path guest) h = rw (call_left_over _) refl
  run_left_over api (Method.set_argv argv) h = call_left_over _
  run_left_over api Method.inherit_argv h = call_left_over _
  run_left_over api Method.inherit_env h = call_left_over _
  run_left_over api Method.inherit_stdin h = call_left_over _
  run_left_over api Method.inherit_stdout h = call_left_over _
  run_left_over api Method.inherit_stderr h = call_left_over _

  -- SetWasiConfig, of a store and of a configuration that has its C pointer, hands this pointer over
  -- to the store. From then on SetWasiConfig of the configuration panics and changes nothing, but every
  -- other method goes through, SetEnv for as many keys as values, and hands wasmtime a null pointer.
  pub wasi_config_used_up :
      (set_wasi_config store wasi s ≡ (ok tt, after))
      × (after.log ≡ (
          Event.consumed Class.wasi_config (some p)
          ∷ Event.called Class.store (some q) Request.context_set_wasi
          ∷ s.log))
      × ((other : ℕ)
          → set_wasi_config other wasi after
            ≡ (panic (text "reuse of already-consumed WasiConfig"), after))
      × ((api : Wasmtime) (m : Method)
          → accepted m ≡ true
          → run api m wasi after
            ≡ (ok tt, log_event (Event.called Class.wasi_config none (request m)) after))
  unfolding after-Loaded
  wasi_config_used_up = (
    set_wasi_config-set s store wasi p q l k has_p has_q,
    refl,
    λ other.
        set_wasi_config-reused after other wasi after-Loaded refl
        ∙ ap
            (λ xs.
              (panic (text "reuse of already-consumed WasiConfig"), record after { objects = xs }))
            (set-set s.objects wasi (emptied l.object) (emptied left_over)),
    run_left_over,
  )
