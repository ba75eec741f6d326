-- ===== src/Config/Ownership.antt =====
-- What the operations of config.go and engine.go do to the balance of C objects and owners.
use wasmtime_go.Base.{ℕ, ◌≡◌, refl, Option, none, some, ◌∷◌, inl, inr, ap}
use wasmtime_go.Go.Value.{runtime_error, nil_dereference}
use wasmtime_go.Go.Outcome.{panic}
use wasmtime_go.Native.{Class, Event, Object, emptied, Request, State, Wasmtime, load, mk_object}
use wasmtime_go.Native.Owned.{is_argument, Owned}
use wasmtime_go.Native.Balance.{
  OwnerAt, OwnerAt-held, OwnerAt-log, called-Balanced, consumed-Balanced, created-Balanced,
  put-debt, mk_object-Balanced,
}
use wasmtime_go.Native.Operations.{
  Fresh, Preserves, load-cases, Loaded-cases, bind-Preserves, return-Preserves, checked-Preserves,
}
use wasmtime_go.Config.{config_ptr, config_call, new_engine_with_config}
use wasmtime_go.Config.Used.{
  Points, engine_made, new_engine_with_config_made, new_engine_with_config_used,
}
use wasmtime_go.Config.Method.{Method, run, run-config_call}

config_call-Preserves : (cfg : ℕ) (request : Request) → Preserves (config_call cfg request)
unfolding config_call config_ptr
config_call-Preserves cfg request s h = elim (load-cases Class.config cfg s) [
  | inl missing ↦ rw missing h
  | inr l ↦ rw l.loads (elim (Loaded-cases h l) [
    | inl (p, a) ↦ rw a.points (called-Balanced Class.config (some p) request h (OwnerAt-held h a))
    | inr (missing, off, argument) ↦ rw missing h
  ])
]

new_engine_with_config_missing :
    (api : Wasmtime) (cfg : ℕ) (s : State)
    → load Class.config cfg s ≡ (panic (runtime_error nil_dereference), s)
    → new_engine_with_config api cfg s ≡ (panic (runtime_error nil_dereference), s)
unfolding new_engine_with_config config_ptr
new_engine_with_config_missing api cfg s missing = rw missing refl

module _ (api : Wasmtime) (fresh : Fresh api) where
  pub run-Preserves : (m : Method) (cfg : ℕ) → Preserves (run api m cfg)
  run-Preserves m cfg =
      let (r, either) = run-config_call api m cfg in
      let call = config_call-Preserves cfg r in
      elim either [
        | inl e ↦ rw e (bind-Preserves _ _ call (λ _. return-Preserves {A = Option ℕ} none))
        | inr e ↦ rw e (bind-Preserves _ _ call (λ _. checked-Preserves api fresh))
      ]

  engine_made-Owned :
      (cfg p : ℕ) (s : State) (o : Object)
      → o.class ≡ Class.config
      → OwnerAt s cfg p o
      → Owned s
      → Owned (engine_made s cfg api p o)
  unfolding mk_object
  engine_made-Owned cfg p s o same a h =
      let consumed = consumed-Balanced Class.config p h (OwnerAt-held h a) in
      let log = Event.consumed Class.config (some p) ∷ s.log in
      let created = created-Balanced Class.engine (api.address log) consumed (fresh log) in
      let released =
        put-debt cfg (emptied o) (λ q. refl) (ap is_argument same) p o (OwnerAt-log a _) created in
      mk_object-Balanced Class.engine _ released

  pub new_engine_with_config-Preserves : (cfg : ℕ) → Preserves (new_engine_with_config api cfg)
  new_engine_with_config-Preserves cfg s h = elim (load-cases Class.config cfg s) [
    | inl missing ↦ rw (new_engine_with_config_missing api cfg s missing) h
    | inr l ↦ elim (Loaded-cases h l) [
      | inl (p, a) ↦
          let at : Points s cfg (some p) = record {
            object = l.object;
            at = l.at;
            of_class = l.of_class;
            points = a.points;
          } in
          rw (new_engine_with_config_made api p at)
            (engine_made-Owned cfg p s l.object l.of_class a h)
      | inr (empty, off, argument) ↦
          let at : Points s cfg none = record {
            object = l.object;
            at = l.at;
            of_class = l.of_class;
            points = empty;
          } in
          rw (new_engine_with_config_used api at) h
    ]
  ]
