-- ===== src/Config/Used.antt =====
-- A configuration is used up by the engine that is made with it.
use wasmtime_go.Base.{
  ℕ, ◌≡◌, refl, sym, ap, ◌∙◌, true, false, Option, none, some, List, [], ◌∷◌, inl, inr, get_elem?,
  set, get_elem?-set_self, lt_of_get_elem?, get_elem?-append_length, get_elem?-append_left,
  length-set, ◌++◌, arith, length,
}
use wasmtime_go.Go.Value.{text}
use wasmtime_go.Go.Outcome.{ok, panic}
use wasmtime_go.Native.{
  Class, Object, Event, State, Wasmtime, load, create, clear, emptied, mk_object,
}
use wasmtime_go.Config.{config_ptr, config_call, new_engine_with_config}
use wasmtime_go.Config.Method.{Method, run, run-config_call}

-- The reference is to a configuration with this pointer.
pub record Points (s : State) (cfg : ℕ) (ptr : Option ℕ) : Type 0 where
  pub object : Object
  pub at : get_elem? s.objects cfg ≡ some (some object)
  pub of_class : object.class ≡ Class.config
  pub points : object.ptr ≡ ptr

load-Points :
    {s : State} {cfg : ℕ} {ptr : Option ℕ}
    → (h : Points s cfg ptr) → load Class.config cfg s ≡ (ok h.object, s)
load-Points h = rw (h.at, h.of_class) refl

-- What NewEngineWithConfig leaves.
abbrev pub engine_made : State → ℕ → Wasmtime → ℕ → Object → State
engine_made s cfg api p o =
    let address = api.address (Event.consumed Class.config (some p) ∷ s.log) in
    record {
      log = Event.created Class.engine address ∷ Event.consumed Class.config (some p) ∷ s.log;
      objects =
          set s.objects cfg (emptied o)
          ++ some (record { class = Class.engine; ptr = some address; finalizer = true }) ∷ [];
    }

module _ {s : State} {cfg : ℕ} where
  config_ptr_used :
      Points s cfg none → config_ptr cfg s ≡ (panic (text "Config has already been used up"), s)
  unfolding config_ptr
  config_ptr_used h = rw (load-Points h, h.points) refl

  pub config_ptr_fresh : {p : ℕ} → Points s cfg (some p) → config_ptr cfg s ≡ (ok (some p), s)
  unfolding config_ptr
  config_ptr_fresh h = rw (load-Points h, h.points) refl

  load_at :
      {ptr : Option ℕ}
      → (h : Points s cfg ptr) → (log : List Event)
      → load Class.config cfg (record s { log = log }) ≡ (ok h.object, record s { log = log })
  load_at h log = rw (h.at, h.of_class) refl

  run_used :
      (api : Wasmtime) (m : Method)
      → Points s cfg none
      → run api m cfg s ≡ (panic (text "Config has already been used up"), s)
  unfolding config_call
  run_used api m h =
      let (r, either) = run-config_call api m cfg in
      let refused = config_ptr_used h in
      elim either [ inl e ↦ rw (e, refused) refl | inr e ↦ rw (e, refused) refl ]

  pub new_engine_with_config_used :
      (api : Wasmtime)
      → Points s cfg none
      → new_engine_with_config api cfg s ≡ (panic (text "Config has already been used up"), s)
  unfolding new_engine_with_config
  new_engine_with_config_used api h = rw (config_ptr_used h) refl

  pub new_engine_with_config_made :
      (api : Wasmtime) (p : ℕ)
      → (h : Points s cfg (some p))
      → new_engine_with_config api cfg s
        ≡ (ok (length (set s.objects cfg (emptied h.object))), engine_made s cfg api p h.object)
  unfolding new_engine_with_config clear create mk_object
  new_engine_with_config_made api p h = simp (config_ptr_fresh h, load_at h)

  engine_made-Points :
      (api : Wasmtime) (p : ℕ)
      → (h : Points s cfg (some p)) → Points (engine_made s cfg api p h.object) cfg none
  engine_made-Points api p h =
      let bound = lt_of_get_elem? s.objects cfg _ h.at in
      let v = emptied h.object in
      record {
        object = record h.object { ptr = none; finalizer = false };
        at =
            get_elem?-append_left (set s.objects cfg v) _ cfg
              (omega (arith, length-set s.objects cfg v, bound))
            ∙ get_elem?-set_self s.objects cfg v bound;
        of_class = h.of_class;
        points = refl;
      }

module _ {s : State} {cfg : ℕ} where
  -- NewEngineWithConfig with a configuration that has its C pointer hands this pointer over to the C
  -- engine that it makes, and returns a new object, which owns the engine. From then on every method of
  -- the configuration, and NewEngineWithConfig again, panics and changes nothing.
  pub config_used_up :
      (api : Wasmtime) (p : ℕ)
      → Points s cfg (some p)
      → let made = api.address (Event.consumed Class.config (some p) ∷ s.log) in
        (t : State) × (new_engine_with_config api cfg s ≡ (ok (length s.objects), t))
        × (get_elem? t.objects (length s.objects)
            ≡ some (some (record { class = Class.engine; ptr = some made; finalizer = true })))
        × (t.log ≡ (Event.created Class.engine made ∷ Event.consumed Class.config (some p) ∷ s.log))
        × ((m : Method) → run api m cfg t ≡ (panic (text "Config has already been used up"), t))
        × (new_engine_with_config api cfg t ≡ (panic (text "Config has already been used up"), t))
  config_used_up api p h =
      let used = engine_made-Points api p h in
      let same = length-set s.objects cfg (emptied h.object) in
      let new_object = get_elem?-append_length (set s.objects cfg (emptied h.object)) _ in
      (
        engine_made s cfg api p h.object,
        new_engine_with_config_made api p h
            ∙ ap (λ n. (ok n, engine_made s cfg api p h.object)) same,
        ap (get_elem? (engine_made s cfg api p h.object).objects) (sym same) ∙ new_object,
        refl,
        λ m. run_used api m used,
        new_engine_with_config_used api used,
      )
