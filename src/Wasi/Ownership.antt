-- ===== src/Wasi/Ownership.antt =====
-- What the operations of wasi.go, and SetWasiConfig, do to the balance of C objects and owners.
use wasmtime_go.Base.{
  ℕ, String, ◌≡◌, refl, ap, false, none, some, List, [], ◌∷◌, inl, inr, arith, ◌==◌, length,
  Bool-cases, ◌≢◌, get_elem?, set, get_elem?-set_ne,
}
use wasmtime_go.Go.Value.{text}
use wasmtime_go.Go.Outcome.{ok, panic, ◌>>◌}
use wasmtime_go.Native.{
  Class, Event, Object, emptied, Request, State, Wasmtime, load, clear, call, ptr,
}
use wasmtime_go.Native.Owned.{is_argument, Owned, Balanced}
use wasmtime_go.Native.Balance.{
  put, OwnerAt, OwnerAt-held, called-Balanced, released-Balanced, put-credit, put_idle,
}
use wasmtime_go.Native.Operations.{
  Preserves, Loaded, load-cases, Loaded-cases, bind-Preserves, call-Preserves,
}
use wasmtime_go.Wasi.{set_argv, set_env, or_message, set_wasi_config}

pub set_argv-Preserves : (c : ℕ) (argv : List String) → Preserves (set_argv c argv)
unfolding set_argv
set_argv-Preserves c argv = call-Preserves Class.wasi_config c _ refl

pub set_env-Preserves : (c : ℕ) (keys values : List String) → Preserves (set_env c keys values)
unfolding set_env
set_env-Preserves c keys values s h = elim (Bool-cases (length keys == length values)) [
  | inl same ↦ rw same (call-Preserves Class.wasi_config c _ refl s h)
  | inr other ↦ rw other h
]

pub or_message-Preserves :
    (api : Wasmtime) (c : ℕ) (request : Request) (message : String)
    → Preserves (call Class.wasi_config c request >> or_message api message)
unfolding or_message
or_message-Preserves api c request message =
    bind-Preserves _ _ (call-Preserves Class.wasi_config c request refl) (λ _ s h. h)

-- The store is another object than the configuration, and stays as it is.
other_class :
    (s : State) (store wasi : ℕ) (o q : Object)
    → get_elem? s.objects wasi ≡ some (some o)
    → o.class ≡ Class.wasi_config
    → get_elem? s.objects store ≡ some (some q)
    → q.class ≡ Class.store
    → wasi ≢ store
other_class s store wasi o q at is_wasi store_at is_store =
    λ e. absurd (ground (arith, at, store_at, e, is_wasi, is_store))

-- SetWasiConfig where both pointers are there: what it leaves.
abbrev pub wasi_set : State → ℕ → Object → ℕ → ℕ → State
wasi_set s wasi o p q = record {
  log =
      Event.consumed Class.wasi_config (some p)
      ∷ Event.called Class.store (some q) Request.context_set_wasi
      ∷ s.log;
  objects = set s.objects wasi (emptied o);
}

load_after :
    (s : State) (store wasi : ℕ) (l : Loaded Class.wasi_config wasi s)
    → (k : Loaded Class.store store s)
    → load Class.store store (put wasi (emptied l.object) s)
      ≡ (ok k.object, put wasi (emptied l.object) s)
load_after s store wasi l k =
    let apart = other_class s store wasi l.object k.object l.at l.of_class k.at k.of_class in
    rw (get_elem?-set_ne s.objects wasi store (emptied l.object) apart, k.at, k.of_class) refl

pub set_wasi_config-set :
    (s : State) (store wasi p q : ℕ) (l : Loaded Class.wasi_config wasi s)
    → (k : Loaded Class.store store s) → l.object.ptr ≡ some p
    → k.object.ptr ≡ some q
    → set_wasi_config store wasi s ≡ (ok tt, wasi_set s wasi l.object p q)
unfolding set_wasi_config clear call ptr
set_wasi_config-set s store wasi p q l k has_p has_q =
    simp (l.loads, load_after s store wasi l k, has_p, has_q)

pub set_wasi_config-reused :
    (s : State) (store wasi : ℕ) (l : Loaded Class.wasi_config wasi s)
    → l.object.ptr ≡ none
    → set_wasi_config store wasi s
      ≡ (panic (text "reuse of already-consumed WasiConfig"), put wasi (emptied l.object) s)
unfolding set_wasi_config clear
set_wasi_config-reused s store wasi l empty = simp (l.loads, empty)

wasi_set-Owned :
    (s : State) (store wasi p q : ℕ) (o k : Object)
    → o.class ≡ Class.wasi_config
    → OwnerAt s wasi p o
    → OwnerAt s store q k
    → Owned s
    → Owned (wasi_set s wasi o p q)
wasi_set-Owned s store wasi p q o k same a b h =
    let let_go : Balanced [] (p ∷ []) (put wasi (emptied o) s) =
      put-credit wasi (emptied o) (λ x. refl) (ap is_argument same) p o a h in
    let used =
      called-Balanced Class.store (some q) Request.context_set_wasi let_go (OwnerAt-held h b) in
    released-Balanced Class.wasi_config p used (OwnerAt-held h a)

wasi_reused-Owned :
    (s : State) (wasi : ℕ) (o : Object)
    → o.class ≡ Class.wasi_config
    → get_elem? s.objects wasi ≡ some (some o)
    → o.finalizer ≡ false
    → Owned s
    → Owned (put wasi (emptied o) s)
wasi_reused-Owned s wasi o same at off h =
    put_idle wasi (emptied o) (λ x. refl) (ap is_argument same) o at off h

-- SetWasiConfig of a store that is not nil.
pub set_wasi_config-Owned :
    (store wasi : ℕ) (s : State)
    → Loaded Class.store store s
    → Owned s
    → Owned (set_wasi_config store wasi s).1
unfolding set_wasi_config clear
set_wasi_config-Owned store wasi s k h = elim (load-cases Class.wasi_config wasi s) [
  | inl missing ↦ rw missing h
  | inr l ↦ elim (Loaded-cases h l) [
    | inr (empty, off, argument) ↦
        rw (set_wasi_config-reused s store wasi l empty)
          (wasi_reused-Owned s wasi l.object l.of_class l.at off h)
    | inl (p, a) ↦ elim (Loaded-cases h k) [
      | inr (empty, off, argument) ↦ absurd (ground arith)
      | inl (q, b) ↦
          rw (set_wasi_config-set s store wasi p q l k a.points b.points)
            (wasi_set-Owned s store wasi p q l.object k.object l.of_class a b h)
    ]
  ]
]
