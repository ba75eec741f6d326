-- ===== src/Linking/Ownership.antt =====
-- What the operations of linker.go on names do to the balance of C objects and owners.
use wasmtime_go.Base.{ℕ, String, ◌≡◌, refl, Bool, true, false, Option, List, some, inl, inr, arith}
use wasmtime_go.Extern.{CExtern}
use wasmtime_go.Go.Outcome.{Exec, ◌>>=◌}
use wasmtime_go.Native.{Class, Request, State, Wasmtime, ptr}
use wasmtime_go.Native.Trace.{live, usable}
use wasmtime_go.Native.Owned.{Owned, is_argument}
use wasmtime_go.Native.Balance.{OwnerAt-held, called-Balanced}
use wasmtime_go.Native.Operations.{
  Fresh, Preserves, load-cases, Loaded-cases, bind-Preserves, call-Preserves, construct-Preserves,
  checked-Preserves, failing-Preserves,
}
use wasmtime_go.Linking.{
  call_with, call_with_module, start_instantiate, start_instance, new_linker, define,
  define_instance, define_module, default_or, get_default, get,
}

-- Operations that start by reading the pointer of an object that is no configuration.
ptr-Owned :
    {A : Type 0} (class : Class) (ref : ℕ) (f : Option ℕ → Exec State A) (s : State)
    → is_argument class ≡ false
    → Owned s
    → ((p : Option ℕ) → usable class p (live s.log) ≡ true → Owned (f p s).1)
    → Owned ((ptr class ref >>= f) s).1
unfolding ptr
ptr-Owned class ref f s other h k = elim (load-cases class ref s) [
  | inl missing ↦ rw missing h
  | inr l ↦ rw l.loads (elim (Loaded-cases h l) [
    | inl (p, a) ↦ rw a.points (k (some p) (OwnerAt-held h a))
    | inr (missing, off, argument) ↦ absurd (ground arith)
  ])
]

call_with-Preserves :
    (l : ℕ) (request : Request) (store : ℕ) (beside : Request)
    → Preserves (call_with l request store beside)
unfolding call_with
call_with-Preserves l request store beside s h = ptr-Owned Class.linker l _ s refl h (λ p good.
    ptr-Owned Class.store store _ s refl h (λ q fine.
      called-Balanced Class.store q beside (called-Balanced Class.linker p request h good) fine))

call_with_module-Preserves :
    (l : ℕ) (request : Request) (store module' : ℕ)
    → Preserves (call_with_module l request store module')
unfolding call_with_module
call_with_module-Preserves l request store module' s h =
    ptr-Owned Class.linker l _ s refl h (λ p good. ptr-Owned Class.store store _ s refl h (λ q fine.
      ptr-Owned Class.module' module' _ s refl h (λ r right.
        called-Balanced Class.module' r Request.argument
          (called-Balanced Class.store q Request.argument
            (called-Balanced Class.linker p request h good) fine)
          right)))

pub start_instantiate-Preserves :
    (l store module' : ℕ) → Preserves (start_instantiate l store module')
start_instantiate-Preserves l store module' =
    call_with_module-Preserves l Request.linker_instantiate store module'

pub start_instance-Preserves :
    (store module' : ℕ) (imports : List CExtern) → Preserves (start_instance store module' imports)
unfolding start_instance
start_instance-Preserves store module' imports s h =
    ptr-Owned Class.store store _ s refl h (λ p good.
      ptr-Owned Class.module' module' _ s refl h (λ q fine.
        called-Balanced Class.module' q Request.argument
          (called-Balanced Class.store p (Request.instance_new imports) h good) fine))

module _ (api : Wasmtime) (fresh : Fresh api) where
  pub new_linker-Preserves : (engine : ℕ) → Preserves (new_linker api engine)
  unfolding new_linker
  new_linker-Preserves engine =
      bind-Preserves _ _ (call-Preserves Class.engine engine Request.linker_new refl)
        (λ _. construct-Preserves api fresh Class.linker)

  pub define-Preserves :
      (l store : ℕ) (module' name : String) (item : CExtern)
      → Preserves (define api l store module' name item)
  unfolding define
  define-Preserves l store module' name item =
      bind-Preserves _ _ (call_with-Preserves l _ store _) (λ _. checked-Preserves api fresh)

  pub define_instance-Preserves :
      (l store : ℕ) (name : String) (instance' : ℕ)
      → Preserves (define_instance api l store name instance')
  unfolding define_instance
  define_instance-Preserves l store name instance' =
      bind-Preserves _ _ (call_with-Preserves l _ store _) (λ _. checked-Preserves api fresh)

  pub define_module-Preserves :
      (l store : ℕ) (name : String) (module' : ℕ)
      → Preserves (define_module api l store name module')
  unfolding define_module
  define_module-Preserves l store name module' =
      bind-Preserves _ _ (call_with_module-Preserves l _ store module')
        (λ _. checked-Preserves api fresh)

  default_or-Preserves : (b : Bool) → Preserves (default_or api b)
  unfolding default_or
  default_or-Preserves true = failing-Preserves api fresh _ (λ e s h. h)
  default_or-Preserves false = λ s h. h

  pub get_default-Preserves :
      (l store : ℕ) (name : String) → Preserves (get_default api l store name)
  unfolding get_default
  get_default-Preserves l store name =
      bind-Preserves _ _ (call_with-Preserves l _ store _)
        (λ _ s h. default_or-Preserves (api.fails s.log) s h)

  pub get-Preserves :
      (l store : ℕ) (module' name : String) → Preserves (get api l store module' name)
  unfolding get
  get-Preserves l store module' name =
      bind-Preserves _ _ (call_with-Preserves l _ store _) (λ _ s h. h)
