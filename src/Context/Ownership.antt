-- ===== src/Context/Ownership.antt =====
-- What the operations of store.go on C stores do to the balance of C objects and owners.
use wasmtime_go.Base.{ℕ, refl, Bool, true, false, Option, none, some}
use wasmtime_go.Go.Outcome.{Exec, gets, ◌>>◌}
use wasmtime_go.Native.{Class, Request, State, Wasmtime, call}
use wasmtime_go.Native.Operations.{
  Fresh, Preserves, bind-Preserves, call-Preserves, construct-Preserves, failing-Preserves,
}
use wasmtime_go.Context.{
  set_wasi_ctx, open_store, fuel_consumed, number_or, checked_number, get_wasi_ctx,
}

pub set_wasi_ctx-Preserves : (store : ℕ) (ctx : Option ℕ) → Preserves (set_wasi_ctx store ctx)
unfolding set_wasi_ctx
set_wasi_ctx-Preserves store none = λ s h. h
set_wasi_ctx-Preserves store (some ctx) = call-Preserves Class.store store _ refl

module _ (api : Wasmtime) where
  pub fuel_consumed-Preserves : (store : ℕ) → Preserves (fuel_consumed api store)
  unfolding fuel_consumed
  fuel_consumed-Preserves store =
      bind-Preserves _ _ (call-Preserves Class.store store Request.fuel_consumed refl) (λ _ s h. h)

  pub get_wasi_ctx-Preserves : (store : ℕ) → Preserves (get_wasi_ctx api store)
  unfolding get_wasi_ctx
  get_wasi_ctx-Preserves store =
      let first = call Class.store store Request.set_default_wasi_if_not_exist in
      let second = call Class.store store Request.get_wasi_ctx in
      let read : Exec State ℕ = gets (λ s. api.number s.log) in
      bind-Preserves first (λ _. second >> read) (call-Preserves Class.store store _ refl)
        (λ _.
          bind-Preserves second (λ _. read) (call-Preserves Class.store store _ refl) (λ _ s h. h))

module _ (api : Wasmtime) (fresh : Fresh api) where
  pub open_store-Preserves : (engine : ℕ) → Preserves (open_store api engine)
  unfolding open_store
  open_store-Preserves engine =
      bind-Preserves _ _ (call-Preserves Class.engine engine Request.store_new refl)
        (λ _. construct-Preserves api fresh Class.store)

  number_or-Preserves : (b : Bool) → Preserves (number_or api b)
  unfolding number_or
  number_or-Preserves true = failing-Preserves api fresh _ (λ e s h. h)
  number_or-Preserves false = λ s h. h

  -- A call of the store that returns a number and an error.
  pub call_number-Preserves :
      (store : ℕ) (request : Request)
      → Preserves (call Class.store store request >> checked_number api)
  unfolding checked_number
  call_number-Preserves store request =
      bind-Preserves _ _ (call-Preserves Class.store store request refl)
        (λ _ s h. number_or-Preserves (api.fails s.log) s h)
