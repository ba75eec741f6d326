-- ===== src/Linker/Instantiation.antt =====
-- What instantiation returns.
use wasmtime_go.Base.{
  ℕ, ◌≡◌, refl, arith, true, false, Bool, ◌&&◌, not, Option, none, some, get_elem?, is_some,
}
use wasmtime_go.Go.Outcome.{Exec, ok}
use wasmtime_go.World.{World, StoreData}
use wasmtime_go.Store.{Storelike, context}
use wasmtime_go.Store.Finds.{get_data_in_store_store}
use wasmtime_go.Enter.{GoError, Ran, is_nil, choose_error}
use wasmtime_go.Enter.Propagation.{enter_wasm_returns, Owned}
use wasmtime_go.Linker.{Instantiated, finish_instance, instantiate}

-- No instance with a nil error, and no error with an instance.
abbrev pub Either : Instantiated → Type 0
Either i = is_some i.error ≡ not (is_some i.instance')

succeeds-choose_error :
    (u : World) (trap error r : Option ℕ)
    → Owned u trap r
    → is_some (choose_error r error) ≡ not (not (is_some trap) && not (is_some error))
succeeds-choose_error u none none none o = refl
succeeds-choose_error u none (some e) none o = refl
succeeds-choose_error u (some p) none (some t) o = refl
succeeds-choose_error u (some p) (some e) (some t) o = refl
succeeds-choose_error u none error (some t) o = absurd o
succeeds-choose_error u (some p) error none o = absurd o

finish_instance-Either :
    (e : Option ℕ) (o : Option GoError) (val : ℕ) (b : Bool)
    → is_some o ≡ not b
    → Either (finish_instance (o, val)) × (is_some (finish_instance (o, val)).instance' ≡ b)
unfolding finish_instance
finish_instance-Either e none val true h = (refl, refl)
finish_instance-Either e none val false h = absurd (ground arith)
finish_instance-Either e (some x) val true h = absurd (ground arith)
finish_instance-Either e (some x) val false h = (refl, refl)

-- If wasm ran, in a store that is in the table, and left no panic with it, instantiation returns an
-- instance or an error, never both and never none: an instance exactly if wasm did not trap and
-- wasmtime gave no error. The stores' data is as wasm left it.
pub instantiate_lem :
    (env d : ℕ) (run : Exec World (Ran ℕ)) (w t : World) (ran : Ran ℕ) (sd : StoreData)
    → w.stores.entries env ≡ some d
    → run w ≡ (ok ran, t)
    → get_elem? t.store_data d ≡ some sd
    → is_nil sd.last_panic ≡ true
    → (i : Instantiated) × (u : World) × (instantiate (Storelike.store env) run w ≡ (ok i, u))
      × Either i
      × (is_some i.instance' ≡ (not (is_some ran.trap) && not (is_some ran.error)))
      × (u.store_data ≡ t.store_data)
unfolding instantiate context
instantiate_lem env d run w t ran sd attached runs here quiet =
    let (r, u, done, owned, same) =
      enter_wasm_returns (Storelike.store env) run w t d ran sd
        (get_data_in_store_store env d w attached) runs here quiet in
    let (either, made) =
      finish_instance-Either r (choose_error r ran.error) ran.output
        (not (is_some ran.trap) && not (is_some ran.error))
        (succeeds-choose_error u ran.trap ran.error r owned) in
    (finish_instance (choose_error r ran.error, ran.output), u, rw done refl, either, made, same)
