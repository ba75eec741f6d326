-- ===== src/Store/Lifetime.antt =====
-- Making and finalizing stores: which data `getDataInStore` leads to.
use wasmtime_go.Base.{
  ℕ, ◌≡◌, ◌≢◌, refl, ap, ◌∙◌, none, some, [], ◌∷◌, ◌++◌, arith, length, get_elem?,
  get_elem?-append_length, get_elem?-append_left, lt_of_get_elem?,
}
use wasmtime_go.Go.Outcome.{ok}
use wasmtime_go.Registry.Laws.{
  IsValid, insert-Inserts, Inserts-keeps, remove-Removes, Removes-keeps,
}
use wasmtime_go.World.{World, StoreData}
use wasmtime_go.Store.{Storelike, fresh_data, new_store, go_finalize_store, get_data_in_store}
use wasmtime_go.Store.Finds.{get_data_in_store_store}

-- The store with this env leads to this data.
abbrev pub Leads : World → ℕ → StoreData → Type 0
Leads w env sd =
    (d : ℕ) × (get_data_in_store (Storelike.store env) w ≡ (ok (some d), w))
    × (get_elem? w.store_data d ≡ some sd)

Leads-intro :
    (w : World) (env d : ℕ) (sd : StoreData)
    → w.stores.entries env ≡ some d
    → get_elem? w.store_data d ≡ some sd
    → Leads w env sd
Leads-intro w env d sd e h = (d, get_data_in_store_store env d w e, h)

-- A new store leads to data of its own: its engine's, with no host function and no panic. Its env was
-- in use by no store, any store that led to its data before still leads to the same data, and the
-- table of stores, if it was valid, stays valid.
pub new_store_lem :
    (engine other d : ℕ) (w : World) (sd : StoreData)
    → IsValid w.stores
    → w.stores.entries other ≡ some d
    → get_elem? w.store_data d ≡ some sd
    → (env : ℕ) × (t : World) × (new_store engine w ≡ (ok env, t))
      × (w.stores.entries env ≡ none)
      × Leads t env (fresh_data engine)
      × Leads t other sd
      × IsValid t.stores
unfolding new_store
new_store_lem engine other d w sd h e s =
    let (k, r, done, i) = insert-Inserts w.stores (length w.store_data) h in
    let t = record w { stores = r; store_data = w.store_data ++ fresh_data engine ∷ [] } in
    (
      k,
      t,
      rw done refl,
      i.fresh,
      Leads-intro t k (length w.store_data) (fresh_data engine) (i.read k ∙ ground arith)
          (get_elem?-append_length w.store_data (fresh_data engine)),
      Leads-intro t other d sd (Inserts-keeps other d i e) (
          get_elem?-append_left w.store_data (fresh_data engine ∷ []) d
            (lt_of_get_elem? w.store_data d sd s)
          ∙ s),
      i.valid,
    )

-- Finalizing a store that is in the table does not panic. Afterwards its env leads to no data, any
-- other store that led to its data still leads to the same data, and the table, if it was valid,
-- stays valid.
pub go_finalize_store_lem :
    (env d other d' : ℕ) (w : World) (sd : StoreData)
    → IsValid w.stores
    → w.stores.entries env ≡ some d
    → other ≢ env
    → w.stores.entries other ≡ some d'
    → get_elem? w.store_data d' ≡ some sd
    → (t : World) × (go_finalize_store env w ≡ (ok tt, t))
      × (get_data_in_store (Storelike.store env) t ≡ (ok none, t))
      × Leads t other sd
      × IsValid t.stores
unfolding go_finalize_store get_data_in_store
go_finalize_store_lem env d other d' w sd h e ne e' s =
    let (r, done, removed) = remove-Removes w.stores env d h e in
    let t = record w { stores = r } in
    (
      t,
      rw done refl,
      ap (λ p. (ok p, t)) (removed.read env ∙ ground arith),
      Leads-intro t other d' sd (Removes-keeps other d' removed ne e') s,
      removed.valid,
    )
